-- ===== src/PrismaStore/Rows.antt =====
-- The rows of the table as the bookings that they stand for.
use info_room_reservation_si.Prelude.{
  ◌+◌, ◌≡◌, refl, sym, ap, ◌∙◌, true, false, Option, none, some, List, [], ◌∷◌, ◌++◌, find, Text,
  codes, text_eq, text_eq_sound, arith, count, length-filter, Bool-cases, inl, inr, if◌then◌else◌,
}
use info_room_reservation_si.StudyPeriods.{
  StudyPeriod, eighth, first, period_text, period_eq, parse_study_period,
  parse_study_period-period_text, parse_study_period_iff,
}
use info_room_reservation_si.Reservations.{
  Reservation, ReservationStatus, Exception, Try, ok, throw, is_confirmed,
}
use info_room_reservation_si.Reservations.Laws.{is_slot, is_own}
use info_room_reservation_si.Database.{
  Try-cases, ReservationRow, Database, has_identity, to_reservation, parse_reservation_status,
  parse_stored_study_period,
}
use info_room_reservation_si.PrismaStore.{is_confirmed_slot, prisma_count, parse_found, prisma_find}

-- The rows that can be parsed; no other row is confirmed for a period.
abbrev keep : Try Reservation → List Reservation → List Reservation
keep (ok r) rs = r ∷ rs
keep (throw e) rs = rs

abbrev pub parsed : List ReservationRow → List Reservation
parsed [] = []
parsed (row ∷ rows) = keep (to_reservation row) (parsed rows)

apart : (t a b : Text) → text_eq a b ≡ false → text_eq t a ≡ true → text_eq t b ≡ false
apart t a b h e = rw (text_eq_sound t a e) h

is_confirmed-parse :
    (t : Text) (status : ReservationStatus)
    → parse_reservation_status t ≡ ok status
    → is_confirmed status ≡ text_eq t (codes "CONFIRMED")
unfolding parse_reservation_status
is_confirmed-parse t status h = ground (
  arith,
  apart t (codes "CANCELLED") (codes "CONFIRMED") (unfold text_eq in refl),
  apart t (codes "NO_SHOW") (codes "CONFIRMED") (unfold text_eq in refl),
)

invalid_status :
    (t : Text) (e : Exception)
    → parse_reservation_status t ≡ throw e
    → text_eq t (codes "CONFIRMED") ≡ false
unfolding parse_reservation_status
invalid_status t e h = ground arith

period_eq-text_eq : (q p : StudyPeriod) → period_eq q p ≡ text_eq (period_text q) (period_text p)
unfolding period_eq text_eq
period_eq-text_eq eighth eighth = refl
period_eq-text_eq eighth first = refl
period_eq-text_eq first eighth = refl
period_eq-text_eq first first = refl

period_eq-parse :
    (t : Text) (q p : StudyPeriod)
    → parse_stored_study_period t ≡ ok q
    → period_eq q p ≡ text_eq t (period_text p)
unfolding parse_stored_study_period
period_eq-parse t q p h =
    let read : parse_study_period t ≡ some q = ground arith in
    rw (sym ((parse_study_period_iff t q).0 read)) (period_eq-text_eq q p)

invalid_period :
    (t : Text) (p : StudyPeriod) (e : Exception)
    → parse_stored_study_period t ≡ throw e
    → text_eq t (period_text p) ≡ false
unfolding parse_stored_study_period
invalid_period t p e h = ground (
  arith,
  text_eq_sound t (period_text p),
  λ (k : period_text p ≡ t). (parse_study_period_iff t p).1 k,
)

count-keep :
    (date : Text) (p : StudyPeriod) (row : ReservationRow) (rs : List Reservation)
    → count (is_slot date p) (keep (to_reservation row) rs)
      ≡ (if is_confirmed_slot date p row then 1 else 0) + count (is_slot date p) rs
unfolding to_reservation
count-keep date p row rs = elim (Try-cases (parse_reservation_status row.status)) [
  | inl (e, h) ↦ rw (h, invalid_status row.status e h) (ground arith)
  | inr (status, h) ↦ elim (Try-cases (parse_stored_study_period row.study_period)) [
    | inl (e, k) ↦ rw (h, k, invalid_period row.study_period p e k) (ground arith)
    | inr (q, k) ↦
        rw
          (
            h,
            k,
            sym (is_confirmed-parse row.status status h),
            sym (period_eq-parse row.study_period q p k),
          )
          (ground arith)
  ]
]

count-parsed :
    (date : Text) (p : StudyPeriod) (rows : List ReservationRow)
    → count (is_slot date p) (parsed rows) ≡ count (is_confirmed_slot date p) rows
count-parsed date p [] = refl
count-parsed date p (row ∷ rows) =
    count-keep date p row (parsed rows) ∙ ground (arith, count-parsed date p rows)

pub parse_confirmed : parse_reservation_status (codes "CONFIRMED") ≡ ok ReservationStatus.confirmed
unfolding parse_reservation_status text_eq
parse_confirmed = refl

pub parse_stored_study_period-period_text :
    (p : StudyPeriod) → parse_stored_study_period (period_text p) ≡ ok p
unfolding parse_stored_study_period
parse_stored_study_period-period_text p = ground (arith, parse_study_period-period_text p)

is_own-parse :
    (date : Text) (p : StudyPeriod) (user_id : Text) (row : ReservationRow) (r : Reservation)
    → to_reservation row ≡ ok r
    → has_identity user_id date (period_text p) row ≡ false
    → is_own date p user_id r ≡ false
unfolding to_reservation has_identity
is_own-parse date p user_id row r h f = elim (Try-cases (parse_reservation_status row.status)) [
  | inl (e, k) ↦ absurd (ground arith)
  | inr (status, k) ↦ elim (Try-cases (parse_stored_study_period row.study_period)) [
    | inl (e, m) ↦ absurd (ground arith)
    | inr (q, m) ↦ ground (arith, period_eq-parse row.study_period q p m)
  ]
]

count-is_own-parsed :
    (date : Text) (p : StudyPeriod) (user_id : Text) (rows : List ReservationRow)
    → find (has_identity user_id date (period_text p)) rows ≡ none
    → count (is_own date p user_id) (parsed rows) ≡ 0
count-is_own-parsed date p user_id [] h = refl
count-is_own-parsed date p user_id (row ∷ rows) h =
    elim (Bool-cases (has_identity user_id date (period_text p) row)) [
      | inl t ↦ absurd (ground arith)
      | inr f ↦ elim (Try-cases (to_reservation row)) [
        | inl (e, k) ↦ rw (k) (count-is_own-parsed date p user_id rows (ground arith))
        | inr (r, k) ↦
            rw (k, is_own-parse date p user_id row r k f)
              (count-is_own-parsed date p user_id rows (ground arith))
      ]
    ]

parse_found-eq-none : (o : Option ReservationRow) → parse_found o ≡ ok none → o ≡ none
parse_found-eq-none none h = refl
parse_found-eq-none (some row) h = elim (Try-cases (to_reservation row)) [
  | inl (e, k) ↦ absurd (ground arith)
  | inr (r, k) ↦ absurd (ground arith)
]

pub prisma_find-count :
    (date : Text) (p : StudyPeriod) (user_id : Text) (s : Database)
    → prisma_find date p user_id s ≡ ok none
    → count (is_own date p user_id) (parsed s.reservations) ≡ 0
unfolding prisma_find
prisma_find-count date p user_id s h =
    count-is_own-parsed date p user_id s.reservations
      (parse_found-eq-none (find (has_identity user_id date (period_text p)) s.reservations) h)

pub prisma_count-parsed :
    (date : Text) (p : StudyPeriod) (s : Database)
    → prisma_count date p s ≡ count (is_slot date p) (parsed s.reservations)
unfolding prisma_count
prisma_count-parsed date p s =
    length-filter (is_confirmed_slot date p) s.reservations
    ∙ sym (count-parsed date p s.reservations)

pub parsed-append :
    (rows : List ReservationRow) (row : ReservationRow) (r : Reservation)
    → to_reservation row ≡ ok r
    → parsed (rows ++ row ∷ []) ≡ parsed rows ++ r ∷ []
parsed-append [] row r h = rw h refl
parsed-append (x ∷ rows) row r h = elim (Try-cases (to_reservation x)) [
  | inl (e, k) ↦ rw k (parsed-append rows row r h)
  | inr (y, k) ↦ rw k (ap (λ rs. y ∷ rs) (parsed-append rows row r h))
]
