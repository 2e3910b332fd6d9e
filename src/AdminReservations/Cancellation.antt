-- ===== src/AdminReservations/Cancellation.antt =====
-- What a cancellation does to the bookings.
use info_room_reservation_si.Prelude.{
  ◌+◌, ◌≤◌, ◌≡◌, refl, ◌⊎◌, inl, inr, true, false, none, some, List, [], ◌∷◌, Text, codes, text_eq,
  text_eq_sound, find, find_sound, count, length-filter, arith, Bool-cases, Option-cases,
  if◌then◌else◌,
}
use info_room_reservation_si.StudyPeriods.{StudyPeriod}
use info_room_reservation_si.Database.{
  ReservationRow, Database, update_status, has_id, is_confirmed_row,
}
use info_room_reservation_si.PrismaStore.{is_confirmed_slot, prisma_count}
use info_room_reservation_si.AdminReservations.{
  can_admin_cancel_reservation, AdministratorCancellationInput, invalid_status, not_found,
  ok_cancelled, is_confirmed_with_id, cancelled_state,
  cancel_administrator_reservation_in_transaction,
}

-- Without a row of the key nothing is updated.
count-no_row :
    (id : Text) (rows : List ReservationRow)
    → count (has_id id) rows ≡ 0
    → count (is_confirmed_with_id id) rows ≡ 0
count-no_row id [] h = refl
count-no_row id (row ∷ rows) h = ground (arith, count-no_row id rows)

pub update_status-no_row :
    (id status : Text) (rows : List ReservationRow)
    → count (has_id id) rows ≡ 0
    → update_status (is_confirmed_with_id id) status rows ≡ rows
unfolding update_status
update_status-no_row id status [] h = refl
update_status-no_row id status (row ∷ rows) h = ground (arith, update_status-no_row id status rows)

-- The row that is found under a key carries it.
pub id-found :
    (id : Text) (row : ReservationRow) (rows : List ReservationRow)
    → find (has_id id) rows ≡ some row
    → row.id ≡ id
id-found id row rows e = text_eq_sound row.id id (find_sound (has_id id) rows row e)

-- The row of a key, which is the only one.
pub record IsOnly (id : Text) (row : ReservationRow) (rows : List ReservationRow) : Type 0 where
  pub found : find (has_id id) rows ≡ some row
  pub once : count (has_id id) rows ≤ 1

pub count-only :
    (id : Text) (row : ReservationRow) (rows : List ReservationRow)
    → IsOnly id row rows
    → is_confirmed_row row ≡ true
    → count (is_confirmed_with_id id) rows ≡ 1
count-only id row [] v c = absurd (ground (arith, v.found))
count-only id row (x ∷ rows) v c = elim (Bool-cases (has_id id x)) [
  | inl t ↦ ground (arith, v.found, v.once, count-no_row id rows)
  | inr f ↦ ground (
    arith,
    count-only id row rows
        (record { found = ground (arith, v.found); once = ground (arith, v.once) }),
  )
]

-- Changing the status of a confirmed row takes it out of its slot, and changes no other slot.
pub count-update_status :
    (id status date : Text) (p : StudyPeriod) (row : ReservationRow) (rows : List ReservationRow)
    → IsOnly id row rows
    → is_confirmed_row row ≡ true
    → text_eq status (codes "CONFIRMED") ≡ false
    → count (is_confirmed_slot date p) (update_status (is_confirmed_with_id id) status rows)
        + (if is_confirmed_slot date p row then 1 else 0)
      ≡ count (is_confirmed_slot date p) rows
unfolding update_status
count-update_status id status date p row [] v c n = absurd (ground (arith, v.found))
count-update_status id status date p row (x ∷ rows) v c n = elim (Bool-cases (has_id id x)) [
  | inl t ↦
      let same : x ≡ row = ground (arith, v.found) in
      let none_left : count (has_id id) rows ≡ 0 = ground (arith, v.once) in
      ground (arith, update_status-no_row id status rows)
  | inr f ↦ ground (
    arith,
    count-update_status id status date p row rows
        (record { found = ground (arith, v.found); once = ground (arith, v.once) }) c n,
  )
]

module _ (new_action_id : Database → Text) (input : AdministratorCancellationInput)
    (s : Database) where
  -- Where at most one reservation has the key: without one nothing is found, one that is not confirmed
  -- is refused, both without a change; a confirmed one is cancelled, recorded and logged.
  pub cancel_administrator_reservation_in_transaction_lem :
      count (has_id input.reservation_id) s.reservations ≤ 1
      → ((find (has_id input.reservation_id) s.reservations ≡ none)
          × (cancel_administrator_reservation_in_transaction new_action_id input s
              ≡ (not_found, s)))
        ⊎ ((row : ReservationRow) × (find (has_id input.reservation_id) s.reservations ≡ some row)
            × (((is_confirmed_row row ≡ false)
                  × (cancel_administrator_reservation_in_transaction new_action_id input s
                      ≡ (invalid_status, s)))
                ⊎ ((is_confirmed_row row ≡ true)
                    × (cancel_administrator_reservation_in_transaction new_action_id input s ≡ (
                      ok_cancelled (record row { status = codes "CANCELLED" }),
                      cancelled_state input row (new_action_id s) s,
                    )))))
  unfolding cancel_administrator_reservation_in_transaction can_admin_cancel_reservation
  cancel_administrator_reservation_in_transaction_lem once =
      elim (Option-cases (find (has_id input.reservation_id) s.reservations)) [
        | inl e ↦ inl (e, rw e refl)
        | inr (row, e) ↦
            let key = id-found input.reservation_id row s.reservations e in
            elim (Bool-cases (is_confirmed_row row)) [
              | inl c ↦
                  let one =
                    count-only input.reservation_id row s.reservations
                      (record { found = e; once = once }) c in
                  inr (row, e, inr (c, rw (e, c, key, one) refl))
              | inr f ↦ inr (row, e, inl (f, rw (e, f) refl))
            ]
      ]

  -- Cancelling a confirmed reservation, the only one with its key, frees one place of its date and
  -- period, and changes the number of bookings of no other.
  pub prisma_count-cancel_administrator_reservation_in_transaction :
      (row : ReservationRow)
      → IsOnly input.reservation_id row s.reservations
      → is_confirmed_row row ≡ true
      → (date : Text) (p : StudyPeriod)
      → prisma_count date p
            (cancel_administrator_reservation_in_transaction new_action_id input s).1
          + (if is_confirmed_slot date p row then 1 else 0)
        ≡ prisma_count date p s
  unfolding prisma_count cancel_administrator_reservation_in_transaction
      can_admin_cancel_reservation
  prisma_count-cancel_administrator_reservation_in_transaction row v c date p =
      let key = id-found input.reservation_id row s.reservations v.found in
      let one = count-only input.reservation_id row s.reservations v c in
      let cancelled : (cancel_administrator_reservation_in_transaction new_action_id input s).1
          ≡ cancelled_state input row (new_action_id s) s =
        rw (v.found, c, key, one) refl in
      rw
        (
          cancelled,
          key,
          length-filter (is_confirmed_slot date p) (
              update_status (is_confirmed_with_id input.reservation_id) (codes "CANCELLED")
                s.reservations),
          length-filter (is_confirmed_slot date p) s.reservations,
        )
        (count-update_status input.reservation_id (codes "CANCELLED") date p row s.reservations v c
          (unfold text_eq in refl))
