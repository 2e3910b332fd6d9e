-- ===== src/NoShow/Rows.antt =====
-- What marking a reservation and cancelling others (src/lib/admin-no-show-operations.ts) does to the
-- rows of reservations, and a ban to those of users and sanctions.
use info_room_reservation_si.Prelude.{
  ℕ, ◌+◌, ◌≡◌, refl, inl, inr, Bool, true, false, some, List, [], ◌∷◌, length, Text, codes, text_eq,
  text_eq_sound, find, count, arith, Bool-cases,
}
use info_room_reservation_si.Database.{
  ReservationRow, UserRow, SanctionRow, Database, update_status, has_id, is_confirmed_row,
}
use info_room_reservation_si.Reservations.{build_no_show_ban}
use info_room_reservation_si.AdminReservations.{is_confirmed_with_id}
use info_room_reservation_si.NoShow.{
  is_among, cancel_all, AdministratorNoShowInput, restrict_user, update_user, is_active_of, revoke,
}

-- The marked row is the first of its key.
pub find-marked :
    (id key status : Text) (row : ReservationRow) (rows : List ReservationRow)
    → key ≡ id
    → find (has_id id) rows ≡ some row
    → is_confirmed_row row ≡ true
    → find (has_id id) (update_status (is_confirmed_with_id key) status rows)
      ≡ some (record row { status = status })
unfolding update_status
find-marked id key status row [] e found c = absurd (ground arith)
find-marked id key status row (x ∷ rows) e found c = elim (Bool-cases (has_id id x)) [
  | inl t ↦ ground arith
  | inr f ↦ ground (arith, find-marked id key status row rows e)
]

-- Updating confirmed rows leaves one that is not confirmed.
find-unconfirmed :
    (p : ReservationRow → Bool) (id status : Text) (row : ReservationRow)
    (rows : List ReservationRow)
    → ((x : ReservationRow) → is_confirmed_row x ≡ false → p x ≡ false)
    → find (has_id id) rows ≡ some row
    → is_confirmed_row row ≡ false
    → find (has_id id) (update_status p status rows) ≡ some row
unfolding update_status
find-unconfirmed p id status row [] only found c = absurd (ground arith)
find-unconfirmed p id status row (x ∷ rows) only found c = elim (Bool-cases (has_id id x)) [
  | inl t ↦ ground (arith, only x)
  | inr f ↦ ground (arith, find-unconfirmed p id status row rows only)
]

pub find-cancel_all :
    (ids : List Text) (id : Text) (row : ReservationRow) (rows : List ReservationRow)
    → find (has_id id) rows ≡ some row
    → is_confirmed_row row ≡ false
    → find (has_id id) (cancel_all ids rows).1 ≡ some row
find-cancel_all [] id row rows found c = found
find-cancel_all (key ∷ ids) id row rows found c =
    find-unconfirmed (is_among (key ∷ ids)) id (codes "CANCELLED") row rows
      (λ x unconfirmed. ground arith) found c

-- Each updated row was confirmed, and is no longer.
pub count-is_confirmed_row-update_status :
    (p : ReservationRow → Bool) (status : Text) (rows : List ReservationRow)
    → ((x : ReservationRow) → is_confirmed_row x ≡ false → p x ≡ false)
    → text_eq status (codes "CONFIRMED") ≡ false
    → count is_confirmed_row (update_status p status rows) + count p rows
      ≡ count is_confirmed_row rows
unfolding update_status
count-is_confirmed_row-update_status p status [] only n = refl
count-is_confirmed_row-update_status p status (x ∷ rows) only n =
    elim (Bool-cases (is_confirmed_row x)) [
      | inl t ↦ ground (arith, count-is_confirmed_row-update_status p status rows only n)
      | inr f ↦ ground (arith, only x, count-is_confirmed_row-update_status p status rows only n)
    ]

pub count-cancel_all :
    (ids : List Text) (rows : List ReservationRow)
    → count is_confirmed_row (cancel_all ids rows).1 + (cancel_all ids rows).0
      ≡ count is_confirmed_row rows
count-cancel_all [] rows = omega arith
count-cancel_all (id ∷ ids) rows =
    count-is_confirmed_row-update_status (is_among (id ∷ ids)) (codes "CANCELLED") rows
      (λ x unconfirmed. ground arith) (unfold text_eq in refl)

-- The student's row is restricted, and no other.
pub update_user-found :
    (id reason : Text) (users : List UserRow) (target : UserRow)
    → find (λ user. text_eq user.id id) users ≡ some target
    → find (λ user. text_eq user.id id) (update_user id (build_no_show_ban reason) users)
      ≡ some (restrict_user (build_no_show_ban reason) target)
unfolding update_user
update_user-found id reason [] target h = absurd (ground arith)
update_user-found id reason (user ∷ users) target h = elim (Bool-cases (text_eq user.id id)) [
  | inl t ↦ ground arith
  | inr f ↦ ground (arith, update_user-found id reason users target)
]

pub update_user-other :
    (id reason other : Text) (users : List UserRow)
    → text_eq other id ≡ false
    → find (λ user. text_eq user.id other) (update_user id (build_no_show_ban reason) users)
      ≡ find (λ user. text_eq user.id other) users
unfolding update_user
update_user-other id reason other [] n = refl
update_user-other id reason other (user ∷ users) n = elim (Bool-cases (text_eq user.id other)) [
  | inl t ↦ let same : user.id ≡ other = text_eq_sound user.id other t in ground (arith, same)
  | inr f ↦ ground (arith, update_user-other id reason other users)
]

-- The active sanctions of the student are revoked, and no other; none is removed.
pub count-revoke :
    (new_action_id : Database → Text) (clock : ℕ) (input : AdministratorNoShowInput)
    (user_id : Text) (sanctions : List SanctionRow)
    → count (is_active_of user_id) (revoke new_action_id clock input user_id sanctions) ≡ 0
unfolding revoke
count-revoke new_action_id clock input user_id [] = refl
count-revoke new_action_id clock input user_id (x ∷ sanctions) =
    ground (arith, count-revoke new_action_id clock input user_id sanctions, revoked)
  where
    revoked : text_eq (codes "REVOKED") (codes "ACTIVE") ≡ false
    revoked = unfold text_eq in refl

pub length-revoke :
    (new_action_id : Database → Text) (clock : ℕ) (input : AdministratorNoShowInput)
    (user_id : Text) (sanctions : List SanctionRow)
    → length (revoke new_action_id clock input user_id sanctions) ≡ length sanctions
unfolding revoke
length-revoke new_action_id clock input user_id [] = refl
length-revoke new_action_id clock input user_id (x ∷ sanctions) =
    ground (arith, length-revoke new_action_id clock input user_id sanctions)

pub count-revoke-other :
    (new_action_id : Database → Text) (clock : ℕ) (input : AdministratorNoShowInput)
    (user_id other : Text) (sanctions : List SanctionRow)
    → text_eq other user_id ≡ false
    → count (is_active_of other) (revoke new_action_id clock input user_id sanctions)
      ≡ count (is_active_of other) sanctions
unfolding revoke
count-revoke-other new_action_id clock input user_id other [] n = refl
count-revoke-other new_action_id clock input user_id other (x ∷ sanctions) n =
    elim (Bool-cases (text_eq x.user_id other)) [
      | inl t ↦
          let same : x.user_id ≡ other = text_eq_sound x.user_id other t in
          ground
            (arith, same, count-revoke-other new_action_id clock input user_id other sanctions n)
      | inr f ↦
          ground (arith, count-revoke-other new_action_id clock input user_id other sanctions n)
    ]
