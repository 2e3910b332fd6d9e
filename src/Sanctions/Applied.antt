-- ===== src/Sanctions/Applied.antt =====
-- What a sanction that succeeded has found and written.
use info_room_reservation_si.Prelude.{
  ℕ, ◌≡◌, refl, ◌⊎◌, inl, inr, true, Option, none, some, List, [], ◌∷◌, Text, find, arith,
  Bool-cases,
}
use info_room_reservation_si.Reservations.{ok}
use info_room_reservation_si.Database.{Try-cases, ReservationRow, UserRow, Database}
use info_room_reservation_si.Sanctions.{
  SanctionInput, SanctionResult, ok_sanction, sanction_end, assert_restrictable_user, same_sanction,
  has_user_id, update_user_row,
}
use info_room_reservation_si.Sanctions.Transactions.{
  cancelled_by, sanction_user, is_weaker, apply_allowed, apply_guarded, apply_found,
  apply_in_transaction,
}

pub find-update_user_row :
    (id : Text) (f : UserRow → UserRow) (keeps : (user : UserRow) → (f user).id ≡ user.id)
    (users : List UserRow) (target : UserRow)
    → find (has_user_id id) users ≡ some target
    → find (has_user_id id) (update_user_row id f users) ≡ some (f target)
unfolding update_user_row
find-update_user_row id f keeps [] target h = ground arith
find-update_user_row id f keeps (user ∷ users) target h =
    ground (arith, keeps user, find-update_user_row id f keeps users target)

pub forbidden-ok :
    (actor_id : Text) (target : UserRow) (before : Text) (n : ℕ) (user : UserRow)
    → assert_restrictable_user actor_id target ≡ some (ok_sanction before n user)
    → ⊥
unfolding assert_restrictable_user
forbidden-ok actor_id target before n user h = ground arith

module _ (new_action_id : Database → Text) (input : SanctionInput) where
  -- A sanction that succeeded: it was in force already, or it has been written.
  pub record IsApplied (target_id before : Text) (n : ℕ) (user : UserRow) (s s' : Database)
      : Type 0 where
    pub target : UserRow
    pub known : find (has_user_id target_id) s.users ≡ some target
    pub allowed : assert_restrictable_user input.actor_id target ≡ none
    pub change :
        ((s' ≡ s) × (user ≡ target) × (same_sanction target input (sanction_end input) ≡ true))
        ⊎ ((cancelled : ℕ × List ReservationRow) × ((ok_sanction before n user, s')
              ≡ sanction_user new_action_id input target_id target cancelled s))

  module _ (target_id before : Text) (n : ℕ) (user : UserRow) (s s' : Database) where
    allowed-IsApplied :
        (target : UserRow)
        → find (has_user_id target_id) s.users ≡ some target
        → assert_restrictable_user input.actor_id target ≡ none
        → apply_allowed new_action_id input target_id target s ≡ ok (ok_sanction before n user, s')
        → IsApplied target_id before n user s s'
    unfolding apply_allowed
    allowed-IsApplied target known allowed h =
        elim (Bool-cases (is_weaker new_action_id input target)) [
          | inl weaker ↦ absurd (ground arith)
          | inr stronger ↦ elim (Bool-cases (same_sanction target input (sanction_end input))) [
            | inl same ↦ record {
              target = target;
              known = known;
              allowed = allowed;
              change = inl (ground arith, ground arith, same);
            }
            | inr other ↦ elim (Try-cases (cancelled_by input target_id s)) [
              | inl (e, failed) ↦ absurd (ground arith)
              | inr (cancelled, done) ↦ record {
                target = target;
                known = known;
                allowed = allowed;
                change = inr (cancelled, ground arith);
              }
            ]
          ]
        ]

    guarded-IsApplied :
        (guard : Option SanctionResult) (target : UserRow)
        → assert_restrictable_user input.actor_id target ≡ guard
        → find (has_user_id target_id) s.users ≡ some target
        → apply_guarded new_action_id input guard target_id target s
          ≡ ok (ok_sanction before n user, s')
        → IsApplied target_id before n user s s'
    guarded-IsApplied none target g known h = allowed-IsApplied target known g h
    guarded-IsApplied (some forbidden) target g known h =
        absurd (forbidden-ok input.actor_id target before n user (ground arith))

    found-IsApplied :
        (found : Option UserRow)
        → find (has_user_id target_id) s.users ≡ found
        → apply_found new_action_id input target_id found s ≡ ok (ok_sanction before n user, s')
        → IsApplied target_id before n user s s'
    found-IsApplied none e h = absurd (ground arith)
    found-IsApplied (some target) e h =
        guarded-IsApplied (assert_restrictable_user input.actor_id target) target refl e h

    pub apply_in_transaction-IsApplied :
        apply_in_transaction new_action_id input target_id s ≡ ok (ok_sanction before n user, s')
        → IsApplied target_id before n user s s'
    unfolding apply_in_transaction
    apply_in_transaction-IsApplied h = found-IsApplied (find (has_user_id target_id) s.users) refl h
