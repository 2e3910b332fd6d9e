-- ===== src/Sanctions/Outcomes.antt =====
-- Sanctions that are repeated, and that fail.
use info_room_reservation_si.Prelude.{
  ℕ, ◌≡◌, refl, inl, inr, Bool, true, false, Option, none, some, Text, text_eq_refl, find, arith,
  ==_iff,
}
use info_room_reservation_si.Reservations.{ok}
use info_room_reservation_si.Database.{Try-cases, UserRow, Database}
use info_room_reservation_si.Sanctions.{
  SanctionInput, SanctionResult, ok_sanction, sanction_end, sanction_status_text,
  assert_restrictable_user, instant_eq, same_sanction, has_user_id, find_student_id,
}
use info_room_reservation_si.Sanctions.Transactions.{
  cancelled_by, is_weaker, apply_allowed, apply_guarded, apply_found, apply_in_transaction,
  apply_to, apply_administrator_user_sanction,
}
use info_room_reservation_si.Sanctions.Standing.{IsSanctioned, standing}

abbrev pub is_ok_sanction : SanctionResult → Bool
is_ok_sanction (ok_sanction before n user) = true
is_ok_sanction _ = false

instant_eq_refl : (a : Option ℕ) → instant_eq a a ≡ true
instant_eq_refl none = refl
instant_eq_refl (some a) = ground (arith, ==_iff a a)

module _ (new_action_id : Database → Text) (input : SanctionInput) where
  same_sanction-IsSanctioned :
      (user : UserRow) (s : Database)
      → IsSanctioned input user.id user s
      → same_sanction user input (sanction_end input) ≡ true
  unfolding same_sanction
  same_sanction-IsSanctioned user s v =
      rw (v.status, v.until, v.reason)
        (ground (
          arith,
          text_eq_refl (sanction_status_text input.status),
          text_eq_refl input.reason,
          instant_eq_refl (sanction_end input),
        ))

  stronger-IsSanctioned :
      (user : UserRow) (s : Database)
      → IsSanctioned input user.id user s
      → is_weaker new_action_id input user ≡ false
  stronger-IsSanctioned user s v = rw v.status (ground arith)

  -- A sanction in force is found so.
  again :
      (user : UserRow) (s : Database)
      → IsSanctioned input user.id user s
      → apply_in_transaction new_action_id input user.id s
        ≡ ok (ok_sanction user.booking_status 0 user, s)
  unfolding apply_in_transaction apply_allowed
  again user s v =
      rw (v.known, v.allowed, stronger-IsSanctioned user s v, same_sanction-IsSanctioned user s v)

  fails_allowed :
      (target_id : Text) (target : UserRow) (s s' : Database) (result : SanctionResult)
      → is_ok_sanction result ≡ false
      → apply_allowed new_action_id input target_id target s ≡ ok (result, s')
      → s' ≡ s
  unfolding apply_allowed
  fails_allowed target_id target s s' result e h =
      elim (Try-cases (cancelled_by input target_id s)) [
        | inl (x, failed) ↦ ground arith
        | inr (cancelled, done) ↦ ground arith
      ]

  fails_guarded :
      (guard : Option SanctionResult) (target_id : Text) (target : UserRow) (s s' : Database)
      (result : SanctionResult)
      → is_ok_sanction result ≡ false
      → apply_guarded new_action_id input guard target_id target s ≡ ok (result, s')
      → s' ≡ s
  fails_guarded none target_id target s s' result e h =
      fails_allowed target_id target s s' result e h
  fails_guarded (some forbidden) target_id target s s' result e h = ground arith

  fails_found :
      (found : Option UserRow) (target_id : Text) (s s' : Database) (result : SanctionResult)
      → is_ok_sanction result ≡ false
      → apply_found new_action_id input target_id found s ≡ ok (result, s')
      → s' ≡ s
  fails_found none target_id s s' result e h = ground arith
  fails_found (some target) target_id s s' result e h =
      fails_guarded (assert_restrictable_user input.actor_id target) target_id target s s' result e
        h

  fails_to :
      (found : Option Text) (s s' : Database) (result : SanctionResult)
      → is_ok_sanction result ≡ false
      → apply_to new_action_id input found s ≡ ok (result, s')
      → s' ≡ s
  unfolding apply_in_transaction
  fails_to none s s' result e h = ground arith
  fails_to (some id) s s' result e h =
      fails_found (find (has_user_id id) s.users) id s s' result e h

-- Repeating a sanction that succeeded, as long as the student's number leads to the same student,
-- succeeds again without cancelling anything, and changes nothing.
pub apply_administrator_user_sanction-again :
    (new_action_id : Database → Text) (input : SanctionInput) (seen s s' seen' : Database)
    (before : Text) (n : ℕ) (user : UserRow)
    → apply_administrator_user_sanction new_action_id input seen s
      ≡ ok (ok_sanction before n user, s')
    → find_student_id input.student_number seen' ≡ some user.id
    → apply_administrator_user_sanction new_action_id input seen' s'
      ≡ ok (ok_sanction user.booking_status 0 user, s')
unfolding apply_administrator_user_sanction
apply_administrator_user_sanction-again new_action_id input seen s s' seen' before n user h e =
    rw e
      (again new_action_id input user s' (standing new_action_id input seen s s' before n user h))

-- A sanction that does not succeed (an unknown student, oneself, an administrator, or a banned student
-- who is to get anything else than a ban) changes nothing.
pub apply_administrator_user_sanction-fails :
    (new_action_id : Database → Text) (input : SanctionInput) (seen s s' : Database)
    (result : SanctionResult)
    → is_ok_sanction result ≡ false
    → apply_administrator_user_sanction new_action_id input seen s ≡ ok (result, s')
    → s' ≡ s
unfolding apply_administrator_user_sanction
apply_administrator_user_sanction-fails new_action_id input seen s s' result e h =
    fails_to new_action_id input (find_student_id input.student_number seen) s s' result e h
