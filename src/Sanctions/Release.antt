-- ===== src/Sanctions/Release.antt =====
-- Students who are released.
use info_room_reservation_si.Prelude.{
  ℕ, ◌≡◌, refl, ap, ◌∙◌, inl, inr, true, false, Option, none, some, List, [], ◌∷◌, Text, codes,
  text_eq, find, count, arith, Bool-cases,
}
use info_room_reservation_si.Reservations.{BookingStatus, ok}
use info_room_reservation_si.Database.{UserRow, SanctionRow, Database, parse_booking_status}
use info_room_reservation_si.PrismaStore.{prisma_user}
use info_room_reservation_si.NoShow.{is_active_of}
use info_room_reservation_si.Sanctions.{
  ReleaseInput, SanctionResult, ok_sanction, assert_restrictable_user, matches_release_type,
  has_user_id, find_student_id, released, revoke_active,
}
use info_room_reservation_si.Sanctions.Transactions.{
  release_user, remove_guarded, remove_found, remove_in_transaction, remove_from,
  remove_administrator_user_sanction,
}
use info_room_reservation_si.Sanctions.Applied.{find-update_user_row, forbidden-ok}
use info_room_reservation_si.Sanctions.Standing.{user-id}

count-revoke_active :
    (user_id : Text) (at : ℕ) (actor_id reason : Text) (sanctions : List SanctionRow)
    → count (is_active_of user_id) (revoke_active user_id at actor_id reason sanctions) ≡ 0
unfolding revoke_active
count-revoke_active user_id at actor_id reason [] = refl
count-revoke_active user_id at actor_id reason (x ∷ sanctions) =
    ground (arith, count-revoke_active user_id at actor_id reason sanctions, revoked)
  where
    revoked : text_eq (codes "REVOKED") (codes "ACTIVE") ≡ false
    revoked = unfold text_eq in refl

module _ (new_action_id : Database → Text) (clock : ℕ) (input : ReleaseInput) where
  -- What a removal has done: released the student, for the right kind of sanction.
  pub record IsReleased (id before : Text) (n : ℕ) (user : UserRow) (s s' : Database) : Type 0 where
    pub target : UserRow
    pub known : find (has_user_id id) s.users ≡ some target
    pub matches : matches_release_type target.booking_status input.release_type ≡ true
    pub result :
        (ok_sanction before n user, s') ≡ release_user new_action_id clock input id target s

  module _ (id before : Text) (n : ℕ) (user : UserRow) (s s' : Database) where
    guarded-IsReleased :
        (guard : Option SanctionResult) (target : UserRow)
        → assert_restrictable_user input.actor_id target ≡ guard
        → find (has_user_id id) s.users ≡ some target
        → remove_guarded new_action_id clock input guard id target s
          ≡ (ok_sanction before n user, s')
        → IsReleased id before n user s s'
    guarded-IsReleased none target g known h =
        elim (Bool-cases (matches_release_type target.booking_status input.release_type)) [
          | inl m ↦ record { target = target; known = known; matches = m; result = ground arith }
          | inr m ↦ absurd (ground arith)
        ]
    guarded-IsReleased (some forbidden) target g known h =
        absurd (forbidden-ok input.actor_id target before n user (ground arith))

    found-IsReleased :
        (found : Option UserRow)
        → find (has_user_id id) s.users ≡ found
        → remove_found new_action_id clock input id found s ≡ (ok_sanction before n user, s')
        → IsReleased id before n user s s'
    found-IsReleased none e h = absurd (ground arith)
    found-IsReleased (some target) e h =
        guarded-IsReleased (assert_restrictable_user input.actor_id target) target refl e h

  from-IsReleased :
      (found : Option Text) (before : Text) (n : ℕ) (user : UserRow) (s s' : Database)
      → remove_from new_action_id clock input found s ≡ (ok_sanction before n user, s')
      → (id : Text) × IsReleased id before n user s s'
  unfolding remove_in_transaction
  from-IsReleased none before n user s s' h = absurd (ground arith)
  from-IsReleased (some id) before n user s s' h =
      (id, found-IsReleased id before n user s s' (find (has_user_id id) s.users) refl h)

  module _ (id before : Text) (n : ℕ) (user : UserRow) (s s' : Database)
      (r : IsReleased id before n user s s') where
    user-released : user ≡ released r.target
    user-released = ground (arith, r.result)

    id-released : user.id ≡ id
    id-released = ap (λ (u : UserRow). u.id) user-released ∙ user-id id s.users r.target r.known

    find-released : find (has_user_id id) s'.users ≡ some user
    find-released =
        rw (ap (λ x. x.1.users) r.result, user-released)
          (find-update_user_row id released (λ u. refl) s.users r.target r.known)

    prisma_user-released :
        prisma_user id s'
        ≡ ok (some (record { booking_status = BookingStatus.active; restricted_until = none }))
    unfolding prisma_user parse_booking_status text_eq
    prisma_user-released = rw (find-released, user-released)

    count-released : count (is_active_of id) s'.sanctions ≡ 0
    count-released =
        rw (ap (λ x. x.1.sanctions) r.result)
          (count-revoke_active id clock input.actor_id input.reason s.sanctions)

-- After a release that succeeds the booking reads the student as active with no end of a restriction,
-- the student has no active sanction left, and the reservations are as they were.
pub remove_administrator_user_sanction-releases :
    (new_action_id : Database → Text) (clock : ℕ) (input : ReleaseInput) (seen s s' : Database)
    (before : Text) (n : ℕ) (user : UserRow)
    → remove_administrator_user_sanction new_action_id clock input seen s
      ≡ (ok_sanction before n user, s')
    → (prisma_user user.id s'
        ≡ ok (some (record { booking_status = BookingStatus.active; restricted_until = none })))
      × (count (is_active_of user.id) s'.sanctions ≡ 0)
      × (s'.reservations ≡ s.reservations)
unfolding remove_administrator_user_sanction
remove_administrator_user_sanction-releases new_action_id clock input seen s s' before n user h =
    let (id, r) =
      from-IsReleased new_action_id clock input (find_student_id input.student_number seen) before n
        user s s' h in
    rw (id-released new_action_id clock input id before n user s s' r) (
      prisma_user-released new_action_id clock input id before n user s s' r,
      count-released new_action_id clock input id before n user s s' r,
      ap (λ x. x.1.reservations) r.result,
    )
