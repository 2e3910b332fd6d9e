-- ===== src/NoShow/Ban.antt =====
-- What the ban does.
use info_room_reservation_si.Prelude.{
  ℕ, ◌≡◌, refl, ap, none, some, [], ◌∷◌, ◌++◌, Text, codes, text_eq, text_eq_refl, find, count,
  count-append, arith,
}
use info_room_reservation_si.Reservations.{
  banned, build_no_show_ban, restricted, error, ok, ReserveStudyPeriodInput, is_restricted,
}
use info_room_reservation_si.Reservations.Service.{reserve_study_period}
use info_room_reservation_si.Database.{
  DatabaseActor, ReservationRow, UserRow, Database, parse_booking_status,
}
use info_room_reservation_si.PrismaStore.{prisma_user, prisma_store}
use info_room_reservation_si.NoShow.{
  AdministratorNoShowInput, ok_no_show, restrict_user, update_user, is_active_of, revoke,
  no_show_sanction, mark_administrator_reservation_no_show_in_transaction,
}
use info_room_reservation_si.NoShow.Rows.{update_user-found, count-revoke}
use info_room_reservation_si.NoShow.Passed.{
  mark_administrator_reservation_no_show_in_transaction-Passed,
}

-- The banned student's state, as the booking reads it.
prisma_user-banned :
    (user_id reason : Text) (s : Database) (target : UserRow)
    → find (λ user. text_eq user.id user_id) s.users
      ≡ some (restrict_user (build_no_show_ban reason) target)
    → prisma_user user_id s
      ≡ ok (some (record { booking_status = banned; restricted_until = none }))
unfolding prisma_user build_no_show_ban parse_booking_status text_eq
prisma_user-banned user_id reason s target h = rw h refl

module _ (new_action_id : Database → Text) (clock : ℕ) (input : AdministratorNoShowInput)
    (s : Database) (n : ℕ) (r : ReservationRow) (u : UserRow) (s' : Database)
    (h : mark_administrator_reservation_no_show_in_transaction new_action_id clock input s
      ≡ ok (ok_no_show n r u, s')) where
  -- In the state after a reservation is marked, every booking of its student, at any time and for
  -- whatever period, is refused as restricted and changes nothing.
  pub reserve_study_period-no_show :
      (actor : DatabaseActor) (new_id : Database → Text) (nonce_of : Text → Text) (at : ℕ)
      (booking : ReserveStudyPeriodInput)
      → booking.user_id ≡ r.user_id
      → reserve_study_period (prisma_store actor new_id nonce_of at) booking s'
        ≡ ok (error restricted, s')
  reserve_study_period-no_show actor new_id nonce_of at booking e =
      let m =
        mark_administrator_reservation_no_show_in_transaction-Passed new_action_id clock input s n r
          u s' h in
      let same : r.user_id ≡ m.row.user_id = ground (arith, m.result) in
      let users : s'.users ≡ update_user m.row.user_id (build_no_show_ban input.reason) s.users =
        ap (λ x. x.1.users) m.result in
      let found : find (λ user. text_eq user.id booking.user_id) s'.users
          ≡ some (restrict_user (build_no_show_ban input.reason) m.target) =
        rw (e, same, users)
          (update_user-found m.row.user_id input.reason s.users m.target m.known) in
      unfold reserve_study_period is_restricted in
      rw (prisma_user-banned booking.user_id input.reason s' m.target found) refl

  -- After a reservation is marked, its student has exactly one active sanction, the ban.
  pub count-is_active_of-no_show : count (is_active_of u.id) s'.sanctions ≡ 1
  count-is_active_of-no_show =
      let m =
        mark_administrator_reservation_no_show_in_transaction-Passed new_action_id clock input s n r
          u s' h in
      let student : u ≡ restrict_user (build_no_show_ban input.reason) m.target =
        ground (arith, m.result) in
      let sanctions : s'.sanctions
          ≡ revoke new_action_id clock input m.target.id s.sanctions
            ++ no_show_sanction new_action_id clock input
                (restrict_user (build_no_show_ban input.reason) m.target) (new_action_id s)
              ∷ [] =
        ap (λ x. x.1.sanctions) m.result in
      rw
        (
          student,
          sanctions,
          count-append (is_active_of m.target.id)
              (revoke new_action_id clock input m.target.id s.sanctions)
              (no_show_sanction new_action_id clock input
                  (restrict_user (build_no_show_ban input.reason) m.target) (new_action_id s)
                ∷ []),
          count-revoke new_action_id clock input m.target.id s.sanctions,
          text_eq_refl (codes "ACTIVE"),
          text_eq_refl m.target.id,
        )
        (omega arith)
