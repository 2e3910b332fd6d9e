-- ===== src/NoShow/Failures.antt =====
-- Markings that fail.
use info_room_reservation_si.Prelude.{
  ℕ, ◌≤◌, ◌≡◌, refl, inl, inr, Bool, true, false, Option, none, some, Text, text_eq, find, filter,
  count, arith, Bool-cases,
}
use info_room_reservation_si.Calendar.{to_kst_date}
use info_room_reservation_si.PeriodSettings.{PeriodSettingSnapshot}
use info_room_reservation_si.PeriodSettings.Effective.{is_read}
use info_room_reservation_si.Reservations.{ok}
use info_room_reservation_si.Database.{
  Try-cases, ReservationRow, UserRow, Database, has_id, is_confirmed_row,
}
use info_room_reservation_si.AdminReservations.{
  select_cancellable_confirmed_reservation_ids, is_confirmed_with_id,
}
use info_room_reservation_si.AdminReservations.Cancellation.{id-found, count-only}
use info_room_reservation_si.NoShow.{
  AdministratorNoShowInput, AdministratorNoShowResult, ok_no_show, find_effective_setting,
  is_target_setting, is_candidate, marked, transition, mark_setting, mark_user, mark_found,
  mark_administrator_reservation_no_show_in_transaction,
}

abbrev pub is_ok_no_show : AdministratorNoShowResult → Bool
is_ok_no_show (ok_no_show n r u) = true
is_ok_no_show _ = false

module _ (new_action_id : Database → Text) (clock : ℕ) (input : AdministratorNoShowInput)
    (s : Database) (result : AdministratorNoShowResult) (s' : Database)
    (failed : is_ok_no_show result ≡ false) where
  transition_fails :
      (row : ReservationRow) (target : UserRow)
      → count (is_confirmed_with_id row.id) s.reservations ≡ 1
      → transition new_action_id clock input row target s ≡ ok (result, s')
      → s' ≡ s
  unfolding transition
  transition_fails row target one h =
      elim (Try-cases (
        select_cancellable_confirmed_reservation_ids input.now
          (filter (is_read (to_kst_date input.now)) s.period_settings)
          (filter (is_candidate (to_kst_date input.now) row)
            (marked new_action_id clock input row s)))) [
              | inl (e, k) ↦ absurd (ground arith)
              | inr (ids, k) ↦ absurd (ground arith)
            ]

  mark_setting_fails :
      (row : ReservationRow) (target : UserRow) (o : Option PeriodSettingSnapshot)
      → count (is_confirmed_with_id row.id) s.reservations ≡ 1
      → mark_setting new_action_id clock input row target o s ≡ ok (result, s')
      → s' ≡ s
  unfolding mark_setting
  mark_setting_fails row target none one h = ground arith
  mark_setting_fails row target (some setting) one h =
      ground (arith, transition_fails row target one)

  mark_user_fails :
      (row : ReservationRow) (o : Option UserRow)
      → count (is_confirmed_with_id row.id) s.reservations ≡ 1
      → mark_user new_action_id clock input row o s ≡ ok (result, s')
      → s' ≡ s
  unfolding mark_user
  mark_user_fails row none one h = ground arith
  mark_user_fails row (some target) one h = ground (
    arith,
    mark_setting_fails row target
        (find_effective_setting row (filter (is_target_setting row) s.period_settings)) one,
  )

  mark_found_fails :
      count (has_id input.reservation_id) s.reservations ≤ 1
      → (o : Option ReservationRow) → find (has_id input.reservation_id) s.reservations ≡ o
      → mark_found new_action_id clock input o s ≡ ok (result, s')
      → s' ≡ s
  unfolding mark_found
  mark_found_fails once none found h = ground arith
  mark_found_fails once (some row) found h = elim (Bool-cases (is_confirmed_row row)) [
    | inr f ↦ ground arith
    | inl c ↦
        let key = id-found input.reservation_id row s.reservations found in
        let one : count (is_confirmed_with_id row.id) s.reservations ≡ 1 = rw key (
          count-only input.reservation_id row s.reservations (record { found = found; once = once })
            c) in
        mark_user_fails row (find (λ user. text_eq user.id row.user_id) s.users) one (ground arith)
  ]

  -- Where at most one reservation has the key, a marking that gives any other result changes nothing.
  pub mark_administrator_reservation_no_show_in_transaction-fails :
      count (has_id input.reservation_id) s.reservations ≤ 1
      → mark_administrator_reservation_no_show_in_transaction new_action_id clock input s
        ≡ ok (result, s')
      → s' ≡ s
  unfolding mark_administrator_reservation_no_show_in_transaction
  mark_administrator_reservation_no_show_in_transaction-fails once h =
      mark_found_fails once (find (has_id input.reservation_id) s.reservations) refl h
