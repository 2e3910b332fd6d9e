-- ===== src/NoShow/Passed.antt =====
-- The checks that a marking of src/lib/admin-no-show-operations.ts passes when it succeeds.
use info_room_reservation_si.Prelude.{
  ℕ, ◌≡◌, refl, inl, inr, true, false, ◌==◌, Option, none, some, List, Text, codes, text_eq,
  text_lt, find, filter, count, arith, Bool-cases,
}
use info_room_reservation_si.Calendar.{to_kst_date}
use info_room_reservation_si.PeriodWindow.{is_closed, get_period_window_state}
use info_room_reservation_si.PeriodSettings.{PeriodSettingSnapshot}
use info_room_reservation_si.PeriodSettings.Effective.{is_read}
use info_room_reservation_si.Reservations.{Try, ok}
use info_room_reservation_si.Database.{
  Try-cases, ReservationRow, UserRow, Database, has_id, is_confirmed_row,
}
use info_room_reservation_si.AdminReservations.{
  can_mark_reservation_no_show, select_cancellable_confirmed_reservation_ids, is_confirmed_with_id,
}
use info_room_reservation_si.NoShow.{
  AdministratorNoShowInput, AdministratorNoShowResult, ok_no_show, find_effective_setting,
  is_target_setting, is_candidate, cancel_all, ban, marked, transition, window_of, mark_setting,
  mark_user, mark_found, mark_administrator_reservation_no_show_in_transaction,
}

module _ (new_action_id : Database → Text) (clock : ℕ) (input : AdministratorNoShowInput) where
  -- The way of a marking that succeeds.
  pub record Passed (s : Database) (n : ℕ) (r : ReservationRow) (u : UserRow) (s' : Database)
      : Type 0 where
    pub row : ReservationRow
    pub target : UserRow
    pub setting : PeriodSettingSnapshot
    pub ids : List Text
    pub found : find (has_id input.reservation_id) s.reservations ≡ some row
    pub was_confirmed : is_confirmed_row row ≡ true
    pub known : find (λ user. text_eq user.id row.user_id) s.users ≡ some target
    pub no_admin : text_eq target.role (codes "ADMIN") ≡ false
    pub set :
        find_effective_setting row (filter (is_target_setting row) s.period_settings) ≡ some setting
    pub not_ahead : text_lt (to_kst_date input.now) row.date ≡ false
    pub over :
        is_closed
          (get_period_window_state (window_of new_action_id clock input row setting) input.now)
        ≡ true
    pub one : count (is_confirmed_with_id row.id) s.reservations ≡ 1
    pub result :
        (ok_no_show n r u, s')
        ≡ ban new_action_id clock input row target
            (cancel_all ids (marked new_action_id clock input row s))
            s

  module _ (s : Database) (n : ℕ) (r : ReservationRow) (u : UserRow) (s' : Database) where
    abbrev Succeeds : Try (AdministratorNoShowResult × Database) → Type 0
    Succeeds t = t ≡ ok (ok_no_show n r u, s')

    transition-ban :
        (row : ReservationRow) (target : UserRow)
        → Succeeds (transition new_action_id clock input row target s)
        → (count (is_confirmed_with_id row.id) s.reservations ≡ 1)
          × (ids : List Text) × ((ok_no_show n r u, s')
              ≡ ban new_action_id clock input row target
                  (cancel_all ids (marked new_action_id clock input row s))
                  s)
    unfolding transition
    transition-ban row target h =
        elim (Bool-cases (count (is_confirmed_with_id row.id) s.reservations == 1)) [
          | inr f ↦ absurd (ground arith)
          | inl t ↦
              elim (Try-cases (
                select_cancellable_confirmed_reservation_ids input.now
                  (filter (is_read (to_kst_date input.now)) s.period_settings)
                  (filter (is_candidate (to_kst_date input.now) row)
                    (marked new_action_id clock input row s)))) [
                      | inl (e, k) ↦ absurd (ground arith)
                      | inr (ids, k) ↦ (ground arith, ids, ground arith)
                    ]
        ]

    mark_setting-Passed :
        (row : ReservationRow) (target : UserRow)
        → find (has_id input.reservation_id) s.reservations ≡ some row
        → is_confirmed_row row ≡ true
        → find (λ user. text_eq user.id row.user_id) s.users ≡ some target
        → text_eq target.role (codes "ADMIN") ≡ false
        → (o : Option PeriodSettingSnapshot)
        → find_effective_setting row (filter (is_target_setting row) s.period_settings) ≡ o
        → Succeeds (mark_setting new_action_id clock input row target o s)
        → Passed s n r u s'
    unfolding mark_setting can_mark_reservation_no_show
    mark_setting-Passed row target found c known a none set h = absurd (ground arith)
    mark_setting-Passed row target found c known a (some setting) set h =
        let (one, ids, result) = transition-ban row target (ground arith) in
        record {
          row = row;
          target = target;
          setting = setting;
          ids = ids;
          found = found;
          was_confirmed = c;
          known = known;
          no_admin = a;
          set = set;
          not_ahead = ground arith;
          over = ground arith;
          one = one;
          result = result;
        }

    mark_user-Passed :
        (row : ReservationRow) (o : Option UserRow)
        → find (has_id input.reservation_id) s.reservations ≡ some row
        → is_confirmed_row row ≡ true
        → find (λ user. text_eq user.id row.user_id) s.users ≡ o
        → Succeeds (mark_user new_action_id clock input row o s)
        → Passed s n r u s'
    unfolding mark_user
    mark_user-Passed row none found c known h = absurd (ground arith)
    mark_user-Passed row (some target) found c known h =
        mark_setting-Passed row target found c known (ground arith)
          (find_effective_setting row (filter (is_target_setting row) s.period_settings)) refl
          (ground arith)

    mark_found-Passed :
        (o : Option ReservationRow)
        → find (has_id input.reservation_id) s.reservations ≡ o
        → Succeeds (mark_found new_action_id clock input o s)
        → Passed s n r u s'
    unfolding mark_found
    mark_found-Passed none found h = absurd (ground arith)
    mark_found-Passed (some row) found h =
        mark_user-Passed row (find (λ user. text_eq user.id row.user_id) s.users) found
          (ground arith) refl (ground arith)

    pub mark_administrator_reservation_no_show_in_transaction-Passed :
        mark_administrator_reservation_no_show_in_transaction new_action_id clock input s
          ≡ ok (ok_no_show n r u, s')
        → Passed s n r u s'
    unfolding mark_administrator_reservation_no_show_in_transaction
    mark_administrator_reservation_no_show_in_transaction-Passed h =
        mark_found-Passed (find (has_id input.reservation_id) s.reservations) refl h
