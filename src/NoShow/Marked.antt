-- ===== src/NoShow/Marked.antt =====
-- When a reservation is marked, and what is written then, spelled out independently of the operation:
-- src/lib/admin-no-show-operations.ts.
use info_room_reservation_si.Prelude.{
  ℕ, ◌+◌, ◌≡◌, refl, sym, ap, ◌∙◌, true, false, none, some, List, [], ◌∷◌, ◌++◌, length, Text,
  codes, text_eq, text_lt, find, filter, count, arith,
}
use info_room_reservation_si.Calendar.{to_kst_date}
use info_room_reservation_si.PeriodWindow.{is_closed, get_period_window_state}
use info_room_reservation_si.PeriodSettings.{PeriodSettingSnapshot}
use info_room_reservation_si.Reservations.{build_no_show_ban, ok}
use info_room_reservation_si.Database.{
  ReservationRow, UserRow, json_text, json_number, json_null, SanctionRow, Database, has_id,
  is_confirmed_row,
}
use info_room_reservation_si.AdminReservations.{is_confirmed_with_id}
use info_room_reservation_si.AdminReservations.Cancellation.{id-found}
use info_room_reservation_si.NoShow.{
  AdministratorNoShowInput, ok_no_show, find_effective_setting, is_target_setting, is_active_of,
  text_or_null, instant_or_null, cancel_all, marked, window_of, restrict_user, revoke,
  mark_administrator_reservation_no_show_in_transaction,
}
use info_room_reservation_si.NoShow.Passed.{
  Passed, mark_administrator_reservation_no_show_in_transaction-Passed,
}
use info_room_reservation_si.NoShow.Rows.{
  find-marked, find-cancel_all, count-is_confirmed_row-update_status, count-cancel_all,
  update_user-found, update_user-other, count-revoke, length-revoke, count-revoke-other,
}

module _ (new_action_id : Database → Text) (clock : ℕ) (input : AdministratorNoShowInput) where
  -- A successful marking: the checks that it passed, what it returns, and each table after it. `row`
  -- is the reservation and `target` its student before, `setting` the setting of its period, and
  -- `earlier` the older sanctions, of which none of the student's is active any more.
  pub record IsMarked (s : Database) (n : ℕ) (r : ReservationRow) (u : UserRow) (s' : Database)
      : Type 0 where
    pub row : ReservationRow
    pub target : UserRow
    pub setting : PeriodSettingSnapshot
    pub found : find (has_id input.reservation_id) s.reservations ≡ some row
    pub was_confirmed : is_confirmed_row row ≡ true
    pub known : find (λ user. text_eq user.id row.user_id) s.users ≡ some target
    pub no_admin : text_eq target.role (codes "ADMIN") ≡ false
    pub set :
        find_effective_setting row (filter (is_target_setting row) s.period_settings) ≡ some setting
    pub not_ahead : text_lt (to_kst_date input.now) row.date ≡ false
    pub over :
        is_closed
          (get_period_window_state (window_of new_action_id clock input row setting) input.now)
        ≡ true
    pub reservation : r ≡ record row { status = codes "NO_SHOW" }
    pub user : u ≡ record target {
      booking_status = codes "BANNED";
      restricted_until = none;
      restriction_reason = some input.reason;
    }
    pub reservation_written : find (has_id input.reservation_id) s'.reservations ≡ some r
    pub cancelled :
        count is_confirmed_row s'.reservations + n + 1 ≡ count is_confirmed_row s.reservations
    pub user_written : find (λ x. text_eq x.id row.user_id) s'.users ≡ some u
    pub others_kept :
        (id : Text)
        → text_eq id row.user_id ≡ false
        → find (λ x. text_eq x.id id) s'.users ≡ find (λ x. text_eq x.id id) s.users
    pub earlier : List SanctionRow
    pub all_kept : length earlier ≡ length s.sanctions
    pub none_active : count (is_active_of u.id) earlier ≡ 0
    pub others_active :
        (id : Text)
        → text_eq id u.id ≡ false
        → count (is_active_of id) earlier ≡ count (is_active_of id) s.sanctions
    pub sanction_written :
        s'.sanctions
        ≡ earlier
          ++ record {
            actor_id = input.actor_id;
            ends_at = none;
            kind = codes "NO_SHOW_BAN";
            reason = input.reason;
            revoked_at = none;
            revoked_by_id = none;
            revoked_reason = none;
            source_action_id = new_action_id s;
            status = codes "ACTIVE";
            user_id = u.id;
          }
            ∷ []
    pub action_written :
        s'.admin_actions
        ≡ s.admin_actions
          ++ record {
            action = codes "NO_SHOW_BAN";
            actor_id = input.actor_id;
            after =
                (codes "bookingStatus", json_text (codes "BANNED"))
                ∷ (codes "cancelledFutureReservationCount", json_number n)
                ∷ (codes "reservationStatus", json_text (codes "NO_SHOW"))
                ∷ (codes "restrictionReason", json_text input.reason)
                ∷ (codes "restrictedUntil", json_null)
                ∷ [];
            before =
                (codes "bookingStatus", json_text target.booking_status)
                ∷ (codes "reservationStatus", json_text row.status)
                ∷ (codes "restrictionReason", text_or_null target.restriction_reason)
                ∷ (codes "restrictedUntil", instant_or_null target.restricted_until)
                ∷ [];
            id = new_action_id s;
            ip_hash = input.ip_hash;
            reason = input.reason;
            reservation_id = some row.id;
            target_user_id = u.id;
          }
            ∷ []
    pub log_written :
        s'.audit_logs
        ≡ s.audit_logs
          ++ record {
            action = codes "NO_SHOW_BAN";
            actor_id = input.actor_id;
            detail =
                (codes "actionId", json_text (new_action_id s))
                ∷ (codes "cancelledFutureReservationCount", json_number n)
                ∷ (codes "reason", json_text input.reason)
                ∷ (codes "reservationId", json_text row.id)
                ∷ [];
            user_id = u.id;
          }
            ∷ []

  module _ (s : Database) (n : ℕ) (r : ReservationRow) (u : UserRow) (s' : Database) where
    abbrev Passes : Type 0
    Passes = Passed new_action_id clock input s n r u s'

    marked_rows :
        (m : Passes)
        → find (has_id input.reservation_id) (marked new_action_id clock input m.row s)
          ≡ some (record m.row { status = codes "NO_SHOW" })
    marked_rows m =
        find-marked input.reservation_id m.row.id (codes "NO_SHOW") m.row s.reservations
          (id-found input.reservation_id m.row s.reservations m.found) m.found m.was_confirmed

    Passed-reservation_written :
        (m : Passes)
        → find (has_id input.reservation_id) s'.reservations
          ≡ some (record m.row { status = codes "NO_SHOW" })
    Passed-reservation_written m = rw (ap (λ x. x.1.reservations) m.result) (
        find-cancel_all m.ids input.reservation_id (record m.row { status = codes "NO_SHOW" })
          (marked new_action_id clock input m.row s) (marked_rows m) (unfold text_eq in refl))

    Passed-cancelled :
        (m : Passes)
        → count is_confirmed_row s'.reservations + n + 1 ≡ count is_confirmed_row s.reservations
    Passed-cancelled m =
        let rows : s'.reservations
            ≡ (cancel_all m.ids (marked new_action_id clock input m.row s)).1 =
          ap (λ x. x.1.reservations) m.result in
        let number : n ≡ (cancel_all m.ids (marked new_action_id clock input m.row s)).0 =
          ground (arith, m.result) in
        rw (rows, number)
          (omega (
            arith,
            count-cancel_all m.ids (marked new_action_id clock input m.row s),
            count-is_confirmed_row-update_status (is_confirmed_with_id m.row.id) (codes "NO_SHOW")
                s.reservations (λ x unconfirmed. ground arith) (unfold text_eq in refl),
            m.one,
          ))

    -- A marking succeeds only for a reservation that was confirmed, of a student who is no
    -- administrator, when its window is over and its date is not ahead. It then returns the
    -- reservation as NO_SHOW and the student as banned without an end. The row that is found under the
    -- reservation's key is that reservation, and the confirmed rows are fewer by it and by the number
    -- of cancelled ones that is returned. The student's row is banned, and those of other users are
    -- found as they were. As many older sanctions are left as there were, none of the student's
    -- active and as many of each other user's as before; one active ban, the administrator's action
    -- with the values before and after it, and an entry of the audit log are added, and the ban and
    -- the entry name the key of that action.
    pub mark_administrator_reservation_no_show_in_transaction-IsMarked :
        mark_administrator_reservation_no_show_in_transaction new_action_id clock input s
          ≡ ok (ok_no_show n r u, s')
        → IsMarked s n r u s'
    unfolding build_no_show_ban
    mark_administrator_reservation_no_show_in_transaction-IsMarked h =
        let m : Passes =
          mark_administrator_reservation_no_show_in_transaction-Passed new_action_id clock input s n
            r u s' h in
        let student : u ≡ restrict_user (build_no_show_ban input.reason) m.target =
          ground (arith, m.result) in
        let same : r ≡ record m.row { status = codes "NO_SHOW" } = ground (arith, m.result) in
        let number : n ≡ (cancel_all m.ids (marked new_action_id clock input m.row s)).0 =
          ground (arith, m.result) in
        record {
          row = m.row;
          target = m.target;
          setting = m.setting;
          found = m.found;
          was_confirmed = m.was_confirmed;
          known = m.known;
          no_admin = m.no_admin;
          set = m.set;
          not_ahead = m.not_ahead;
          over = m.over;
          reservation = same;
          user = student;
          reservation_written = rw same (Passed-reservation_written m);
          cancelled = Passed-cancelled m;
          user_written =
              rw (student, ap (λ x. x.1.users) m.result)
                (update_user-found m.row.user_id input.reason s.users m.target m.known);
          others_kept = λ id other.
              rw (ap (λ x. x.1.users) m.result)
                (update_user-other m.row.user_id input.reason id s.users other);
          earlier = revoke new_action_id clock input m.target.id s.sanctions;
          all_kept = length-revoke new_action_id clock input m.target.id s.sanctions;
          none_active = rw student (count-revoke new_action_id clock input m.target.id s.sanctions);
          others_active = λ id other.
              count-revoke-other new_action_id clock input m.target.id id s.sanctions
                (ap (λ x. text_eq id x.id) (sym student) ∙ other);
          sanction_written = rw student (ap (λ x. x.1.sanctions) m.result);
          action_written = rw (student, number) (ap (λ x. x.1.admin_actions) m.result);
          log_written = rw (student, number) (ap (λ x. x.1.audit_logs) m.result);
        }
