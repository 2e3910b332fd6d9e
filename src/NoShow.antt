-- ===== src/NoShow.antt =====
-- Administrators mark a reservation as not shown up for, which bans the student:
-- `markAdministratorReservationNoShowInTransaction` of src/lib/admin-no-show-operations.ts. The key of
-- a new row and the clock are parameters.
pub mod Passed
pub mod Rows
pub mod Marked
pub mod Ban
pub mod Failures
use info_room_reservation_si.Prelude.{
  ℕ, ◌+◌, Bool, true, false, not, ◌&&◌, Option, none, some, List, [], ◌∷◌, ◌++◌, Text, codes,
  text_eq, text_lt, text_le, any, find, filter, count, length, if◌then◌else◌, ◌==◌,
}
use info_room_reservation_si.Calendar.{to_kst_date}
use info_room_reservation_si.PeriodWindow.{PeriodWindowSetting, get_period_window_state}
use info_room_reservation_si.PeriodSettings.{
  PeriodSettingSnapshot, global_period_settings_date, or_else,
}
use info_room_reservation_si.PeriodSettings.Effective.{is_read}
use info_room_reservation_si.Reservations.{
  BookingStatus, active, restricted, banned, shadow_banned, BookingRestrictionUpdate,
  build_no_show_ban, Try, ok, throw,
}
use info_room_reservation_si.Database.{
  ReservationRow, UserRow, JsonValue, json_text, json_number, json_instant, json_null, Json,
  AdminActionRow, AuditLogRow, SanctionRow, Database, ◌>>=◌, update_status, has_id,
  is_confirmed_row,
}
use info_room_reservation_si.AdminReservations.{
  can_mark_reservation_no_show, select_cancellable_confirmed_reservation_ids, is_confirmed_with_id,
}

pub record AdministratorNoShowInput : Type 0 where
  pub actor_id : Text
  pub ip_hash : Text
  pub now : ℕ
  pub reason : Text
  pub reservation_id : Text

pub data AdministratorNoShowResult : Type 0 where
  admin_target conflict invalid_status not_closed not_found : AdministratorNoShowResult
  -- the number of reservations that were cancelled with it, the reservation and the student
  ok_no_show : ℕ → ReservationRow → UserRow → AdministratorNoShowResult

abbrev pub is_setting_of : Text → ReservationRow → PeriodSettingSnapshot → Bool
is_setting_of date row setting =
    text_eq setting.date date && text_eq setting.study_period row.study_period

unfoldable pub find_effective_setting :
    ReservationRow → List PeriodSettingSnapshot → Option PeriodSettingSnapshot
find_effective_setting row settings =
    or_else (find (is_setting_of row.date row) settings)
      (find (is_setting_of global_period_settings_date row) settings)

abbrev pub is_target_setting : ReservationRow → PeriodSettingSnapshot → Bool
is_target_setting row setting =
    is_read row.date setting && text_eq setting.study_period row.study_period

abbrev pub booking_status_text : BookingStatus → Text
booking_status_text active = codes "ACTIVE"
booking_status_text restricted = codes "RESTRICTED"
booking_status_text banned = codes "BANNED"
booking_status_text shadow_banned = codes "SHADOW_BANNED"

abbrev pub restrict_user : BookingRestrictionUpdate → UserRow → UserRow
restrict_user update user = record user {
  booking_status = booking_status_text update.booking_status;
  restricted_until = update.restricted_until;
  restriction_reason = some update.restriction_reason;
}

unfoldable pub update_user : Text → BookingRestrictionUpdate → List UserRow → List UserRow
update_user id update [] = []
update_user id update (user ∷ users) =
    (if text_eq user.id id then restrict_user update user else user) ∷ update_user id update users

abbrev pub is_active_of : Text → SanctionRow → Bool
is_active_of user_id sanction =
    text_eq sanction.status (codes "ACTIVE") && text_eq sanction.user_id user_id

abbrev pub instant_or_null : Option ℕ → JsonValue
instant_or_null none = json_null
instant_or_null (some t) = json_instant t

abbrev pub text_or_null : Option Text → JsonValue
text_or_null none = json_null
text_or_null (some t) = json_text t

-- The student's other confirmed reservations from today on.
abbrev pub is_candidate : Text → ReservationRow → ReservationRow → Bool
is_candidate today row r =
    text_le today r.date
    && (not (text_eq r.id row.id) && (is_confirmed_row r && text_eq r.user_id row.user_id))

abbrev pub is_among : List Text → ReservationRow → Bool
is_among ids r = any (text_eq r.id) ids && is_confirmed_row r

-- How many are cancelled; nothing is written for an empty list.
abbrev pub cancel_all : List Text → List ReservationRow → ℕ × List ReservationRow
cancel_all [] rows = (0, rows)
cancel_all (id ∷ ids) rows =
    (count (is_among (id ∷ ids)) rows, update_status (is_among (id ∷ ids)) (codes "CANCELLED") rows)

module _ (new_action_id : Database → Text) (clock : ℕ) (input : AdministratorNoShowInput) where
  unfoldable pub revoke : Text → List SanctionRow → List SanctionRow
  revoke user_id [] = []
  revoke user_id (sanction ∷ sanctions) =
      (if is_active_of user_id sanction
        then record sanction {
          revoked_at = some clock;
          revoked_by_id = some input.actor_id;
          revoked_reason = some (codes "노쇼 제재로 대체");
          status = codes "REVOKED";
        }
        else sanction)
      ∷ revoke user_id sanctions

  abbrev pub no_show_action : ReservationRow → UserRow → UserRow → ℕ → Text → AdminActionRow
  no_show_action row target user cancelled action_id = record {
    action = codes "NO_SHOW_BAN";
    actor_id = input.actor_id;
    after =
        (codes "bookingStatus", json_text user.booking_status)
        ∷ (codes "cancelledFutureReservationCount", json_number cancelled)
        ∷ (codes "reservationStatus", json_text (codes "NO_SHOW"))
        ∷ (codes "restrictionReason", text_or_null user.restriction_reason)
        ∷ (codes "restrictedUntil", instant_or_null user.restricted_until)
        ∷ [];
    before =
        (codes "bookingStatus", json_text target.booking_status)
        ∷ (codes "reservationStatus", json_text row.status)
        ∷ (codes "restrictionReason", text_or_null target.restriction_reason)
        ∷ (codes "restrictedUntil", instant_or_null target.restricted_until)
        ∷ [];
    id = action_id;
    ip_hash = input.ip_hash;
    reason = input.reason;
    reservation_id = some row.id;
    target_user_id = user.id;
  }

  abbrev pub no_show_sanction : UserRow → Text → SanctionRow
  no_show_sanction user action_id = record {
    actor_id = input.actor_id;
    ends_at = none;
    kind = codes "NO_SHOW_BAN";
    reason = input.reason;
    revoked_at = none;
    revoked_by_id = none;
    revoked_reason = none;
    source_action_id = action_id;
    status = codes "ACTIVE";
    user_id = user.id;
  }

  abbrev pub no_show_log : ReservationRow → UserRow → ℕ → Text → AuditLogRow
  no_show_log row user cancelled action_id = record {
    action = codes "NO_SHOW_BAN";
    actor_id = input.actor_id;
    detail =
        (codes "actionId", json_text action_id)
        ∷ (codes "cancelledFutureReservationCount", json_number cancelled)
        ∷ (codes "reason", json_text input.reason)
        ∷ (codes "reservationId", json_text row.id)
        ∷ [];
    user_id = user.id;
  }

  -- The writes after the transition, with the reservations to cancel.
  abbrev pub ban :
      ReservationRow
      → UserRow
      → ℕ × List ReservationRow
      → Database
      → AdministratorNoShowResult × Database
  ban row target (cancelled, reservations) s =
      let user = restrict_user (build_no_show_ban input.reason) target in
      let action_id = new_action_id s in
      (
        ok_no_show cancelled (record row { status = codes "NO_SHOW" }) user,
        record s {
          admin_actions =
              s.admin_actions ++ no_show_action row target user cancelled action_id ∷ [];
          audit_logs = s.audit_logs ++ no_show_log row user cancelled action_id ∷ [];
          reservations = reservations;
          sanctions = revoke user.id s.sanctions ++ no_show_sanction user action_id ∷ [];
          users = update_user row.user_id (build_no_show_ban input.reason) s.users;
        },
      )

  abbrev pub marked : ReservationRow → Database → List ReservationRow
  marked row s = update_status (is_confirmed_with_id row.id) (codes "NO_SHOW") s.reservations

  unfoldable pub transition :
      ReservationRow → UserRow → Database → Try (AdministratorNoShowResult × Database)
  transition row target s =
      if not (count (is_confirmed_with_id row.id) s.reservations == 1)
      then ok (conflict, record s { reservations = marked row s })
      else (do
        ids ←
            select_cancellable_confirmed_reservation_ids input.now
              (filter (is_read (to_kst_date input.now)) s.period_settings)
              (filter (is_candidate (to_kst_date input.now) row) (marked row s))
        ok (ban row target (cancel_all ids (marked row s)) s))

  abbrev pub window_of : ReservationRow → PeriodSettingSnapshot → PeriodWindowSetting
  window_of row setting = record {
    close_time = setting.close_time;
    date = row.date;
    open_time = setting.open_time;
  }

  unfoldable pub mark_setting :
      ReservationRow
      → UserRow
      → Option PeriodSettingSnapshot
      → Database
      → Try (AdministratorNoShowResult × Database)
  mark_setting row target none s = ok (not_closed, s)
  mark_setting row target (some setting) s =
      if text_lt (to_kst_date input.now) row.date
      then ok (not_closed, s)
      else if not (
          can_mark_reservation_no_show row.status
            (get_period_window_state (window_of row setting) input.now))
      then ok (not_closed, s)
      else transition row target s

  unfoldable pub mark_user :
      ReservationRow → Option UserRow → Database → Try (AdministratorNoShowResult × Database)
  mark_user row none s = ok (not_found, s)
  mark_user row (some target) s =
      if text_eq target.role (codes "ADMIN")
      then ok (admin_target, s)
      else mark_setting row target
          (find_effective_setting row (filter (is_target_setting row) s.period_settings)) s

  unfoldable pub mark_found :
      Option ReservationRow → Database → Try (AdministratorNoShowResult × Database)
  mark_found none s = ok (not_found, s)
  mark_found (some row) s =
      if not (is_confirmed_row row)
      then ok (invalid_status, s)
      else mark_user row (find (λ user. text_eq user.id row.user_id) s.users) s

  unfoldable pub mark_administrator_reservation_no_show_in_transaction :
      Database → Try (AdministratorNoShowResult × Database)
  mark_administrator_reservation_no_show_in_transaction s =
      mark_found (find (has_id input.reservation_id) s.reservations) s
