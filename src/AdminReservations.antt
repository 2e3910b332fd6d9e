-- ===== src/AdminReservations.antt =====
-- Administrators cancel reservations: src/lib/admin-reservation-operations.ts, with the conditions of
-- src/lib/admin-reservation-transition.ts and src/lib/admin-cancellable-reservations.ts. The key of a
-- new row is a parameter.
pub mod Cancellation
use info_room_reservation_si.Prelude.{
  ℕ, ◌+◌, Bool, true, false, not, ◌&&◌, Option, none, some, List, [], ◌∷◌, ◌++◌, Text, codes,
  text_eq, text_lt, find, count, if◌then◌else◌, ◌==◌,
}
use info_room_reservation_si.Calendar.{to_kst_date}
use info_room_reservation_si.PeriodWindow.{
  PeriodWindowState, closed, is_closed, is_period_window_closed,
}
use info_room_reservation_si.PeriodSettings.{
  PeriodSettingSnapshot, PeriodSetting, resolve_effective_period_setting,
}
use info_room_reservation_si.Reservations.{Try, ok, throw}
use info_room_reservation_si.Reservations.Service.{window_setting}
use info_room_reservation_si.Database.{
  ReservationRow, JsonValue, json_text, AdminActionRow, AuditLogRow, Database, ◌>>=◌,
  parse_stored_study_period, update_status, has_id, is_confirmed_row,
}

unfoldable pub can_admin_cancel_reservation : Text → Bool
can_admin_cancel_reservation status = text_eq status (codes "CONFIRMED")

unfoldable pub can_mark_reservation_no_show : Text → PeriodWindowState → Bool
can_mark_reservation_no_show status window = text_eq status (codes "CONFIRMED") && is_closed window

-- Whether one reservation can still be cancelled; only one of today needs its period parsed.
unfoldable pub is_cancellable : ℕ → List PeriodSettingSnapshot → ReservationRow → Try Bool
is_cancellable now settings row =
    if not (is_confirmed_row row)
    then ok false
    else if text_lt row.date (to_kst_date now)
    then ok false
    else if text_lt (to_kst_date now) row.date
    then ok true
    else (do
      p ← parse_stored_study_period row.study_period
      ok (
          not (
            is_period_window_closed
              (window_setting (resolve_effective_period_setting (to_kst_date now) p settings))
              now)))

unfoldable pub select_cancellable_confirmed_reservation_ids :
    ℕ → List PeriodSettingSnapshot → List ReservationRow → Try (List Text)
select_cancellable_confirmed_reservation_ids now settings [] = ok []
select_cancellable_confirmed_reservation_ids now settings (row ∷ rows) = do
  cancellable ← is_cancellable now settings row
  ids ← select_cancellable_confirmed_reservation_ids now settings rows
  ok (if cancellable then row.id ∷ ids else ids)

pub data CancellationSource : Type 0 where
  discord_admin_command discord_admin_cancel discord_rejection web_admin : CancellationSource

abbrev pub source_text : CancellationSource → Text
source_text discord_admin_command = codes "DISCORD_ADMIN_COMMAND"
source_text discord_admin_cancel = codes "DISCORD_ADMIN_CANCEL"
source_text discord_rejection = codes "DISCORD_REJECTION"
source_text web_admin = codes "WEB_ADMIN"

pub record AdministratorCancellationInput : Type 0 where
  pub actor_id : Text
  pub ip_hash : Text
  pub reason : Text
  pub reservation_id : Text
  pub source : CancellationSource

pub data AdministratorCancellationResult : Type 0 where
  invalid_status not_found : AdministratorCancellationResult
  ok_cancelled : ReservationRow → AdministratorCancellationResult

abbrev pub is_confirmed_with_id : Text → ReservationRow → Bool
is_confirmed_with_id id row = has_id id row && is_confirmed_row row

abbrev pub cancel_action : AdministratorCancellationInput → ReservationRow → Text → AdminActionRow
cancel_action input row action_id = record {
  action = codes "ADMIN_RESERVATION_CANCEL";
  actor_id = input.actor_id;
  after = (codes "reservationStatus", json_text (codes "CANCELLED")) ∷ [];
  before = (codes "reservationStatus", json_text row.status) ∷ [];
  id = action_id;
  ip_hash = input.ip_hash;
  reason = input.reason;
  reservation_id = some row.id;
  target_user_id = row.user_id;
}

abbrev pub cancel_log : AdministratorCancellationInput → ReservationRow → Text → AuditLogRow
cancel_log input row action_id = record {
  action = codes "ADMIN_RESERVATION_CANCEL";
  actor_id = input.actor_id;
  detail =
      (codes "actionId", json_text action_id)
      ∷ (codes "reason", json_text input.reason)
      ∷ (codes "reservationId", json_text row.id)
      ∷ (codes "source", json_text (source_text input.source))
      ∷ [];
  user_id = row.user_id;
}

-- The writes after the transition.
abbrev pub cancelled_state :
    AdministratorCancellationInput → ReservationRow → Text → Database → Database
cancelled_state input row action_id s = record s {
  admin_actions = s.admin_actions ++ cancel_action input row action_id ∷ [];
  audit_logs = s.audit_logs ++ cancel_log input row action_id ∷ [];
  reservations = update_status (is_confirmed_with_id row.id) (codes "CANCELLED") s.reservations;
}

module _ (new_action_id : Database → Text) where
  abbrev pub cancel_found :
      AdministratorCancellationInput
      → Option ReservationRow
      → Database
      → AdministratorCancellationResult × Database
  cancel_found input none s = (not_found, s)
  cancel_found input (some row) s =
      if not (can_admin_cancel_reservation row.status)
      then (invalid_status, s)
      else if not (count (is_confirmed_with_id row.id) s.reservations == 1)
      then (
        invalid_status,
        record s {
          reservations =
              update_status (is_confirmed_with_id row.id) (codes "CANCELLED") s.reservations;
        },
      )
      else (
        ok_cancelled (record row { status = codes "CANCELLED" }),
        cancelled_state input row (new_action_id s) s,
      )

  unfoldable pub cancel_administrator_reservation_in_transaction :
      AdministratorCancellationInput → Database → AdministratorCancellationResult × Database
  cancel_administrator_reservation_in_transaction input s =
      cancel_found input (find (has_id input.reservation_id) s.reservations) s

-- `cancelAdministratorReservation`: the lookup, then the transaction with its retries. `none` is the
-- TransactionRetryExhaustedError; for which reservations it occurs is a parameter.
module _ (new_action_id : Database → Text) (conflicts : Text → Bool) where
  unfoldable pub cancel_administrator_reservation :
      AdministratorCancellationInput → Database → Option AdministratorCancellationResult × Database
  cancel_administrator_reservation input s =
      let done = cancel_administrator_reservation_in_transaction new_action_id input s in
      elim (find (has_id input.reservation_id) s.reservations) [
        | none ↦ (some not_found, s)
        | some target ↦ if conflicts input.reservation_id then (none, s) else (some done.0, done.1)
      ]
