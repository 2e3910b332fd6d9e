-- ===== src/Deliveries.antt =====
-- The deliveries of lists of closed periods: the table and the repository of
-- src/lib/prisma-notification-repository.ts. Statuses are texts in the table, as are message ids in
-- a JSON text there, which is read back as the list that was written.
pub mod Table
pub mod Cells
pub mod Refines
pub mod Contracts
pub mod Service
pub mod Database
pub mod Sending
pub mod Kept
pub mod Settled
pub mod Once
use info_room_reservation_si.Prelude.{
  ℕ, ◌+◌, Bool, true, false, not, ◌&&◌, ◌||◌, Option, none, some, List, [], ◌∷◌, ◌++◌, Text, codes,
  text_eq, find, count, filter, any, if◌then◌else◌, ◌==◌, update_where,
}
use info_room_reservation_si.StudyPeriods.{StudyPeriod, period_eq, period_text}
use info_room_reservation_si.PeriodSettings.{
  PeriodSettingSnapshot, PeriodSetting, resolve_effective_period_setting,
}
use info_room_reservation_si.PeriodSettings.Effective.{is_read}
use info_room_reservation_si.ClosedPeriods.{
  ClosedPeriodNotificationStatus, abandoned, pending, pending_review, sending,
  closed_list_notification_kind,
}

pub record DeliveryRow : Type 0 where
  pub attempts : ℕ
  pub date : Text
  pub failure_code : Option Text
  pub kind : Text
  pub last_error : Option Text
  pub message_ids : List Text
  pub next_attempt_at : Option ℕ
  pub sent_at : Option ℕ
  pub status : Text
  pub study_period : StudyPeriod
  pub updated_at : ℕ

pub record DeliveryTables : Type 0 where
  pub deliveries : List DeliveryRow
  pub period_settings : List PeriodSettingSnapshot

abbrev pub status_text : ClosedPeriodNotificationStatus → Text
status_text ClosedPeriodNotificationStatus.failed = codes "FAILED"
status_text ClosedPeriodNotificationStatus.sent = codes "SENT"
status_text ClosedPeriodNotificationStatus.unknown = codes "UNKNOWN"
status_text abandoned = codes "ABANDONED"
status_text pending = codes "PENDING"
status_text pending_review = codes "PENDING_REVIEW"
status_text sending = codes "SENDING"

-- Any other text counts as a failure.
unfoldable pub parse_delivery_status : Text → ClosedPeriodNotificationStatus
parse_delivery_status value =
    if text_eq value (codes "ABANDONED")
    then abandoned
    else if text_eq value (codes "PENDING")
    then pending
    else if text_eq value (codes "PENDING_REVIEW")
    then pending_review
    else if text_eq value (codes "SENDING")
    then sending
    else if text_eq value (codes "SENT")
    then ClosedPeriodNotificationStatus.sent
    else if text_eq value (codes "UNKNOWN")
    then ClosedPeriodNotificationStatus.unknown
    else ClosedPeriodNotificationStatus.failed

-- `ClosedPeriodNotificationDeliveryRecord`, with the instant of the last update always there.
pub record DeliveryRecord : Type 0 where
  pub date : Text
  pub failure_code : Option Text
  pub kind : Text
  pub last_error : Option Text
  pub message_ids : List Text
  pub next_attempt_at : Option ℕ
  pub status : ClosedPeriodNotificationStatus
  pub study_period : StudyPeriod
  pub updated_at : Option ℕ

unfoldable pub to_delivery_record : DeliveryRow → DeliveryRecord
to_delivery_record row = record {
  date = row.date;
  failure_code = row.failure_code;
  kind = row.kind;
  last_error = row.last_error;
  message_ids = row.message_ids;
  next_attempt_at = row.next_attempt_at;
  status = parse_delivery_status row.status;
  study_period = row.study_period;
  updated_at = some row.updated_at;
}

-- The unique key of a delivery.
abbrev pub is_delivery_of : Text → StudyPeriod → DeliveryRow → Bool
is_delivery_of date p row =
    text_eq row.date date
    && (period_eq row.study_period p && text_eq row.kind closed_list_notification_kind)

abbrev pub record_of : Option DeliveryRow → Option DeliveryRecord
record_of none = none
record_of (some row) = some (to_delivery_record row)

unfoldable pub find_delivery_record : Text → StudyPeriod → DeliveryTables → Option DeliveryRecord
find_delivery_record date p s = record_of (find (is_delivery_of date p) s.deliveries)

abbrev pub is_setting_row : Text → StudyPeriod → PeriodSettingSnapshot → Bool
is_setting_row date p row = is_read date row && text_eq row.study_period (period_text p)

-- The setting of the period; the applicants, which only the payload shows, are not part of it.
unfoldable pub get_period : Text → StudyPeriod → DeliveryTables → Option PeriodSetting
get_period date p s =
    some
      (resolve_effective_period_setting date p (filter (is_setting_row date p) s.period_settings))

abbrev pub is_reconciliation_status : ClosedPeriodNotificationStatus → Bool
is_reconciliation_status ClosedPeriodNotificationStatus.failed = true
is_reconciliation_status pending_review = true
is_reconciliation_status ClosedPeriodNotificationStatus.unknown = true
is_reconciliation_status _ = false

-- The record after the change, and the status before it.
abbrev pub Transition : Type 0
Transition = DeliveryRecord × ClosedPeriodNotificationStatus

pub data ResolveAction : Type 0 where
  abandon confirm_sent : ResolveAction

pub data FinalStatus : Type 0 where
  failed sent unknown : FinalStatus

abbrev pub final_status : FinalStatus → ClosedPeriodNotificationStatus
final_status FinalStatus.failed = ClosedPeriodNotificationStatus.failed
final_status FinalStatus.sent = ClosedPeriodNotificationStatus.sent
final_status FinalStatus.unknown = ClosedPeriodNotificationStatus.unknown

pub record DeliveryWrite : Type 0 where
  pub claim_updated_at : ℕ
  pub date : Text
  pub failure_code : Option Text
  pub last_error : Option Text
  pub message_ids : List Text
  pub next_attempt_at : Option ℕ
  pub status : FinalStatus
  pub study_period : StudyPeriod
