-- ===== src/Deliveries/Cells.antt =====
-- The table of deliveries of src/lib/prisma-notification-repository.ts seen as one cell for each
-- period: what its operations do to the cell and answer.
use info_room_reservation_si.Prelude.{
  ℕ, ◌≤◌, ◌+◌, Bool, ◌&&◌, ◌||◌, [], Option, none, some, Text, codes, text_eq, find, count,
  if◌then◌else◌, ◌==◌,
}
use info_room_reservation_si.StudyPeriods.{StudyPeriod}
use info_room_reservation_si.ClosedPeriods.{ClosedPeriodNotificationStatus}
use info_room_reservation_si.Deliveries.{
  DeliveryRow, DeliveryTables, parse_delivery_status, DeliveryRecord, to_delivery_record,
  is_delivery_of, Transition, final_status, DeliveryWrite, status_text,
}
use info_room_reservation_si.Deliveries.Table.{saved_row}

-- The cell of a period, and the unique key of the table.
abbrev pub cell : Text → StudyPeriod → DeliveryTables → Option DeliveryRow
cell date p s = find (is_delivery_of date p) s.deliveries

abbrev pub IsUniqueFor : Text → StudyPeriod → DeliveryTables → Type 0
IsUniqueFor date p s = count (is_delivery_of date p) s.deliveries ≤ 1

-- What a claim is to do: a delivery that is being sent for the first time where there is none, one
-- more attempt at a delivery that is pending or failed, and nothing to any other.
abbrev pub first_attempt : Text → StudyPeriod → ℕ → DeliveryRow
first_attempt date p clock = record {
  attempts = 1;
  date = date;
  failure_code = none;
  kind = codes "CLOSED_LIST";
  last_error = none;
  message_ids = [];
  next_attempt_at = none;
  sent_at = none;
  status = codes "SENDING";
  study_period = p;
  updated_at = clock;
}

abbrev pub next_attempt : ℕ → DeliveryRow → DeliveryRow
next_attempt clock row = record row {
  attempts = row.attempts + 1;
  last_error = none;
  message_ids = [];
  sent_at = none;
  status = codes "SENDING";
  updated_at = clock;
}

abbrev pub waits : DeliveryRow → Bool
waits row = text_eq row.status (codes "PENDING") || text_eq row.status (codes "FAILED")

abbrev pub claim_cell : Text → StudyPeriod → ℕ → Option DeliveryRow → Option DeliveryRow
claim_cell date p clock none = some (first_attempt date p clock)
claim_cell date p clock (some row) = some (if waits row then next_attempt clock row else row)

abbrev pub claim_reply : Text → StudyPeriod → ℕ → Option DeliveryRow → Option DeliveryRecord
claim_reply date p clock none = some (to_delivery_record (first_attempt date p clock))
claim_reply date p clock (some row) =
    if waits row then some (to_delivery_record (next_attempt clock row)) else none

abbrev pub is_savable : DeliveryWrite → DeliveryRow → Bool
is_savable write row =
    text_eq row.status (codes "SENDING") && row.updated_at == write.claim_updated_at

abbrev pub save_cell : DeliveryWrite → ℕ → Option DeliveryRow → Option DeliveryRow
save_cell write clock none = none
save_cell write clock (some row) =
    some (if is_savable write row then saved_row write clock row else row)

abbrev pub save_reply : DeliveryWrite → ℕ → Option DeliveryRow → Option DeliveryRecord
save_reply write clock none = none
save_reply write clock (some row) =
    if is_savable write row
    then some (record (to_delivery_record (saved_row write clock row)) {
      status = final_status write.status;
    })
    else none

-- A text that is no status is read as a failure, but it is not changed.
abbrev pub is_status : DeliveryRow → Bool
is_status row = text_eq row.status (status_text (parse_delivery_status row.status))

abbrev pub change_cell :
    (ClosedPeriodNotificationStatus → Bool)
    → (DeliveryRow → DeliveryRow)
    → Option DeliveryRow
    → Option DeliveryRow
change_cell allows change none = none
change_cell allows change (some row) =
    some (if allows (parse_delivery_status row.status) && is_status row then change row else row)

abbrev pub change_reply :
    (ClosedPeriodNotificationStatus → Bool)
    → (DeliveryRow → DeliveryRow)
    → Option DeliveryRow
    → Option Transition
change_reply allows change none = none
change_reply allows change (some row) =
    if allows (parse_delivery_status row.status) && is_status row
    then some (to_delivery_record (change row), parse_delivery_status row.status)
    else none
