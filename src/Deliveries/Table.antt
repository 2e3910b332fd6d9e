-- ===== src/Deliveries/Table.antt =====
-- The writes of the repository in src/lib/prisma-notification-repository.ts: each is an update of the
-- rows that a test holds of, whose count it looks at.
use info_room_reservation_si.Prelude.{
  ℕ, ◌+◌, Bool, true, false, ◌&&◌, ◌||◌, Option, none, some, List, [], ◌∷◌, ◌++◌, Text, codes,
  text_eq, find, count, any, if◌then◌else◌, ◌==◌, update_where,
}
use info_room_reservation_si.StudyPeriods.{StudyPeriod}
use info_room_reservation_si.ClosedPeriods.{
  ClosedPeriodNotificationStatus, closed_list_notification_kind,
}
use info_room_reservation_si.Deliveries.{
  DeliveryRow, DeliveryTables, status_text, parse_delivery_status, DeliveryRecord,
  to_delivery_record, is_delivery_of, find_delivery_record, is_reconciliation_status, Transition,
  ResolveAction, abandon, confirm_sent, FinalStatus, final_status, DeliveryWrite,
}

-- With and without `force` the same statuses can be claimed.
abbrev pub is_claimable_status : Text → Bool
is_claimable_status status = text_eq status (codes "FAILED") || text_eq status (codes "PENDING")

abbrev pub claimed_row : ℕ → DeliveryRow → DeliveryRow
claimed_row clock row = record row {
  attempts = row.attempts + 1;
  last_error = none;
  message_ids = [];
  sent_at = none;
  status = codes "SENDING";
  updated_at = clock;
}

abbrev pub first_claim_row : Text → StudyPeriod → ℕ → DeliveryRow
first_claim_row date p clock = record {
  attempts = 1;
  date = date;
  failure_code = none;
  kind = closed_list_notification_kind;
  last_error = none;
  message_ids = [];
  next_attempt_at = none;
  sent_at = none;
  status = codes "SENDING";
  study_period = p;
  updated_at = clock;
}

abbrev pub is_claimable_delivery : Text → StudyPeriod → DeliveryRow → Bool
is_claimable_delivery date p row = is_delivery_of date p row && is_claimable_status row.status

abbrev pub with_deliveries : List DeliveryRow → DeliveryTables → DeliveryTables
with_deliveries deliveries s = record s { deliveries = deliveries }

-- An existing delivery is claimed, or else a new one is created, if there is none.
unfoldable pub claim_delivery :
    ℕ → Text → StudyPeriod → DeliveryTables → Option DeliveryRecord × DeliveryTables
claim_delivery clock date p s =
    let claimed =
      with_deliveries (update_where (is_claimable_delivery date p) (claimed_row clock) s.deliveries)
        s in
    if count (is_claimable_delivery date p) s.deliveries == 1
    then (find_delivery_record date p claimed, claimed)
    else if any (is_delivery_of date p) s.deliveries
    then (none, claimed)
    else (
      some (to_delivery_record (first_claim_row date p clock)),
      with_deliveries (claimed.deliveries ++ first_claim_row date p clock ∷ []) claimed,
    )

-- The rows that have not changed since they were read.
abbrev pub is_unchanged : Text → StudyPeriod → DeliveryRow → DeliveryRow → Bool
is_unchanged date p existing row =
    is_delivery_of date p row
    && (text_eq row.status (status_text (parse_delivery_status existing.status))
        && row.updated_at == existing.updated_at)

abbrev pub transition_of :
    Option DeliveryRecord → ClosedPeriodNotificationStatus → Option Transition
transition_of none previous = none
transition_of (some delivery) previous = some (delivery, previous)

unfoldable pub change_unchanged :
    Text
    → StudyPeriod
    → DeliveryRow
    → (DeliveryRow → DeliveryRow)
    → DeliveryTables
    → Option Transition × DeliveryTables
change_unchanged date p existing change s =
    let changed =
      with_deliveries (update_where (is_unchanged date p existing) change s.deliveries) s in
    if count (is_unchanged date p existing) s.deliveries == 1
    then (
      transition_of (find_delivery_record date p changed) (parse_delivery_status existing.status),
      changed,
    )
    else (none, changed)

abbrev pub reclaimed_row : ℕ → DeliveryRow → DeliveryRow
reclaimed_row clock row = record row {
  attempts = row.attempts + 1;
  failure_code = none;
  last_error = none;
  message_ids = [];
  next_attempt_at = none;
  sent_at = none;
  status = codes "SENDING";
  updated_at = clock;
}

abbrev pub reclaim_found :
    ℕ
    → Text
    → StudyPeriod
    → Option DeliveryRow
    → DeliveryTables
    → Option Transition × DeliveryTables
reclaim_found clock date p none s = (none, s)
reclaim_found clock date p (some existing) s =
    if is_reconciliation_status (parse_delivery_status existing.status)
    then change_unchanged date p existing (reclaimed_row clock) s
    else (none, s)

unfoldable pub claim_delivery_for_reconciliation :
    ℕ → Text → StudyPeriod → DeliveryTables → Option Transition × DeliveryTables
claim_delivery_for_reconciliation clock date p s =
    reclaim_found clock date p (find (is_delivery_of date p) s.deliveries) s

abbrev pub resolved_row : ResolveAction → ℕ → ℕ → DeliveryRow → DeliveryRow
resolved_row confirm_sent now clock row = record row {
  failure_code = none;
  last_error = none;
  next_attempt_at = none;
  sent_at = some now;
  status = codes "SENT";
  updated_at = clock;
}
resolved_row abandon now clock row = record row {
  next_attempt_at = none;
  sent_at = none;
  status = codes "ABANDONED";
  updated_at = clock;
}

-- Only an unknown delivery can be confirmed.
abbrev pub is_resolvable : ResolveAction → ClosedPeriodNotificationStatus → Bool
is_resolvable abandon status = is_reconciliation_status status
is_resolvable confirm_sent ClosedPeriodNotificationStatus.unknown = true
is_resolvable confirm_sent _ = false

abbrev pub resolve_found :
    ResolveAction
    → ℕ
    → ℕ
    → Text
    → StudyPeriod
    → Option DeliveryRow
    → DeliveryTables
    → Option Transition × DeliveryTables
resolve_found action now clock date p none s = (none, s)
resolve_found action now clock date p (some existing) s =
    if is_resolvable action (parse_delivery_status existing.status)
    then change_unchanged date p existing (resolved_row action now clock) s
    else (none, s)

unfoldable pub resolve_delivery :
    ResolveAction → ℕ → ℕ → Text → StudyPeriod → DeliveryTables → Option Transition × DeliveryTables
resolve_delivery action now clock date p s =
    resolve_found action now clock date p (find (is_delivery_of date p) s.deliveries) s

abbrev pub sent_time : FinalStatus → ℕ → Option ℕ
sent_time FinalStatus.sent clock = some clock
sent_time _ clock = none

abbrev pub saved_row : DeliveryWrite → ℕ → DeliveryRow → DeliveryRow
saved_row write clock row = record row {
  failure_code = write.failure_code;
  last_error = write.last_error;
  message_ids = write.message_ids;
  next_attempt_at = write.next_attempt_at;
  sent_at = sent_time write.status clock;
  status = status_text (final_status write.status);
  updated_at = clock;
}

-- The delivery that is being sent under the claim.
abbrev pub is_claimed_by : DeliveryWrite → DeliveryRow → Bool
is_claimed_by write row =
    is_delivery_of write.date write.study_period row
    && (text_eq row.status (codes "SENDING") && row.updated_at == write.claim_updated_at)

abbrev pub with_status : FinalStatus → Option DeliveryRecord → Option DeliveryRecord
with_status status none = none
with_status status (some delivery) = some (record delivery { status = final_status status })

unfoldable pub save_delivery :
    ℕ → DeliveryWrite → DeliveryTables → Option DeliveryRecord × DeliveryTables
save_delivery clock write s =
    let saved =
      with_deliveries (update_where (is_claimed_by write) (saved_row write clock) s.deliveries) s in
    if count (is_claimed_by write) s.deliveries == 1
    then (
      with_status write.status (find_delivery_record write.date write.study_period saved),
      saved,
    )
    else (none, saved)
