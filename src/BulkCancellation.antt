-- ===== src/BulkCancellation.antt =====
-- Administrators cancel several reservations: src/lib/admin-bulk-cancellation.ts.
pub mod Steps
pub mod Preview
use info_room_reservation_si.Prelude.{
  ℕ, ◌+◌, Bool, true, false, not, Option, none, some, List, [], ◌∷◌, Text, codes, text_eq, text_lt,
  any, find, filter, map, length, sort_by, if◌then◌else◌,
}
use info_room_reservation_si.Database.{ReservationRow, Database, has_id, is_confirmed_row}
use info_room_reservation_si.MemoryStore.{lookup}
use info_room_reservation_si.RateLimit.{assign}
use info_room_reservation_si.AdminReservations.{
  CancellationSource, AdministratorCancellationInput, AdministratorCancellationResult, ok_cancelled,
  cancel_administrator_reservation,
}

pub data BulkCancellationMode : Type 0 where
  execute preview : BulkCancellationMode

pub record AdministratorBulkCancellationInput : Type 0 where
  pub actor_id : Text
  pub ip_hash : Text
  pub mode : BulkCancellationMode
  pub reason : Text
  pub reservation_ids : List Text
  pub source : CancellationSource

pub data BulkCancellationStatus : Type 0 where
  cancelled conflict invalid_status not_found : BulkCancellationStatus

pub record BulkCancellationSummary : Type 0 where
  pub cancelled_count : ℕ
  pub conflict_count : ℕ
  pub invalid_status_count : ℕ
  pub not_found_count : ℕ
  pub total : ℕ

pub record AdministratorBulkCancellationResult : Type 0 where
  pub results : List (Text × BulkCancellationStatus)
  pub summary : BulkCancellationSummary

unfoldable pub preview_status : Option ReservationRow → BulkCancellationStatus
preview_status none = not_found
preview_status (some target) = if is_confirmed_row target then cancelled else invalid_status

abbrev pub status_of : Option AdministratorCancellationResult → BulkCancellationStatus
status_of none = conflict
status_of (some (ok_cancelled row)) = cancelled
status_of (some AdministratorCancellationResult.invalid_status) = invalid_status
status_of (some AdministratorCancellationResult.not_found) = not_found

-- Whether the comparison is positive.
unfoldable pub target_after : ReservationRow → ReservationRow → Bool
target_after left right =
    if not (text_eq left.user_id right.user_id)
    then not (text_lt left.user_id right.user_id)
    else if text_eq left.id right.id
    then false
    else not (text_lt left.id right.id)

abbrev pub tally : BulkCancellationStatus → BulkCancellationSummary → BulkCancellationSummary
tally cancelled s = record s { cancelled_count = s.cancelled_count + 1 }
tally conflict s = record s { conflict_count = s.conflict_count + 1 }
tally invalid_status s = record s { invalid_status_count = s.invalid_status_count + 1 }
tally not_found s = record s { not_found_count = s.not_found_count + 1 }

unfoldable pub summarize :
    List (Text × BulkCancellationStatus) → BulkCancellationSummary → BulkCancellationSummary
summarize [] s = s
summarize (result ∷ results) s = summarize results (tally result.1 s)

unfoldable pub build_result :
    List (Text × BulkCancellationStatus) → AdministratorBulkCancellationResult
build_result results = record {
  results = results;
  summary = summarize results (record {
    cancelled_count = 0;
    conflict_count = 0;
    invalid_status_count = 0;
    not_found_count = 0;
    total = length results;
  });
}

abbrev pub or_not_found : Option BulkCancellationStatus → BulkCancellationStatus
or_not_found none = not_found
or_not_found (some status) = status

-- The reservations that are found, each under its own key.
unfoldable pub resolve : List Text → Database → List ReservationRow
resolve ids s = filter (λ r. any (text_eq r.id) ids) s.reservations

module _ (new_action_id : Database → Text) (conflicts : Text → Bool)
    (input : AdministratorBulkCancellationInput) where
  unfoldable pub execute_cancellation : Text → Database → BulkCancellationStatus × Database
  execute_cancellation reservation_id s =
      let (result, s') =
        cancel_administrator_reservation new_action_id conflicts
          (record {
            actor_id = input.actor_id;
            ip_hash = input.ip_hash;
            reason = input.reason;
            reservation_id = reservation_id;
            source = input.source;
          })
          s in
      (status_of result, s')

  unfoldable pub execute_all :
      List ReservationRow
      → List (Text × BulkCancellationStatus)
      → Database
      → List (Text × BulkCancellationStatus) × Database
  execute_all [] statuses s = (statuses, s)
  execute_all (target ∷ targets) statuses s =
      let done = execute_cancellation target.id s in
      execute_all targets (assign target.id done.0 statuses) done.1

  abbrev pub run_preview : Database → AdministratorBulkCancellationResult × Database
  run_preview s = (
    build_result (
        map (λ id. (id, preview_status (find (has_id id) (resolve input.reservation_ids s))))
          input.reservation_ids),
    s,
  )

  abbrev pub run_execute : Database → AdministratorBulkCancellationResult × Database
  run_execute s =
      let done = execute_all (sort_by target_after (resolve input.reservation_ids s)) [] s in
      (
        build_result (map (λ id. (id, or_not_found (lookup id done.0))) input.reservation_ids),
        done.1,
      )

  unfoldable pub bulk_cancel_administrator_reservations :
      Database → AdministratorBulkCancellationResult × Database
  bulk_cancel_administrator_reservations s = elim input.mode [
    | preview ↦ run_preview s
    | execute ↦ run_execute s
  ]
