-- ===== src/Deliveries/Service.antt =====
-- The service of src/lib/closed-period-notification-service.ts, with the classification of errors of
-- src/lib/discord-notifications.ts. What the sender does, when saving throws, how tokens are taken out
-- of messages and how a Retry-After header reads are parameters.
use info_room_reservation_si.Prelude.{
  ℕ, Bool, not, ◌||◌, Option, none, some, List, [], Text, if◌then◌else◌,
}
use info_room_reservation_si.PeriodSettings.{PeriodSetting}
use info_room_reservation_si.ClosedPeriods.{
  ClosedPeriodNotificationStatus, abandoned, pending, pending_review, sending,
  is_closed_period_for_notification, is_stale_sending_delivery,
}
use info_room_reservation_si.Deliveries.{
  DeliveryRecord, FinalStatus, DeliveryWrite, ResolveAction, Transition,
}
use info_room_reservation_si.Deliveries.Contracts.{
  DeliveryOutcome, SendError, DeliveryError, classify_discord_webhook_error, SendResult, returned,
  thrown, SaveResult, saved, lost, broken, DeliveryRepository, SkipReason, already_sent,
  needs_reconciliation, not_closed, not_found, SendClosedPeriodResult, delivered, skipped, escaped,
  SendRun, SendRequest,
}

abbrev pub outcome_status : DeliveryOutcome → FinalStatus
outcome_status DeliveryOutcome.failed = FinalStatus.failed
outcome_status DeliveryOutcome.unknown = FinalStatus.unknown

abbrev pub saved_result : FinalStatus → SaveResult → SendClosedPeriodResult
saved_result status (saved delivery) = delivered status delivery
saved_result status lost = skipped already_sent
saved_result status (broken error) = escaped error

abbrev pub is_stale_record : DeliveryRecord → ℕ → Bool
is_stale_record delivery now =
    is_stale_sending_delivery
      (record {
        date = delivery.date;
        kind = delivery.kind;
        next_attempt_at = delivery.next_attempt_at;
        status = delivery.status;
        study_period = delivery.study_period;
        updated_at = delivery.updated_at;
      })
      now

-- Why a status is no reason to send, if it is none; `stale` tells of a delivery that is being sent.
abbrev pub status_skip : Bool → ClosedPeriodNotificationStatus → Bool → Option SkipReason
status_skip manual ClosedPeriodNotificationStatus.failed stale =
    if manual then some needs_reconciliation else none
status_skip manual ClosedPeriodNotificationStatus.unknown stale = some needs_reconciliation
status_skip manual pending_review stale = some needs_reconciliation
status_skip manual sending stale = if stale then some needs_reconciliation else some already_sent
status_skip manual ClosedPeriodNotificationStatus.sent stale = some already_sent
status_skip manual abandoned stale = some already_sent
status_skip manual pending stale = none

abbrev pub delivery_skip : Bool → Option DeliveryRecord → ℕ → Option SkipReason
delivery_skip manual none now = none
delivery_skip manual (some delivery) now =
    status_skip manual delivery.status (is_stale_record delivery now)

-- The request can be sent only for an enabled period that is closed.
abbrev pub period_skip : Option PeriodSetting → ℕ → Option SkipReason
period_skip none now = some not_found
period_skip (some period) now =
    if not period.enabled
    then some not_found
    else if not (is_closed_period_for_notification period now)
    then some not_closed
    else none

pub data ReconcileAction : Type 0 where
  resolve : ResolveAction → ReconcileAction
  retry : ReconcileAction

-- `ReconcileClosedPeriodResult`
pub data ReconcileClosedPeriodResult : Type 0 where
  resolved : ResolveAction → Transition → ReconcileClosedPeriodResult
  resent : FinalStatus → Transition → ReconcileClosedPeriodResult
  conflict : ReconcileClosedPeriodResult
  reconcile_escaped : SendError → ReconcileClosedPeriodResult

pub record ReconcileRun (S : Type 0) : Type 0 where
  pub calls : ℕ
  pub result : ReconcileClosedPeriodResult
  pub state : S

abbrev pub resolved_result : ResolveAction → Option Transition → ReconcileClosedPeriodResult
resolved_result action none = conflict
resolved_result action (some transition) = resolved action transition

abbrev pub resent_result :
    SendClosedPeriodResult → ClosedPeriodNotificationStatus → ReconcileClosedPeriodResult
resent_result (delivered status delivery) previous = resent status (delivery, previous)
resent_result (skipped reason) previous = conflict
resent_result (escaped error) previous = reconcile_escaped error

-- `sender` is handed the payload of a period; `redact` takes tokens out of a message.
module _ {S : Type 0} (repository : DeliveryRepository S) (sender : PeriodSetting → SendResult)
    (redact : Text → Text) (now : ℕ) where
  abbrev pub sent_write : SendRequest → ℕ → List Text → DeliveryWrite
  sent_write request claim message_ids = record {
    claim_updated_at = claim;
    date = request.date;
    failure_code = none;
    last_error = none;
    message_ids = message_ids;
    next_attempt_at = none;
    status = FinalStatus.sent;
    study_period = request.study_period;
  }

  abbrev pub error_write : SendRequest → ℕ → DeliveryError → DeliveryWrite
  error_write request claim error = record {
    claim_updated_at = claim;
    date = request.date;
    failure_code = some error.code;
    last_error = some (redact error.message);
    message_ids = [];
    next_attempt_at = error.retry_at;
    status = outcome_status error.outcome;
    study_period = request.study_period;
  }

  -- The `catch` of `deliverClaimedPeriod`
  unfoldable pub save_error : SendRequest → ℕ → DeliveryError → S → SendClosedPeriodResult × S
  save_error request claim error s =
      let saving = repository.save_delivery (error_write request claim error) s in
      (saved_result (outcome_status error.outcome) saving.0, saving.1)

  -- The rest of the `try` once the delivery is saved as sent; what saving throws is caught as well.
  abbrev pub after_save : SendRequest → ℕ → SaveResult × S → SendClosedPeriodResult × S
  after_save request claim (saved delivery, s) = (delivered FinalStatus.sent delivery, s)
  after_save request claim (lost, s) = (skipped already_sent, s)
  after_save request claim (broken error, s) =
      save_error request claim (classify_discord_webhook_error error now) s

  abbrev pub after_send : SendRequest → ℕ → SendResult → S → SendClosedPeriodResult × S
  after_send request claim (returned message_ids) s =
      after_save request claim (repository.save_delivery (sent_write request claim message_ids) s)
  after_send request claim (thrown error) s =
      save_error request claim (classify_discord_webhook_error error now) s

  abbrev pub deliver_at : SendRequest → Option ℕ → PeriodSetting → S → SendRun S
  deliver_at request none period s = record { calls = 0; result = skipped already_sent; state = s }
  deliver_at request (some claim) period s = record {
    calls = 1;
    result = (after_send request claim (sender period) s).0;
    state = (after_send request claim (sender period) s).1;
  }

  unfoldable pub deliver_claimed_period :
      SendRequest → DeliveryRecord → PeriodSetting → S → SendRun S
  deliver_claimed_period request delivery period s = deliver_at request delivery.updated_at period s

  abbrev pub stop : SkipReason → S → SendRun S
  stop reason s = record { calls = 0; result = skipped reason; state = s }

  abbrev pub deliver_if_claimed :
      SendRequest → Option PeriodSetting → Option DeliveryRecord × S → SendRun S
  deliver_if_claimed request (some period) (some delivery, s) =
      deliver_claimed_period request delivery period s
  deliver_if_claimed request none (some delivery, s) = stop not_found s
  deliver_if_claimed request period (none, s) = stop already_sent s

  abbrev pub send_unless : Option SkipReason → Option SkipReason → SendRequest → S → SendRun S
  send_unless (some reason) existing request s = stop reason s
  send_unless none (some reason) request s = stop reason s
  send_unless none none request s =
      deliver_if_claimed request (repository.get_period request.date request.study_period s)
        (repository.claim_delivery request.date request.study_period s)

  unfoldable pub send_closed_period : SendRequest → S → SendRun S
  send_closed_period request s =
      send_unless (period_skip (repository.get_period request.date request.study_period s) now)
        (delivery_skip request.manual (repository.get_delivery request.date request.study_period s)
          now)
        request s

  abbrev pub resend : SendRequest → PeriodSetting → Option Transition × S → ReconcileRun S
  resend request period (none, s) = record { calls = 0; result = conflict; state = s }
  resend request period (some transition, s) =
      let run = deliver_claimed_period request transition.0 period s in
      record {
        calls = run.calls;
        result = resent_result run.result transition.1;
        state = run.state;
      }

  abbrev pub retry_for : SendRequest → Option PeriodSetting → S → ReconcileRun S
  retry_for request none s = record { calls = 0; result = conflict; state = s }
  retry_for request (some period) s =
      if not period.enabled || not (is_closed_period_for_notification period now)
      then record { calls = 0; result = conflict; state = s }
      else resend request period
          (repository.claim_delivery_for_reconciliation request.date request.study_period s)

  unfoldable pub reconcile_closed_period : ReconcileAction → SendRequest → S → ReconcileRun S
  reconcile_closed_period (resolve action) request s =
      let resolving = repository.resolve_delivery action request.date request.study_period s in
      record { calls = 0; result = resolved_result action resolving.0; state = resolving.1 }
  reconcile_closed_period retry request s =
      retry_for request (repository.get_period request.date request.study_period s) s
