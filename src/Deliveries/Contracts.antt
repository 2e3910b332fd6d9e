-- ===== src/Deliveries/Contracts.antt =====
-- What src/lib/closed-period-notification-service.ts is given and answers, with the classification of
-- errors of src/lib/discord-notifications.ts.
use info_room_reservation_si.Prelude.{
  ℕ, ◌+◌, Bool, Option, none, some, List, ◌++◌, Text, codes, number_text,
}
use info_room_reservation_si.StudyPeriods.{StudyPeriod}
use info_room_reservation_si.PeriodSettings.{PeriodSetting}
use info_room_reservation_si.Deliveries.{
  DeliveryRecord, FinalStatus, DeliveryWrite, ResolveAction, Transition,
}

-- An error never has the outcome `SENT`.
pub data DeliveryOutcome : Type 0 where
  failed unknown : DeliveryOutcome

-- The errors of a delivery, as `classifyDiscordWebhookError` tells them apart.
pub data SendError : Type 0 where
  -- DiscordWebhookDeliveryError: code, message, outcome and the time of a retry
  delivery_error : Text → Text → DeliveryOutcome → Option ℕ → SendError
  timeout_error network_error : Text → SendError
  -- HTTPError: the status, the message, and the retry time that the headers give
  http_error : ℕ → Text → Option ℕ → SendError
  other_error : Text → SendError

-- `DiscordWebhookDeliveryError`
pub record DeliveryError : Type 0 where
  pub code : Text
  pub message : Text
  pub outcome : DeliveryOutcome
  pub retry_at : Option ℕ

abbrev pub or_minute : Option ℕ → ℕ → Option ℕ
or_minute none now = some (now + 60000)
or_minute (some at) now = some at

unfoldable pub classify_discord_webhook_error : SendError → ℕ → DeliveryError
classify_discord_webhook_error (delivery_error code message outcome retry_at) now = record {
  code = code;
  message = message;
  outcome = outcome;
  retry_at = retry_at;
}
classify_discord_webhook_error (timeout_error message) now = record {
  code = codes "discord_timeout";
  message = message;
  outcome = DeliveryOutcome.unknown;
  retry_at = none;
}
classify_discord_webhook_error (network_error message) now = record {
  code = codes "discord_network_error";
  message = message;
  outcome = DeliveryOutcome.unknown;
  retry_at = none;
}
classify_discord_webhook_error (http_error status message retry_at) now = record {
  code = codes "discord_http_" ++ number_text status;
  message = message;
  outcome = DeliveryOutcome.failed;
  retry_at = or_minute retry_at now;
}
classify_discord_webhook_error (other_error message) now = record {
  code = codes "discord_send_failed";
  message = message;
  outcome = DeliveryOutcome.failed;
  retry_at = some (now + 60000);
}

pub data SendResult : Type 0 where
  returned : List Text → SendResult
  thrown : SendError → SendResult

-- What saving a delivery does: the record, `null` where the claim is lost, or an error that it throws.
pub data SaveResult : Type 0 where
  saved : DeliveryRecord → SaveResult
  lost : SaveResult
  broken : SendError → SaveResult

-- `ClosedPeriodNotificationRepository`, whose operations act on a state
pub record DeliveryRepository (S : Type 0) : Type 0 where
  pub claim_delivery : Text → StudyPeriod → S → Option DeliveryRecord × S
  pub claim_delivery_for_reconciliation : Text → StudyPeriod → S → Option Transition × S
  pub get_delivery : Text → StudyPeriod → S → Option DeliveryRecord
  pub get_period : Text → StudyPeriod → S → Option PeriodSetting
  pub resolve_delivery : ResolveAction → Text → StudyPeriod → S → Option Transition × S
  pub save_delivery : DeliveryWrite → S → SaveResult × S

pub data SkipReason : Type 0 where
  already_sent needs_reconciliation not_closed not_found : SkipReason

-- `SendClosedPeriodResult`, with the error that a second failing save lets out
pub data SendClosedPeriodResult : Type 0 where
  delivered : FinalStatus → DeliveryRecord → SendClosedPeriodResult
  skipped : SkipReason → SendClosedPeriodResult
  escaped : SendError → SendClosedPeriodResult

-- A run: how often it calls the sender, what it returns, and the state after it.
pub record SendRun (S : Type 0) : Type 0 where
  pub calls : ℕ
  pub result : SendClosedPeriodResult
  pub state : S

pub record SendRequest : Type 0 where
  pub date : Text
  pub manual : Bool
  pub study_period : StudyPeriod
