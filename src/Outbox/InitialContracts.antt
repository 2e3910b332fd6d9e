-- ===== src/Outbox/InitialContracts.antt =====
-- What src/lib/discord-reservation-outbox-initial.ts is given, and the calls that a run of it lists.
use info_room_reservation_si.Prelude.{ℕ, Bool, Option, Text}
use info_room_reservation_si.DiscordRepair.{DiscordOperationsControlState}
use info_room_reservation_si.Effects.{Awaited, Operation}
use info_room_reservation_si.Outbox.{
  DiscordReservationSnapshot, SnapshotResult, DeliveryResult, ConfigRead,
}

-- `DiscordInitialSendClaim`
pub record InitialSendClaim : Type 0 where
  pub attempts : ℕ
  pub claim_id : Text
  pub nonce : Text
  pub outcome : Option Text
  pub reservation_id : Text

pub record InitialFailureInput : Type 0 where
  pub attempts : ℕ
  pub claim_id : Text
  pub error : Text
  pub now : ℕ
  pub outcome : Text
  pub reservation_id : Text
  pub retryable : Bool

pub record InitialSuccessInput : Type 0 where
  pub channel_id : Text
  pub claim_id : Text
  pub guild_id : Text
  pub message_id : Text
  pub rendered_source_epoch : ℕ
  pub reservation_id : Text
  pub sent_at : ℕ

pub record BeginPostInput : Type 0 where
  pub boundary : Text
  pub claim_id : Text
  pub deadline_at : ℕ
  pub epoch : ℕ
  pub nonce : Text
  pub operation_id : Text
  pub reservation_id : Text

-- `ReservationCreatedNotificationResult`, with the reasons `disabled` and `webhook_missing`
pub data WebhookResult : Type 0 where
  webhook_sent webhook_disabled webhook_missing : WebhookResult
  webhook_failed : Text → WebhookResult

-- `OperationsRepository`, which a repository need not be
pub record OperationsRepository (S : Type 0) : Type 0 where
  pub begin_initial_send_post : BeginPostInput → Operation S Bool
  -- the claim, the reason and the reservation
  pub mark_initial_send_pending_review : Text → Text → Text → Operation S Bool
  pub read_operations_control : Operation S DiscordOperationsControlState

-- `DiscordReservationOutboxDependencies`, as far as an initial send uses them
pub record InitialDependencies (S : Type 0) : Type 0 where
  -- the claim, the outcome and the reservation
  pub begin_initial_send_terminal_delivery : Text → Text → Text → Operation S Bool
  -- the channel, what the payload is built from, and the reservation
  pub create_channel_message :
      Text → DiscordReservationSnapshot → Text → ℕ → Text → Operation S DeliveryResult
  pub get_application_config : S → ConfigRead
  -- whether notifications of created reservations are enabled
  pub get_notification_settings : Operation S Bool
  pub get_webhook_url : Operation S (Option Text)
  pub load_snapshot : Text → Operation S SnapshotResult
  pub operations : Option (OperationsRepository S)
  pub save_initial_send_failure : InitialFailureInput → Operation S Bool
  pub save_initial_send_success : InitialSuccessInput → Operation S Bool
  pub send_webhook : DiscordReservationSnapshot → Bool → Option Text → Operation S WebhookResult

-- The calls that a run lists, with their answers.
pub data InitialCall : Type 0 where
  began_post : Awaited Bool → InitialCall
  posted : Awaited DeliveryResult → InitialCall
  began_webhook : Awaited Bool → InitialCall
  sent_webhook : Awaited WebhookResult → InitialCall
  saved_failure : InitialFailureInput → Awaited Bool → InitialCall
  saved_success : InitialSuccessInput → Awaited Bool → InitialCall
  marked_review : Text → Awaited Bool → InitialCall

pub data InitialClaimResult : Type 0 where
  retried review sent terminal : InitialClaimResult
