-- ===== src/Outbox/SyncContracts.antt =====
-- What src/lib/discord-reservation-outbox-sync.ts is given, and the calls that a run of it lists.
use info_room_reservation_si.Prelude.{ℕ, Bool, Option, Text}
use info_room_reservation_si.DiscordRepair.{DiscordOperationsControlState}
use info_room_reservation_si.Effects.{Awaited, Operation}
use info_room_reservation_si.Outbox.{SnapshotResult, DeliveryResult, ConfigRead}
use info_room_reservation_si.Outbox.Payload.{SyncState, SyncPayload}

-- `DiscordMessageSyncClaim`, without the guild, which is not used
pub record SyncClaim : Type 0 where
  pub attempts : ℕ
  pub channel_id : Text
  pub claim_id : Text
  pub message_id : Text
  pub reservation_id : Text
  pub revision : ℕ

-- `lease` holds the epoch and the operation, where there is a lease.
pub record SyncFailureInput : Type 0 where
  pub attempts : ℕ
  pub claim_id : Text
  pub error : Text
  pub lease : Option (ℕ × Text)
  pub now : ℕ
  pub reservation_id : Text
  pub retryable : Bool
  pub revision : ℕ

pub record SyncSuccessInput : Type 0 where
  pub claim_id : Text
  pub lease : Option (ℕ × Text)
  pub reservation_id : Text
  pub revision : ℕ
  pub synced_at : ℕ

pub record BeginPatchInput : Type 0 where
  pub claim_id : Text
  pub deadline_at : ℕ
  pub epoch : ℕ
  pub operation_id : Text
  pub reservation_id : Text
  pub revision : ℕ

pub record ReviewInput : Type 0 where
  pub claim_id : Text
  pub operation_id : Option Text
  pub reason : Text
  pub reservation_id : Text
  pub revision : ℕ

-- `SyncOperationsRepository`, which a repository need not be
pub record SyncOperations (S : Type 0) : Type 0 where
  pub begin_sync_patch : BeginPatchInput → Operation S Bool
  pub mark_sync_pending_review : ReviewInput → Operation S Bool
  pub read_operations_control : Operation S DiscordOperationsControlState
  pub save_leased_sync_success : SyncSuccessInput → Operation S Bool

-- `DiscordReservationOutboxDependencies`, as far as a sync uses them; the channel and the message go
-- before the payload.
pub record SyncDependencies (S : Type 0) : Type 0 where
  pub edit_channel_message : Text → Text → SyncPayload → Operation S DeliveryResult
  pub environment_token : Option Text
  pub get_application_config : S → ConfigRead
  pub load_snapshot : Text → Operation S SnapshotResult
  pub operations : Option (SyncOperations S)
  pub read_message_sync_state : Text → Operation S (Option SyncState)
  pub save_sync_failure : SyncFailureInput → Operation S Bool
  pub save_sync_success : SyncSuccessInput → Operation S Bool

pub data SyncCall : Type 0 where
  began_patch : Awaited Bool → SyncCall
  edited : Awaited DeliveryResult → SyncCall
  saved_failure : SyncFailureInput → Awaited Bool → SyncCall
  saved_success : SyncSuccessInput → Awaited Bool → SyncCall
  marked_review : ReviewInput → Awaited Bool → SyncCall

pub data SyncClaimResult : Type 0 where
  abandoned retried synced : SyncClaimResult

abbrev pub max_sync_attempts : ℕ
max_sync_attempts = 5
