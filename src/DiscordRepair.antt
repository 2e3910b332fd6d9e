-- ===== src/DiscordRepair.antt =====
-- What administrators and workers may do about Discord messages: the pure decisions of
-- src/lib/discord-operations-repair-policy.ts. States that its types exclude are not modelled.
pub mod Policy
use info_room_reservation_si.Prelude.{
  ℕ, Bool, true, false, Option, none, some, List, [], ◌∷◌, Text, length, ltb, ◌==◌, not,
  if◌then◌else◌,
}

pub data DiscordRepairAction : Type 0 where
  retry verify_remote sync remove_controls abandon : DiscordRepairAction

pub data DiscordRemoteVerificationState : Type 0 where
  error multiple not_started partial : DiscordRemoteVerificationState
  unique zero_complete zero_partial : DiscordRemoteVerificationState

-- The state of an initial send that failed, with whether its attempts are exhausted; one under review;
-- the states of a message that was sent; and those without a known message.
pub data DiscordRepairState : Type 0 where
  initial_send_failed initial_send_retry : Bool → DiscordRepairState
  initial_send_pending_review : DiscordRemoteVerificationState → DiscordRepairState
  source_sync : Text → DiscordRepairState
  source_controls_stale source_controls_terminal : Text → DiscordRepairState
  unresolved_exhausted unresolved : DiscordRepairState
  healthy : DiscordRepairState

pub data VerificationKind : Type 0 where
  bind_message : Text → VerificationKind
  continue_review : VerificationKind

pub record DiscordRemoteVerificationDecision : Type 0 where
  pub can_delete_tombstone : Bool
  pub can_retry_post : Bool
  pub kind : VerificationKind

pub record DiscordOperationsControlState : Type 0 where
  pub enabled : Bool
  pub epoch : ℕ
  pub pending_remote_cleanup : Bool

pub data DiscordOperationStage : Type 0 where
  claim initial_post mutation source_patch : DiscordOperationStage

pub data DiscordOperationFenceResult : Type 0 where
  allowed : ℕ → DiscordOperationFenceResult
  disabled draining : DiscordOperationFenceResult
  -- the actual and the expected epoch
  stale_epoch : ℕ → ℕ → DiscordOperationFenceResult

-- `sourceMessageId.length > 0 ? [action] : []`
abbrev pub if_named : Text → DiscordRepairAction → List DiscordRepairAction
if_named source_message_id action = if ltb 0 (length source_message_id) then action ∷ [] else []

unfoldable pub get_discord_repair_actions : DiscordRepairState → List DiscordRepairAction
get_discord_repair_actions (initial_send_failed attempts_exhausted) =
    if attempts_exhausted then [] else retry ∷ []
get_discord_repair_actions (initial_send_retry attempts_exhausted) =
    if attempts_exhausted then [] else retry ∷ []
get_discord_repair_actions (initial_send_pending_review verification) = verify_remote ∷ []
get_discord_repair_actions (source_sync source_message_id) = if_named source_message_id sync
get_discord_repair_actions (source_controls_stale source_message_id) =
    if_named source_message_id remove_controls
get_discord_repair_actions (source_controls_terminal source_message_id) =
    if_named source_message_id remove_controls
get_discord_repair_actions unresolved_exhausted = abandon ∷ []
get_discord_repair_actions unresolved = abandon ∷ []
get_discord_repair_actions healthy = []

abbrev pub decide : VerificationKind → DiscordRemoteVerificationDecision
decide kind = record { can_delete_tombstone = false; can_retry_post = false; kind = kind }

unfoldable pub decide_discord_remote_verification :
    Option Text → DiscordRemoteVerificationState → DiscordRemoteVerificationDecision
decide_discord_remote_verification none unique = decide continue_review
decide_discord_remote_verification (some message_id) unique = decide (bind_message message_id)
decide_discord_remote_verification message_id error = decide continue_review
decide_discord_remote_verification message_id multiple = decide continue_review
decide_discord_remote_verification message_id not_started = decide continue_review
decide_discord_remote_verification message_id partial = decide continue_review
decide_discord_remote_verification message_id zero_complete = decide continue_review
decide_discord_remote_verification message_id zero_partial = decide continue_review

unfoldable pub evaluate_discord_operation_fence :
    DiscordOperationsControlState → ℕ → DiscordOperationStage → DiscordOperationFenceResult
evaluate_discord_operation_fence control expected_epoch stage =
    if not control.enabled
    then disabled
    else if control.pending_remote_cleanup
    then draining
    else if not (expected_epoch == control.epoch)
    then stale_epoch control.epoch expected_epoch
    else allowed control.epoch
