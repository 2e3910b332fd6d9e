-- ===== src/DiscordRepair/Policy.antt =====
-- What the decisions exclude.
use info_room_reservation_si.Prelude.{
  ℕ, ◌≡◌, ◌↔◌, ◌⊎◌, Bool, true, false, Option, some, Text, arith, any,
}
use info_room_reservation_si.DiscordRepair.{
  DiscordRepairAction, retry, DiscordRemoteVerificationState, unique, DiscordRepairState,
  initial_send_failed, initial_send_retry, bind_message, DiscordOperationsControlState,
  DiscordOperationStage, allowed, get_discord_repair_actions, decide_discord_remote_verification,
  evaluate_discord_operation_fence,
}

-- Whether a state can send the first message again.
abbrev pub is_retry : DiscordRepairAction → Bool
is_retry retry = true
is_retry _ = false

-- A new first message is offered exactly for a send that definitely failed and has attempts left; and
-- whatever is verified of a send under review, the decision lets nobody send again or forget it.
pub get_discord_repair_actions-retry :
    (state : DiscordRepairState) (message_id : Option Text)
    (verification : DiscordRemoteVerificationState)
    → ((any is_retry (get_discord_repair_actions state) ≡ true)
        ↔ ((state ≡ initial_send_failed false) ⊎ (state ≡ initial_send_retry false)))
      × ((decide_discord_remote_verification message_id verification).can_retry_post ≡ false)
      × ((decide_discord_remote_verification message_id verification).can_delete_tombstone ≡ false)
unfolding get_discord_repair_actions decide_discord_remote_verification
get_discord_repair_actions-retry state message_id verification = ground arith

-- A message is bound only if it is named and verified to be the only one.
pub decide_discord_remote_verification-bind_message_iff :
    (message_id : Option Text) (verification : DiscordRemoteVerificationState) (bound : Text)
    → ((decide_discord_remote_verification message_id verification).kind ≡ bind_message bound)
      ↔ ((verification ≡ unique) × (message_id ≡ some bound))
unfolding decide_discord_remote_verification
decide_discord_remote_verification-bind_message_iff message_id verification bound = ground arith

-- An operation passes its fence, at whatever stage, exactly when operations are enabled, no cleanup is
-- pending and the epoch is still the one that it began with.
pub evaluate_discord_operation_fence-allowed_iff :
    (control : DiscordOperationsControlState) (expected_epoch epoch : ℕ)
    (stage : DiscordOperationStage)
    → (evaluate_discord_operation_fence control expected_epoch stage ≡ allowed epoch) ↔ (
        (control.enabled ≡ true)
        × (control.pending_remote_cleanup ≡ false)
        × (expected_epoch ≡ control.epoch)
        × (epoch ≡ expected_epoch))
unfolding evaluate_discord_operation_fence
evaluate_discord_operation_fence-allowed_iff control expected_epoch epoch stage = ground arith
