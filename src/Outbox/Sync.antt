-- ===== src/Outbox/Sync.antt =====
-- `processDiscordSyncClaim` of src/lib/discord-reservation-outbox-sync.ts over any repository and bot.
-- What a payload is built from stands for the payload.
pub mod Edits
pub mod Leases
use info_room_reservation_si.Prelude.{
  ℕ, ◌+◌, Bool, true, false, not, ◌&&◌, ◌||◌, Option, none, some, List, [], ◌∷◌, Text, codes,
  text_eq, ltb, if◌then◌else◌,
}
use info_room_reservation_si.Reservations.{ReservationStatus, confirmed, cancelled, no_show}
use info_room_reservation_si.DiscordRepair.{DiscordOperationsControlState}
use info_room_reservation_si.Effects.{
  Awaited, returned, thrown, World, Operation, Action, pure, look, call, ◌>>=◌, ◌>>◌, try,
}
use info_room_reservation_si.Outbox.{
  DiscordReservationSnapshot, SnapshotResult, not_found, ready, stale, DeliveryResult, failed,
  unknown, ApplicationConfig, ConfigRead, configured, unconfigured, invalid, broken,
}
use info_room_reservation_si.Outbox.Payload.{
  SyncState, SyncAction, SyncMessage, cancelled_message, no_show_message, accepted_message,
  initial_message, stale_message, SyncPayload, operation_label, status_label, action_of,
  sync_action, decided_message, message_of, sync_payload,
}
use info_room_reservation_si.Outbox.SyncContracts.{
  SyncClaim, SyncFailureInput, SyncSuccessInput, BeginPatchInput, ReviewInput, SyncOperations,
  SyncDependencies, SyncCall, began_patch, edited, saved_failure, saved_success, marked_review,
  SyncClaimResult, abandoned, retried, synced, max_sync_attempts,
}

-- What is left to do after the `try`, since its promise is returned without being awaited: nothing,
-- saving an error, or the patch under a lease.
pub data SyncRest (S : Type 0) : Type 0 where
  done : SyncClaimResult → SyncRest S
  error_rest : Text → SyncRest S
  patch_rest : SyncOperations S → ℕ → Text → DiscordReservationSnapshot → SyncState → SyncRest S

-- The same of the patch under a lease.
pub data LeaseRest : Type 0 where
  lease_done : SyncClaimResult → LeaseRest
  lease_error : Text → LeaseRest

abbrev pub source_of : SnapshotResult → Option DiscordReservationSnapshot
source_of not_found = none
source_of (ready snapshot) = some snapshot
source_of (stale snapshot) = some snapshot

module _ {S : Type 0} (dependencies : SyncDependencies S) (claim : SyncClaim) (now : ℕ) where
  abbrev pub Step : Type 0 → Type 0
  Step A = Action S SyncCall A

  abbrev pub sync_failure_of : Option (ℕ × Text) → Text → SyncFailureInput
  sync_failure_of lease error = record {
    attempts = claim.attempts;
    claim_id = claim.claim_id;
    error = error;
    lease = lease;
    now = now;
    reservation_id = claim.reservation_id;
    retryable = ltb claim.attempts max_sync_attempts;
    revision = claim.revision;
  }

  unfoldable pub save_sync_error : Option (ℕ × Text) → Text → Step SyncClaimResult
  save_sync_error lease error = do
    saved ←
        call (saved_failure (sync_failure_of lease error))
          (dependencies.save_sync_failure (sync_failure_of lease error))
    pure (if saved && ltb claim.attempts max_sync_attempts then retried else abandoned)

  abbrev pub review_of : Option Text → Text → ReviewInput
  review_of operation_id reason = record {
    claim_id = claim.claim_id;
    operation_id = operation_id;
    reason = reason;
    reservation_id = claim.reservation_id;
    revision = claim.revision;
  }

  abbrev pub abandon_for_review : SyncOperations S → Option Text → Text → Step SyncClaimResult
  abandon_for_review repository operation_id reason =
      call (marked_review (review_of operation_id reason))
        (repository.mark_sync_pending_review (review_of operation_id reason))
      >> pure abandoned

  abbrev pub sync_success_of : Option (ℕ × Text) → SyncSuccessInput
  sync_success_of lease = record {
    claim_id = claim.claim_id;
    lease = lease;
    reservation_id = claim.reservation_id;
    revision = claim.revision;
    synced_at = now;
  }

  abbrev pub edit : SyncPayload → Step DeliveryResult
  edit payload =
      call edited (dependencies.edit_channel_message claim.channel_id claim.message_id payload)

  abbrev pub after_leased_edit : SyncOperations S → ℕ → DeliveryResult → Step LeaseRest
  after_leased_edit repository epoch (DeliveryResult.sent message_id) = do
    saved ←
        call (saved_success (sync_success_of (some (epoch, claim.claim_id))))
          (repository.save_leased_sync_success (sync_success_of (some (epoch, claim.claim_id))))
    pure (lease_done (if saved then synced else abandoned))
  after_leased_edit repository epoch (failed code message) = pure (lease_error message)
  after_leased_edit repository epoch (unknown code message) =
      abandon_for_review repository (some claim.claim_id) code >>= λ result.
      pure (lease_done result)

  abbrev pub run_leased_rest : ℕ → LeaseRest → Step SyncClaimResult
  run_leased_rest epoch (lease_done result) = pure result
  run_leased_rest epoch (lease_error message) =
      save_sync_error (some (epoch, claim.claim_id)) message

  unfoldable pub deliver_leased_patch :
      SyncOperations S → ℕ → Text → DiscordReservationSnapshot → SyncState → Step SyncClaimResult
  deliver_leased_patch repository epoch secret snapshot state =
      try
        (edit
            (sync_payload dependencies.environment_token snapshot state (some secret) (some epoch))
          >>= after_leased_edit repository epoch)
        (λ message. abandon_for_review repository (some claim.claim_id) message >>= λ result.
          pure (lease_done result))
      >>= run_leased_rest epoch

  abbrev pub begin_patch_of : ℕ → BeginPatchInput
  begin_patch_of epoch = record {
    claim_id = claim.claim_id;
    deadline_at = now + 10000;
    epoch = epoch;
    operation_id = claim.claim_id;
    reservation_id = claim.reservation_id;
    revision = claim.revision;
  }

  abbrev pub after_patch_begin :
      SyncOperations S
      → ℕ
      → Text
      → DiscordReservationSnapshot
      → SyncState
      → Bool
      → Step (SyncRest S)
  after_patch_begin repository epoch secret snapshot state true =
      pure (patch_rest repository epoch secret snapshot state)
  after_patch_begin repository epoch secret snapshot state false =
      abandon_for_review repository none (codes "PATCH_LEASE_REJECTED") >>= λ result.
      pure (done result)

  abbrev pub after_control :
      SyncOperations S
      → Text
      → DiscordReservationSnapshot
      → SyncState
      → DiscordOperationsControlState
      → Step (SyncRest S)
  after_control repository secret snapshot state control w =
      if not control.enabled || control.pending_remote_cleanup
      then (returned (error_rest (codes "discord_operations_disabled")), w)
      else (call began_patch (repository.begin_sync_patch (begin_patch_of control.epoch))
            >>= after_patch_begin repository control.epoch secret snapshot state)
          w

  abbrev pub after_edit : DeliveryResult → Step (SyncRest S)
  after_edit (DeliveryResult.sent message_id) =
      call (saved_success (sync_success_of none))
        (dependencies.save_sync_success (sync_success_of none))
      >> pure (done synced)
  after_edit (failed code message) = pure (error_rest message)
  after_edit (unknown code message) = pure (error_rest message)

  abbrev pub patch_by :
      Option (SyncOperations S) → Text → DiscordReservationSnapshot → SyncState → Step (SyncRest S)
  patch_by (some repository) secret snapshot state =
      look repository.read_operations_control >>= after_control repository secret snapshot state
  patch_by none secret snapshot state =
      edit (sync_payload dependencies.environment_token snapshot state none none) >>= after_edit

  -- Without a source there is nothing to sync.
  abbrev pub after_sources :
      Option DiscordReservationSnapshot → Option SyncState → ConfigRead → Step (SyncRest S)
  after_sources source state (invalid message) w = (thrown message, w)
  after_sources source state (broken message) w = (thrown message, w)
  after_sources source state unconfigured w =
      (returned (error_rest (codes "discord_source_unavailable")), w)
  after_sources none state (configured config) w =
      (returned (error_rest (codes "discord_source_unavailable")), w)
  after_sources (some snapshot) none (configured config) w =
      (returned (error_rest (codes "discord_source_unavailable")), w)
  after_sources (some snapshot) (some state) (configured config) w =
      patch_by dependencies.operations config.bot_token snapshot state w

  unfoldable pub prepare_sync : Step (SyncRest S)
  prepare_sync =
      try
        (do
          source ← look (dependencies.load_snapshot claim.reservation_id)
          state ← look (dependencies.read_message_sync_state claim.reservation_id)
          λ w.
              after_sources (source_of source) state (dependencies.get_application_config w.state)
                w)
        (λ message. pure (error_rest message))

  abbrev pub run_sync_rest : SyncRest S → Step SyncClaimResult
  run_sync_rest (done result) = pure result
  run_sync_rest (error_rest message) = save_sync_error none message
  run_sync_rest (patch_rest repository epoch secret snapshot state) =
      deliver_leased_patch repository epoch secret snapshot state

  unfoldable pub process_discord_sync_claim : Step SyncClaimResult
  process_discord_sync_claim = prepare_sync >>= run_sync_rest
