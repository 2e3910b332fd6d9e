-- ===== src/Outbox/Sync/Edits.antt =====
-- How often processDiscordSyncClaim of src/lib/discord-reservation-outbox-sync.ts edits the message, and
-- what its result tells.
use info_room_reservation_si.Prelude.{
  ℕ, ◌≤◌, ◌≡◌, refl, Bool, true, false, not, ◌&&◌, List, [], Text, count, any, arith, ltb,
}
use info_room_reservation_si.Effects.{Awaited, returned, thrown, World, continue}
use info_room_reservation_si.Outbox.{DeliveryResult, failed, unknown, DiscordReservationSnapshot}
use info_room_reservation_si.Outbox.Sync.{
  SyncRest, done, error_rest, patch_rest, prepare_sync, run_sync_rest, process_discord_sync_claim,
  deliver_leased_patch, save_sync_error,
}
use info_room_reservation_si.Outbox.SyncContracts.{
  SyncDependencies, SyncOperations, SyncClaim, SyncCall, edited, saved_failure, SyncClaimResult,
  abandoned, retried, synced, max_sync_attempts,
}
use info_room_reservation_si.Outbox.Payload.{SyncState}

abbrev pub is_edit : SyncCall → Bool
is_edit (edited answer) = true
is_edit _ = false

-- An edit of which Discord has not said that it failed.
abbrev pub is_maybe_edited : SyncCall → Bool
is_maybe_edited (edited (returned (failed code message))) = false
is_maybe_edited (edited (returned (unknown code message))) = true
is_maybe_edited (edited (returned (DeliveryResult.sent id))) = true
is_maybe_edited (edited (thrown message)) = true
is_maybe_edited _ = false

abbrev pub is_failure : SyncCall → Bool
is_failure (saved_failure input answer) = true
is_failure _ = false

abbrev pub is_edited : SyncCall → Bool
is_edited (edited (returned (DeliveryResult.sent id))) = true
is_edited _ = false

abbrev pub is_saved : SyncCall → Bool
is_saved (saved_failure input (returned true)) = true
is_saved _ = false

abbrev pub accounts : ℕ → Awaited SyncClaimResult → List SyncCall → Bool
accounts attempts (returned synced) calls = any is_edited calls && not (any is_failure calls)
accounts attempts (returned retried) calls = any is_saved calls && ltb attempts max_sync_attempts
accounts attempts (returned abandoned) calls = true
accounts attempts (thrown message) calls = true

module _ {S : Type 0} (dependencies : SyncDependencies S) (claim : SyncClaim) (now : ℕ) where
  deliver_leased_patch-edits :
      (repository : SyncOperations S) (epoch : ℕ) (secret : Text)
      (snapshot : DiscordReservationSnapshot) (state : SyncState) (w : World S SyncCall)
      → count is_edit w.calls ≡ 0
      → count is_edit
          (deliver_leased_patch dependencies claim now repository epoch secret snapshot state
            w).1.calls
        ≤ 1
  unfolding deliver_leased_patch save_sync_error
  deliver_leased_patch-edits repository epoch secret snapshot state w none_yet = ground arith

  abbrev IsPrepared : Awaited (SyncRest S) × World S SyncCall → Type 0
  IsPrepared (returned (done result), w) =
      (count is_edit w.calls ≤ 1) × (accounts claim.attempts (returned result) w.calls ≡ true)
  IsPrepared (returned (error_rest message), w) = count is_edit w.calls ≤ 1
  IsPrepared (returned (patch_rest repository epoch secret snapshot state), w) =
      (count is_edit w.calls ≡ 0) × (any is_failure w.calls ≡ false)
  IsPrepared (thrown message, w) = count is_edit w.calls ≤ 1

  prepare_sync-IsPrepared :
      (s : S) → IsPrepared (prepare_sync dependencies claim now (record { state = s; calls = [] }))
  unfolding prepare_sync
  prepare_sync-IsPrepared s = ground arith

  deliver_leased_patch-accounts :
      (repository : SyncOperations S) (epoch : ℕ) (secret : Text)
      (snapshot : DiscordReservationSnapshot) (state : SyncState) (w : World S SyncCall)
      → any is_failure w.calls ≡ false
      → accounts claim.attempts
          (deliver_leased_patch dependencies claim now repository epoch secret snapshot state w).0
          (deliver_leased_patch dependencies claim now repository epoch secret snapshot state
            w).1.calls
        ≡ true
  unfolding deliver_leased_patch save_sync_error
  deliver_leased_patch-accounts repository epoch secret snapshot state w e = ground arith

  run_sync_rest-edits :
      (r : Awaited (SyncRest S) × World S SyncCall)
      → IsPrepared r
      → (count is_edit (continue (run_sync_rest dependencies claim now) r).1.calls ≤ 1)
        × (accounts claim.attempts
              (continue (run_sync_rest dependencies claim now) r).0
              (continue (run_sync_rest dependencies claim now) r).1.calls
            ≡ true)
  unfolding save_sync_error
  run_sync_rest-edits (returned (done result), w) e = e
  run_sync_rest-edits (returned (error_rest message), w) e = ground arith
  run_sync_rest-edits (returned (patch_rest repository epoch secret snapshot state), w) e = (
    deliver_leased_patch-edits repository epoch secret snapshot state w e.0,
    deliver_leased_patch-accounts repository epoch secret snapshot state w e.1,
  )
  run_sync_rest-edits (thrown message, w) e = (e, refl)

  -- Whatever the repository and the bot answer or throw, syncing a claim edits its message at most once;
  -- synced means that an edit came through and no failure was saved, and retried that a failure was
  -- saved and the claim has had fewer than five attempts.
  pub process_discord_sync_claim-edits :
      (s : S)
      → (count is_edit
            (process_discord_sync_claim dependencies claim now
              (record { state = s; calls = [] })).1.calls
          ≤ 1)
        × (accounts claim.attempts
              (process_discord_sync_claim dependencies claim now
                (record { state = s; calls = [] })).0
              (process_discord_sync_claim dependencies claim now
                (record { state = s; calls = [] })).1.calls
            ≡ true)
  unfolding process_discord_sync_claim
  process_discord_sync_claim-edits s =
      run_sync_rest-edits (prepare_sync dependencies claim now (record { state = s; calls = [] }))
        (prepare_sync-IsPrepared s)
