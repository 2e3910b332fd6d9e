-- ===== src/Outbox/Sync/Leases.antt =====
-- Edits under a lease in src/lib/discord-reservation-outbox-sync.ts.
use info_room_reservation_si.Prelude.{
  ℕ, ◌≡◌, Bool, true, false, not, ◌&&◌, ◌||◌, some, List, [], ◌∷◌, Text, any, arith,
}
use info_room_reservation_si.Effects.{Awaited, returned, thrown, World, continue}
use info_room_reservation_si.Outbox.{DiscordReservationSnapshot}
use info_room_reservation_si.Outbox.Sync.{
  SyncRest, done, error_rest, patch_rest, prepare_sync, run_sync_rest, process_discord_sync_claim,
  deliver_leased_patch, save_sync_error,
}
use info_room_reservation_si.Outbox.SyncContracts.{
  SyncDependencies, SyncOperations, SyncClaim, SyncCall, began_patch,
}
use info_room_reservation_si.Outbox.Payload.{SyncState}
use info_room_reservation_si.Outbox.Sync.Edits.{is_edit, is_maybe_edited, is_failure}

abbrev pub is_begun : SyncCall → Bool
is_begun (began_patch (returned true)) = true
is_begun _ = false

-- An edit only under a patch that was begun, and none that may have come through beside a saved failure.
abbrev pub is_leased : List SyncCall → Bool
is_leased calls =
    (not (any is_edit calls) || any is_begun calls)
    && not (any is_maybe_edited calls && any is_failure calls)

module _ {S : Type 0} (dependencies : SyncDependencies S) (claim : SyncClaim) (now : ℕ)
    (repository : SyncOperations S) (present : dependencies.operations ≡ some repository) where
  abbrev IsBegun : Awaited (SyncRest S) × World S SyncCall → Type 0
  IsBegun (returned (done result), w) = any is_edit w.calls ≡ false
  IsBegun (returned (error_rest message), w) = any is_edit w.calls ≡ false
  IsBegun (returned (patch_rest operations epoch secret snapshot state), w) =
      (any is_begun w.calls ≡ true)
      × (any is_maybe_edited w.calls ≡ false)
      × (any is_failure w.calls ≡ false)
  IsBegun (thrown message, w) = any is_edit w.calls ≡ false

  any-is_maybe_edited :
      (calls : List SyncCall) → any is_edit calls ≡ false → any is_maybe_edited calls ≡ false
  any-is_maybe_edited [] e = ground arith
  any-is_maybe_edited (c ∷ calls) e = ground (arith, any-is_maybe_edited calls)

  prepare_sync-IsBegun :
      (s : S) → IsBegun (prepare_sync dependencies claim now (record { state = s; calls = [] }))
  unfolding prepare_sync
  prepare_sync-IsBegun s = ground arith

  deliver_leased_patch-is_leased :
      (operations : SyncOperations S) (epoch : ℕ) (secret : Text)
      (snapshot : DiscordReservationSnapshot) (state : SyncState) (w : World S SyncCall)
      → (any is_begun w.calls ≡ true)
        × (any is_maybe_edited w.calls ≡ false)
        × (any is_failure w.calls ≡ false)
      → is_leased
          (deliver_leased_patch dependencies claim now operations epoch secret snapshot state
            w).1.calls
        ≡ true
  unfolding deliver_leased_patch save_sync_error
  deliver_leased_patch-is_leased operations epoch secret snapshot state w e = ground arith

  run_sync_rest-is_leased :
      (r : Awaited (SyncRest S) × World S SyncCall)
      → IsBegun r
      → is_leased (continue (run_sync_rest dependencies claim now) r).1.calls ≡ true
  unfolding save_sync_error
  run_sync_rest-is_leased (returned (done result), w) e =
      ground (arith, any-is_maybe_edited w.calls)
  run_sync_rest-is_leased (returned (error_rest message), w) e =
      ground (arith, any-is_maybe_edited w.calls)
  run_sync_rest-is_leased (returned (patch_rest operations epoch secret snapshot state), w) e =
      deliver_leased_patch-is_leased operations epoch secret snapshot state w e
  run_sync_rest-is_leased (thrown message, w) e = ground (arith, any-is_maybe_edited w.calls)

  -- Where the repository keeps operations, a message is edited only under a patch that was begun there,
  -- and no failure is saved beside an edit of which Discord has not said that it failed.
  pub process_discord_sync_claim-is_leased :
      (s : S)
      → is_leased
          (process_discord_sync_claim dependencies claim now
            (record { state = s; calls = [] })).1.calls
        ≡ true
  unfolding process_discord_sync_claim
  process_discord_sync_claim-is_leased s =
      run_sync_rest-is_leased
        (prepare_sync dependencies claim now (record { state = s; calls = [] }))
        (prepare_sync-IsBegun s)
