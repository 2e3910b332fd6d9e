-- ===== src/Maintenance/Isolation.antt =====
-- What throws in a run of src/lib/maintenance-service.ts, and what does not.
use info_room_reservation_si.Prelude.{
  ℕ, zero, suc, ◌+◌, ◌≡◌, refl, Bool, true, false, Option, none, some, Text, arith,
}
use info_room_reservation_si.Effects.{
  Awaited, returned, thrown, World, Operation, Action, continue, call,
}
use info_room_reservation_si.Maintenance.{
  BatchResult, DrainResult, MaintenanceCall, expired, Stage, sessions, csrf_tokens,
  rate_limit_buckets, restrictions, sanctions, drain_from, after_batch, drain_expiry_batches,
  run_discord_stage, DiscordCleanupStore, CleanupStore, run_maintenance_cleanup, max_expiry_batches,
}

module _ {A : Type 0} where
  abbrev pub is_returned : Awaited A → Bool
  is_returned (returned a) = true
  is_returned (thrown message) = false

module _ {S A : Type 0} where
  abbrev pub NeverThrows : Operation S A → Type 0
  NeverThrows operation = (s : S) → is_returned (operation s).0 ≡ true

module _ {S E A B : Type 0} where
  continue-returns :
      (f : A → Action S E B) (r : Awaited A × World S E)
      → is_returned r.0 ≡ true
      → ((a : A) (w : World S E) → is_returned (f a w).0 ≡ true)
      → is_returned (continue f r).0 ≡ true
  continue-returns f (returned a, w) e next = next a w
  continue-returns f (thrown message, w) e next = ground arith

module _ {S R : Type 0} where
  after_batch-returns :
      (failure : Option Text) (more : Bool) (left processed remaining : ℕ)
      (next : Action S (MaintenanceCall R) DrainResult) (w : World S (MaintenanceCall R))
      → is_returned (next w).0 ≡ true
      → is_returned (after_batch failure more left processed remaining next w).0 ≡ true
  after_batch-returns (some code) more left processed remaining next w e = refl
  after_batch-returns none false left processed remaining next w e = refl
  after_batch-returns none true zero processed remaining next w e = refl
  after_batch-returns none true (suc left) processed remaining next w e = e

  drain_from-returns :
      (stage : Stage) (expire_batch : Operation S BatchResult)
      → NeverThrows expire_batch
      → (left processed : ℕ) (w : World S (MaintenanceCall R))
      → is_returned (drain_from stage expire_batch left processed w).0 ≡ true
  unfolding drain_from
  drain_from-returns stage expire_batch never zero processed w = refl
  drain_from-returns stage expire_batch never (suc left) processed w =
      continue-returns
        (λ (batch : BatchResult).
          after_batch batch.failure_code batch.has_more left (processed + batch.processed_count)
            batch.remaining_lower_bound
            (drain_from stage expire_batch left (processed + batch.processed_count)))
        (call (expired stage) expire_batch w) (never w.state)
        (λ batch u.
          after_batch-returns batch.failure_code batch.has_more left
            (processed + batch.processed_count) batch.remaining_lower_bound
            (drain_from stage expire_batch left (processed + batch.processed_count)) u
            (drain_from-returns stage expire_batch never left (processed + batch.processed_count)
              u))

  drain_expiry_batches-returns :
      (stage : Stage) (expire_batch : Operation S BatchResult)
      → NeverThrows expire_batch
      → (w : World S (MaintenanceCall R))
      → is_returned (drain_expiry_batches stage expire_batch w).0 ≡ true
  unfolding drain_expiry_batches
  drain_expiry_batches-returns stage expire_batch never w =
      drain_from-returns stage expire_batch never max_expiry_batches 0 w

  run_discord_stage-returns :
      (code : Text) (stage : Stage) (job : Operation S BatchResult)
      (w : World S (MaintenanceCall R))
      → is_returned (run_discord_stage code stage job w).0 ≡ true
  unfolding run_discord_stage
  run_discord_stage-returns code stage job w = ground arith

  -- Where no batch of the store and no retention policy throws, a run returns, whatever throws at
  -- Discord.
  pub run_maintenance_cleanup-returns :
      (discord : DiscordCleanupStore S) (store : CleanupStore S R) (now : ℕ)
      → NeverThrows (store.delete_expired_sessions now)
      → NeverThrows (store.delete_expired_csrf_tokens now)
      → NeverThrows (store.delete_expired_rate_limit_buckets now)
      → NeverThrows (store.release_expired_restrictions now)
      → NeverThrows (store.revoke_expired_sanctions now)
      → NeverThrows (store.apply_retention_policy now)
      → (w : World S (MaintenanceCall R))
      → is_returned (run_maintenance_cleanup discord store now w).0 ≡ true
  unfolding run_maintenance_cleanup
  run_maintenance_cleanup-returns discord store now a b c d e f w = grind (
    arith,
    run_discord_stage-returns,
    λ (u : World S (MaintenanceCall R)).
        drain_expiry_batches-returns sessions (store.delete_expired_sessions now) a u,
    λ (u : World S (MaintenanceCall R)).
        drain_expiry_batches-returns csrf_tokens (store.delete_expired_csrf_tokens now) b u,
    λ (u : World S (MaintenanceCall R)).
        drain_expiry_batches-returns rate_limit_buckets
          (store.delete_expired_rate_limit_buckets now) c u,
    λ (u : World S (MaintenanceCall R)).
        drain_expiry_batches-returns restrictions (store.release_expired_restrictions now) d u,
    λ (u : World S (MaintenanceCall R)).
        drain_expiry_batches-returns sanctions (store.revoke_expired_sanctions now) e u,
  )
