-- ===== src/Maintenance.antt =====
-- The clean-up of src/lib/maintenance-service.ts over any store. Events are not logged, and the result of
-- the retention policy is passed on as it is.
pub mod Drained
pub mod Isolation
pub mod Ledger
pub mod Scan
use info_room_reservation_si.Prelude.{
  ℕ, zero, suc, ◌+◌, ◌≡◌, Bool, true, false, Option, none, some, List, [], ◌∷◌, Text, codes,
}
use info_room_reservation_si.Effects.{
  Awaited, World, Operation, Action, pure, call, ◌>>=◌, ◌>>◌, try,
}

-- `MaintenanceExpiryBatchResult`
pub record BatchResult : Type 0 where
  pub failure_code : Option Text
  pub has_more : Bool
  pub processed_count : ℕ
  pub remaining_lower_bound : ℕ

pub record DrainResult : Type 0 where
  pub failure_code : Option Text
  pub processed_count : ℕ
  pub remaining_lower_bound : ℕ

-- The stages of a run, in their order.
pub data Stage : Type 0 where
  discord_messages discord_interaction_jobs discord_interaction_receipts : Stage
  sessions csrf_tokens rate_limit_buckets restrictions sanctions : Stage

-- `DiscordMaintenanceCleanupStore`
pub record DiscordCleanupStore (S : Type 0) : Type 0 where
  pub delete_expired_interaction_jobs : ℕ → Operation S BatchResult
  pub delete_expired_interaction_receipts : ℕ → Operation S BatchResult
  pub delete_expired_messages : ℕ → Operation S BatchResult

-- `MaintenanceCleanupStore`; `R` is what applying the retention policy gives.
pub record CleanupStore (S R : Type 0) : Type 0 where
  pub apply_retention_policy : ℕ → Operation S R
  pub delete_expired_csrf_tokens : ℕ → Operation S BatchResult
  pub delete_expired_rate_limit_buckets : ℕ → Operation S BatchResult
  pub delete_expired_sessions : ℕ → Operation S BatchResult
  pub release_expired_restrictions : ℕ → Operation S BatchResult
  pub revoke_expired_sanctions : ℕ → Operation S BatchResult

pub data MaintenanceCall (R : Type 0) : Type 0 where
  expired : Stage → Awaited BatchResult → MaintenanceCall R
  applied : Awaited R → MaintenanceCall R

-- `DiscordMaintenanceStageResult`
pub record DiscordStageResult : Type 0 where
  pub backlog_count : ℕ
  pub failure_code : Option Text
  pub processed_count : ℕ

-- `MaintenanceCleanupResult`; the results of the stages at Discord stand for the counts taken from them.
pub record CleanupResult (R : Type 0) : Type 0 where
  pub backlog_count : ℕ
  pub csrf_tokens_deleted : ℕ
  pub expired_sanctions_revoked : ℕ
  pub interaction_jobs : DiscordStageResult
  pub interaction_receipts : DiscordStageResult
  pub messages : DiscordStageResult
  pub rate_limit_buckets_deleted : ℕ
  pub restrictions_released : ℕ
  pub retention : R
  pub sessions_deleted : ℕ

abbrev pub max_expiry_batches : ℕ
max_expiry_batches = 10

abbrev pub at_least_one : ℕ → ℕ
at_least_one zero = 1
at_least_one (suc n) = suc n

abbrev pub drained : Option Text → ℕ → ℕ → DrainResult
drained failure_code processed remaining = record {
  failure_code = failure_code;
  processed_count = processed;
  remaining_lower_bound = remaining;
}

abbrev pub stage_of : DrainResult → DiscordStageResult
stage_of result = record {
  backlog_count = result.remaining_lower_bound;
  failure_code = result.failure_code;
  processed_count = result.processed_count;
}

module _ {S R : Type 0} where
  -- What follows a batch: its failure, whether there is more, and how many batches may follow.
  abbrev pub after_batch :
      Option Text
      → Bool
      → ℕ
      → ℕ
      → ℕ
      → Action S (MaintenanceCall R) DrainResult
      → Action S (MaintenanceCall R) DrainResult
  after_batch (some code) more left processed remaining next =
      pure (drained (some code) processed (at_least_one remaining))
  after_batch none false left processed remaining next = pure (drained none processed remaining)
  after_batch none true zero processed remaining next = pure (drained none processed remaining)
  after_batch none true (suc left) processed remaining next = next

  -- The loop, from the batches that are left and the count so far.
  unfoldable pub drain_from :
      Stage → Operation S BatchResult → ℕ → ℕ → Action S (MaintenanceCall R) DrainResult
  drain_from stage expire_batch zero processed = pure (drained none processed 0)
  drain_from stage expire_batch (suc left) processed =
      call (expired stage) expire_batch >>= λ batch.
      after_batch batch.failure_code batch.has_more left (processed + batch.processed_count)
        batch.remaining_lower_bound
        (drain_from stage expire_batch left (processed + batch.processed_count))

  unfoldable pub drain_expiry_batches :
      Stage → Operation S BatchResult → Action S (MaintenanceCall R) DrainResult
  drain_expiry_batches stage expire_batch = drain_from stage expire_batch max_expiry_batches 0

  unfoldable pub run_discord_stage :
      Text → Stage → Operation S BatchResult → Action S (MaintenanceCall R) DiscordStageResult
  run_discord_stage failure_code stage job =
      try (drain_expiry_batches stage job >>= λ result. pure (stage_of result)) (λ message.
        pure (record { backlog_count = 1; failure_code = some failure_code; processed_count = 0 }))

  unfoldable pub run_maintenance_cleanup :
      DiscordCleanupStore S → CleanupStore S R → ℕ → Action S (MaintenanceCall R) (CleanupResult R)
  run_maintenance_cleanup discord store now = do
    messages ←
        run_discord_stage (codes "discord_messages_cleanup_failed") discord_messages
          (discord.delete_expired_messages now)
    jobs ←
        run_discord_stage (codes "discord_interaction_jobs_cleanup_failed") discord_interaction_jobs
          (discord.delete_expired_interaction_jobs now)
    receipts ←
        run_discord_stage (codes "discord_interaction_receipts_cleanup_failed")
          discord_interaction_receipts (discord.delete_expired_interaction_receipts now)
    ended ← drain_expiry_batches sessions (store.delete_expired_sessions now)
    tokens ← drain_expiry_batches csrf_tokens (store.delete_expired_csrf_tokens now)
    buckets ← drain_expiry_batches rate_limit_buckets (store.delete_expired_rate_limit_buckets now)
    released ← drain_expiry_batches restrictions (store.release_expired_restrictions now)
    revoked ← drain_expiry_batches sanctions (store.revoke_expired_sanctions now)
    retention ← call applied (store.apply_retention_policy now)
    pure (record {
      backlog_count =
          ended.remaining_lower_bound + messages.backlog_count + jobs.backlog_count
          + receipts.backlog_count + tokens.remaining_lower_bound + buckets.remaining_lower_bound
          + released.remaining_lower_bound + revoked.remaining_lower_bound;
      csrf_tokens_deleted = tokens.processed_count;
      expired_sanctions_revoked = revoked.processed_count;
      interaction_jobs = jobs;
      interaction_receipts = receipts;
      messages = messages;
      rate_limit_buckets_deleted = buckets.processed_count;
      restrictions_released = released.processed_count;
      retention = retention;
      sessions_deleted = ended.processed_count;
    })
