-- ===== src/InteractionJobs/Delivery.antt =====
-- The way of one acknowledged job through the runs that are asked for it.
use info_room_reservation_si.Prelude.{
  ℕ, ◌<◌, ◌≡◌, refl, ◌⊎◌, inl, inr, Bool, true, Option, none, some, Bool-cases, Text, codes, leb,
  if◌then◌else◌, arith,
}
use info_room_reservation_si.InteractionJobs.{
  acknowledged, JobStatus, JobRow, JobTables, claimable_where,
}
use info_room_reservation_si.InteractionJobs.Claims.{
  JobClaim, is_claimable, Finished, finished_row, holds_claim, finish_claim,
}
use info_room_reservation_si.InteractionJobs.Runner.{
  DispatchResult, succeeded, stale, retryable_failure, terminal_failure, Dispatched, outcome_of,
  RunCounts, failure_result, terminal_failure_result, code_result, conclude_claim, run_claim,
  run_bound, retry_time, counted, add_stale, add_abandoned, add_retried, add_succeeded,
}
use info_room_reservation_si.InteractionJobs.Store.{
  finished_failure, finished_stale, finished_success, prisma_job_store,
}
use info_room_reservation_si.InteractionJobs.Targeted.{
  Stands, tables_finished, finish_claim-held, is_dispatch_allowed-held,
}

-- A job that nothing is done with any more.
abbrev pub IsSettled : JobRow → Type 0
IsSettled row =
    (row.status ≡ JobStatus.succeeded)
    ⊎ (row.status ≡ JobStatus.stale)
    ⊎ (row.status ≡ JobStatus.abandoned)

-- A job that waits for its next attempt.
pub record Waits (epoch due : ℕ) (row : JobRow) : Type 0 where
  pub confirmed : row.handshake_status ≡ acknowledged
  pub current : row.rendered_epoch ≡ epoch
  pub waits_for : row.next_attempt_at ≡ some due
  pub open_status : (row.status ≡ JobStatus.pending) ⊎ (row.status ≡ JobStatus.retry)
  pub attempts : row.attempts < 8

pub is_claimable-Waits :
    (epoch due now : ℕ) (row : JobRow)
    → Waits epoch due row
    → is_claimable now epoch row ≡ leb due now
unfolding is_claimable claimable_where
is_claimable-Waits epoch due now row w = ground arith

-- What one claim comes to: the row is settled, or waits for the instant of its retry.
abbrev Concluded : ℕ → ℕ → JobRow → JobRow → Type 0
Concluded epoch now row row' =
    (row'.attempts ≡ row.attempts)
    × (IsSettled row' ⊎ Waits epoch (retry_time now row.attempts) row')

module _ (collates_after : Text → Text → Bool) (random_uuid : ℕ → Text) (draw : ℕ)
    (dispatch : JobClaim → JobTables → Dispatched × JobTables)
    (keeps : (claim : JobClaim) (s : JobTables) → (dispatch claim s).1 ≡ s) where
  module _ (id : Text) (epoch now : ℕ) (row : JobRow) (s : JobTables) (v : Stands id epoch row s)
      (claim : JobClaim) (held : holds_claim claim row ≡ true) (same : claim.rendered_epoch ≡ epoch)
      (current : row.rendered_epoch ≡ epoch) (attempted : claim.attempts ≡ row.attempts)
      (confirmed : row.handshake_status ≡ acknowledged) (n : RunCounts) where
    -- A completion that goes through, and the row that it leaves.
    abbrev Completes : Option (RunCounts × JobTables) → Type 0
    Completes result =
        (n' : RunCounts) × (input : Finished) × (result
          ≡ some (n', tables_finished id epoch row s v claim held input))
        × Concluded epoch now row (finished_row input row)

    counted-Completes :
        (add : RunCounts → RunCounts) (input : Finished)
        → Concluded epoch now row (finished_row input row)
        → Completes (counted add n (finish_claim claim input s))
    counted-Completes add input c =
        (add n, input, rw (finish_claim-held id epoch row s v claim held input), c)

    -- A retry is due after the delay, unless this was the eighth attempt.
    failure-Completes :
        (code kind : Text)
        → Completes (
            counted (if leb 8 claim.attempts then add_abandoned else add_retried) n (
              finish_claim claim
                (finished_failure (failure_result now claim.attempts code kind))
                s))
    unfolding failure_result
    failure-Completes code kind = elim (Bool-cases (leb 8 claim.attempts)) [
      | inl last ↦
          counted-Completes (if leb 8 claim.attempts then add_abandoned else add_retried)
            (finished_failure (failure_result now claim.attempts code kind))
            (refl, inl (inr (inr (rw last))))
      | inr more ↦
          counted-Completes (if leb 8 claim.attempts then add_abandoned else add_retried)
            (finished_failure (failure_result now claim.attempts code kind))
            (
              refl,
              inr (record {
                confirmed = confirmed;
                current = current;
                waits_for = rw (more, attempted);
                open_status = inr (rw more);
                attempts = ground arith;
              }),
            )
    ]

    conclude_claim-Completes :
        (outcome : DispatchResult)
        → Completes (
            conclude_claim
              (prisma_job_store collates_after random_uuid draw)
              dispatch
              now
              claim
              outcome
              n
              s)
    unfolding conclude_claim
    conclude_claim-Completes (succeeded result) =
        counted-Completes add_succeeded (finished_success result) (refl, inl (inl refl))
    conclude_claim-Completes (stale result) =
        counted-Completes add_stale (finished_stale none result) (refl, inl (inr (inl refl)))
    conclude_claim-Completes (retryable_failure code kind) = failure-Completes code kind
    conclude_claim-Completes (terminal_failure code kind) =
        counted-Completes add_abandoned (finished_failure (terminal_failure_result code kind))
          (refl, inl (inr (inr (unfold terminal_failure_result in refl))))

    run_bound-Completes :
        (application : Option Text)
        → Completes (
            run_bound
              (prisma_job_store collates_after random_uuid draw)
              dispatch
              application
              now
              claim
              n
              s)
    run_bound-Completes none =
        counted-Completes add_stale
          (finished_stale (some (codes "discord_source_application_missing"))
            (code_result (codes "discord_source_application_missing")))
          (refl, inl (inr (inl refl)))
    run_bound-Completes (some application) =
        rw (is_dispatch_allowed-held id epoch row s v claim held same current, keeps claim s)
          (conclude_claim-Completes (outcome_of (dispatch claim s).0))

    pub run_claim-Completes :
        Completes
          (run_claim (prisma_job_store collates_after random_uuid draw) dispatch now claim n s)
    unfolding run_claim
    run_claim-Completes = run_bound-Completes claim.source_application_id
