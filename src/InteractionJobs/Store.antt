-- ===== src/InteractionJobs/Store.antt =====
-- `prismaDiscordInteractionJobStore`, and runs of it at given instants.
use info_room_reservation_si.Prelude.{ℕ, zero, suc, Bool, Option, none, some, Text, codes}
use info_room_reservation_si.Database.{Json}
use info_room_reservation_si.InteractionJobs.{JobStatus, JobTables}
use info_room_reservation_si.InteractionJobs.Claims.{
  JobClaim, claim_discord_interaction_jobs, Finished, finish_claim,
  is_discord_interaction_dispatch_allowed, or_else,
}
use info_room_reservation_si.InteractionJobs.Runner.{
  Dispatched, FailureStatus, retry_at, FailureResult, InteractionJobStore, RunCounts,
  run_discord_interaction_jobs,
}

abbrev next_attempt : FailureStatus → Option ℕ
next_attempt FailureStatus.abandoned = none
next_attempt (retry_at at) = some at

abbrev failure_status : FailureStatus → JobStatus
failure_status FailureStatus.abandoned = JobStatus.abandoned
failure_status (retry_at at) = JobStatus.retry

abbrev pub finished_failure : FailureResult → Finished
finished_failure result = record {
  error_code = some result.error_code;
  last_error = some result.error_type;
  next_attempt_at = next_attempt result.status;
  status = failure_status result.status;
  terminal_result = none;
}

abbrev stale_error : Option Text → Text
stale_error none = codes "CONTROL_EPOCH"
stale_error (some code) = codes "APPLICATION_BINDING_REVIEW"

abbrev pub finished_stale : Option Text → Json → Finished
finished_stale code result = record {
  error_code = or_else code (some (codes "discord_control_stale"));
  last_error = some (stale_error code);
  next_attempt_at = none;
  status = JobStatus.stale;
  terminal_result = some result;
}

abbrev pub finished_success : Json → Finished
finished_success result = record {
  error_code = none;
  last_error = none;
  next_attempt_at = none;
  status = JobStatus.succeeded;
  terminal_result = some result;
}

abbrev pub tables_of : Option (RunCounts × JobTables) → Option JobTables
tables_of none = none
tables_of (some (counts, s)) = some s

module _ (collates_after : Text → Text → Bool) (random_uuid : ℕ → Text) where
  -- The identifiers of a run are those drawn from `draw` on.
  abbrev pub prisma_job_store : ℕ → InteractionJobStore JobTables
  prisma_job_store draw = record {
    claim =
        λ now wanted s. claim_discord_interaction_jobs collates_after random_uuid now draw wanted s;
    complete_failure = λ claim result s. finish_claim claim (finished_failure result) s;
    complete_stale = λ claim code result s. finish_claim claim (finished_stale code result) s;
    complete_success = λ claim result s. finish_claim claim (finished_success result) s;
    is_dispatch_allowed = is_discord_interaction_dispatch_allowed;
  }

  module _ (dispatch : ℕ → JobClaim → JobTables → Dispatched × JobTables) (wanted : Option Text)
      (times draws : ℕ → ℕ) where
    -- The tables after the run with a given number.
    abbrev pub run_at : ℕ → JobTables → Option JobTables
    run_at n s =
        tables_of (
          run_discord_interaction_jobs (prisma_job_store (draws n)) (dispatch n) (times n) wanted s)

    -- As many runs from that number on.
    unfoldable pub runs_from : ℕ → ℕ → JobTables → Option JobTables
    runs_from n zero s = some s
    runs_from n (suc k) s = elim (run_at n s) [ none ↦ none | some s' ↦ runs_from (suc n) k s' ]
