-- ===== src/OperationalJobs/Runner.antt =====
-- `runOperationalJob`, from the claim to the report. What the operation does, the clock and what
-- other workers do to the row meanwhile are parameters.
use info_room_reservation_si.Prelude.{
  ℕ, ◌-◌, ◌<◌, ◌≡◌, Bool, true, false, Option, none, some, Text, codes, arith, if◌then◌else◌, ◌==◌,
  ◌∷◌, ◌++◌,
}
use info_room_reservation_si.OperationalJobs.{
  OperationalJobName, operational_job_policy, OperationalJobRecord, try_start, FinishInput, finish,
  evaluate_operational_job_readiness, OperationalJobReadiness, ready, degraded, unready, backlog,
  healthy, repeated_failures, report,
}

-- The result of an operation; `failure_code` is optional.
pub record OperationResult : Type 0 where
  pub backlog_count : ℕ
  pub failure_code : Option Text
  pub is_success : Bool
  pub oldest_backlog_at : Option ℕ
  pub result : Text
  pub value : ℕ

pub data Operation : Type 0 where
  returned : OperationResult → Operation
  thrown : Operation

pub data OperationalJobRunResult : Type 0 where
  already_running : OperationalJobRunResult
  failed_with : Text → Option ℕ → OperationalJobRunResult
  succeeded_with : ℕ → OperationalJobRunResult
  -- the error OperationalJobClaimLostError, which leaves the runner
  claim_lost : OperationalJobRunResult

abbrev pub or_job_failed : Option Text → Text
or_job_failed none = codes "job_failed"
or_job_failed (some code) = code

abbrev pub result_input : OperationResult → ℕ → ℕ → FinishInput
result_input outcome now finished_at = record {
  backlog_count = outcome.backlog_count;
  duration_ms = finished_at - now;
  failure_code = if outcome.is_success then none else some (or_job_failed outcome.failure_code);
  finished_at = finished_at;
  oldest_backlog_at = outcome.oldest_backlog_at;
  result = outcome.result;
  started_at = now;
  succeeded = outcome.is_success;
}

-- `{"status":"unexpected_error"}`, with 34 for its quotation marks
abbrev pub unexpected_error_json : Text
unexpected_error_json =
    codes "{"
    ++ 34 ∷ codes "status"
    ++ 34 ∷ codes ":"
    ++ 34 ∷ codes "unexpected_error"
    ++ 34 ∷ codes "}"

abbrev pub unexpected_input : ℕ → ℕ → FinishInput
unexpected_input now finished_at = record {
  backlog_count = 0;
  duration_ms = finished_at - now;
  failure_code = some (codes "unexpected_error");
  finished_at = finished_at;
  oldest_backlog_at = none;
  result = unexpected_error_json;
  started_at = now;
  succeeded = false;
}

abbrev pub result_of : OperationResult → OperationalJobRunResult
result_of outcome =
    if outcome.is_success
    then succeeded_with outcome.value
    else failed_with (or_job_failed outcome.failure_code) (some outcome.value)

-- The handler of an error, which reports once more.
unfoldable pub handle_error :
    ℕ → ℕ → Option OperationalJobRecord → OperationalJobRunResult × Option OperationalJobRecord
handle_error now reported_at row = elim (finish (unexpected_input now reported_at) row) [
  | none ↦ (claim_lost, row)
  | some row' ↦ (failed_with (codes "unexpected_error") none, some row')
]

unfoldable pub conclude :
    Operation
    → ℕ
    → ℕ
    → ℕ
    → Option OperationalJobRecord
    → OperationalJobRunResult × Option OperationalJobRecord
unfolding handle_error
conclude thrown now finished_at reported_at row = handle_error now reported_at row
conclude (returned outcome) now finished_at reported_at row =
    elim (finish (result_input outcome now finished_at) row) [
      | none ↦ handle_error now reported_at row
      | some row' ↦ (result_of outcome, some row')
    ]

-- `finished_at` and `reported_at` are what the clock says after the operation and in the handler.
module _ (during : Option OperationalJobRecord → Option OperationalJobRecord)
    (operation : Operation) (now finished_at reported_at : ℕ) where
  unfoldable pub run_operational_job :
      OperationalJobName
      → Option OperationalJobRecord
      → OperationalJobRunResult × Option OperationalJobRecord
  unfolding conclude
  run_operational_job job row =
      let claim = try_start now (operational_job_policy job).timeout_ms row in
      elim claim.0 [
        | none ↦ (already_running, claim.1)
        | some _ ↦ conclude operation now finished_at reported_at (during claim.1)
      ]

abbrev pub undisturbed : Option OperationalJobRecord → Option OperationalJobRecord
undisturbed row = row

-- When nothing else touches the row meanwhile and the run is reported as succeeded, readiness at
-- the time it finished is healthy, or degraded by a backlog if the operation left one.
pub run_operational_job-success :
    (outcome : OperationResult) (now finished_at reported_at : ℕ) (job : OperationalJobName)
    (row : Option OperationalJobRecord) (value : ℕ)
    → (run_operational_job undisturbed (returned outcome) now finished_at reported_at job row).0
      ≡ succeeded_with value
    → evaluate_operational_job_readiness true finished_at
        (operational_job_policy job)
        (run_operational_job undisturbed (returned outcome) now finished_at reported_at job row).1
      ≡ (if 0 == outcome.backlog_count then report healthy ready else report backlog degraded)
unfolding run_operational_job try_start finish evaluate_operational_job_readiness
run_operational_job-success outcome now finished_at reported_at job row value h = ground arith

abbrev pub readiness_after_two_runs :
    Operation
    → Operation
    → ℕ
    → ℕ
    → ℕ
    → ℕ
    → OperationalJobName
    → Option OperationalJobRecord
    → OperationalJobReadiness
readiness_after_two_runs operation operation' now at now' at' job row =
    evaluate_operational_job_readiness true at' (operational_job_policy job)
      (run_operational_job undisturbed operation' now' at' at' job
        (run_operational_job undisturbed operation now at at job row).1).1

-- After two undisturbed runs in a row, one after the other, that are both reported as failed, by
-- their result or by an error, the job is not ready any more: it has failed repeatedly.
pub run_operational_job-failures :
    (operation operation' : Operation) (now at now' at' : ℕ) (job : OperationalJobName)
    (row : Option OperationalJobRecord) (code code' : Text) (value value' : Option ℕ)
    → (run_operational_job undisturbed operation now at at job row).0 ≡ failed_with code value
    → (run_operational_job undisturbed operation' now' at' at' job
        (run_operational_job undisturbed operation now at at job row).1).0
      ≡ failed_with code' value'
    → readiness_after_two_runs operation operation' now at now' at' job row
      ≡ report repeated_failures unready
unfolding run_operational_job try_start finish evaluate_operational_job_readiness
run_operational_job-failures operation operation' now at now' at' job row code code' value value' h
      h' =
    ground arith

-- A run whose claim another worker takes over while the operation goes on, with a claim that is
-- later, leaves the other's row as it is and ends with the error of a lost claim, whatever the
-- operation returned or threw.
pub run_operational_job-taken_over :
    (operation : Operation) (now finished_at reported_at later : ℕ) (job : OperationalJobName)
    (row : Option OperationalJobRecord) (mine other : OperationalJobRecord)
    → (try_start now (operational_job_policy job).timeout_ms row).0 ≡ some mine
    → (try_start later (operational_job_policy job).timeout_ms (some mine)).0 ≡ some other
    → now < later
    → run_operational_job (λ _. some other) operation now finished_at reported_at job row
      ≡ (claim_lost, some other)
unfolding run_operational_job try_start finish
run_operational_job-taken_over operation now finished_at reported_at later job row mine other h h'
      l =
    ground arith
