-- ===== src/OperationalJobs.antt =====
-- Operational jobs: src/lib/operational-jobs.ts, src/lib/operational-job-runner.ts and
-- src/lib/prisma-operational-job-store.ts. The lock of a job's name makes each store call atomic.
pub mod Claims
pub mod Runner
use info_room_reservation_si.Prelude.{
  ℕ, ◌+◌, ◌-◌, ◌*◌, Bool, true, false, Option, none, some, Text, codes, ltb, leb, ◌==◌, ◌&&◌,
  if◌then◌else◌,
}

pub data OperationalJobName : Type 0 where
  closed_period_notifications discord_admin_console discord_interactions : OperationalJobName
  discord_reservation_outbox maintenance : OperationalJobName

pub record OperationalJobPolicy : Type 0 where
  pub interval_ms : ℕ
  pub timeout_ms : ℕ

abbrev pub operational_job_policy : OperationalJobName → OperationalJobPolicy
operational_job_policy maintenance = record {
  interval_ms = 24 * 60 * 60000;
  timeout_ms = 15 * 60000;
}
operational_job_policy _ = record { interval_ms = 60000; timeout_ms = 2 * 60000 }

pub data OperationalJobStatus : Type 0 where
  failed running succeeded : OperationalJobStatus

-- The stored row of a job; the state that the readiness check reads is part of it.
pub record OperationalJobRecord : Type 0 where
  pub backlog_count : ℕ
  pub consecutive_failures : ℕ
  pub duration_ms : Option ℕ
  pub failure_code : Option Text
  pub finished_at : Option ℕ
  pub last_attempt_at : ℕ
  pub last_success_at : Option ℕ
  pub oldest_backlog_at : Option ℕ
  pub result : Option Text
  pub started_at : ℕ
  pub status : OperationalJobStatus

pub data ReadinessCode : Type 0 where
  backlog disabled healthy last_attempt_failed never_run : ReadinessCode
  never_succeeded repeated_failures is_running running_timeout stale : ReadinessCode

pub data ReadinessStatus : Type 0 where
  degraded ready unready : ReadinessStatus

pub record OperationalJobReadiness : Type 0 where
  pub code : ReadinessCode
  pub status : ReadinessStatus

abbrev pub is_in_status : OperationalJobStatus → OperationalJobStatus → Bool
is_in_status running running = true
is_in_status failed failed = true
is_in_status succeeded succeeded = true
is_in_status _ _ = false

abbrev pub report : ReadinessCode → ReadinessStatus → OperationalJobReadiness
report code status = record { code = code; status = status }

-- `a - b > c` for instants.
abbrev pub exceeds : ℕ → ℕ → ℕ → Bool
exceeds a b c = ltb (b + c) a

abbrev pub finished_readiness :
    OperationalJobRecord → Option ℕ → ℕ → OperationalJobPolicy → OperationalJobReadiness
finished_readiness state none now policy = report never_succeeded unready
finished_readiness state (some last_success) now policy =
    if exceeds now last_success (policy.interval_ms * 3)
    then report stale unready
    else if is_in_status state.status failed
    then report last_attempt_failed degraded
    else if ltb 0 state.backlog_count
    then report backlog degraded
    else report healthy ready

unfoldable pub evaluate_operational_job_readiness :
    Bool → ℕ → OperationalJobPolicy → Option OperationalJobRecord → OperationalJobReadiness
evaluate_operational_job_readiness false now policy state = report disabled ready
evaluate_operational_job_readiness true now policy none = report never_run unready
evaluate_operational_job_readiness true now policy (some state) =
    if is_in_status state.status running
    then (if exceeds now state.started_at policy.timeout_ms
        then report running_timeout unready
        else report is_running degraded)
    else if leb 2 state.consecutive_failures
    then report repeated_failures unready
    else finished_readiness state state.last_success_at now policy

-- A row that is created by `tryStart`, with the columns' defaults.
abbrev pub created : ℕ → OperationalJobRecord
created started_at = record {
  backlog_count = 0;
  consecutive_failures = 0;
  duration_ms = none;
  failure_code = none;
  finished_at = none;
  last_attempt_at = started_at;
  last_success_at = none;
  oldest_backlog_at = none;
  result = none;
  started_at = started_at;
  status = running;
}

abbrev pub restarted : OperationalJobRecord → ℕ → OperationalJobRecord
restarted existing started_at = record existing {
  consecutive_failures =
      if is_in_status existing.status running
      then existing.consecutive_failures + 1
      else existing.consecutive_failures;
  duration_ms = none;
  failure_code = none;
  finished_at = none;
  last_attempt_at = started_at;
  result = none;
  started_at = started_at;
  status = running;
}

-- `existing?.status === "RUNNING" && existing.startedAt > runningCutoff`, with the cutoff's
-- subtraction moved to the other side.
abbrev pub is_held : OperationalJobRecord → ℕ → ℕ → Bool
is_held existing started_at timeout_ms =
    is_in_status existing.status running && ltb started_at (existing.started_at + timeout_ms)

-- The row of the job; `none` for no row. The answer is the claimed row.
unfoldable pub try_start :
    ℕ → ℕ → Option OperationalJobRecord → Option OperationalJobRecord × Option OperationalJobRecord
try_start started_at timeout_ms none = (some (created started_at), some (created started_at))
try_start started_at timeout_ms (some existing) =
    if is_held existing started_at timeout_ms
    then (none, some existing)
    else (some (restarted existing started_at), some (restarted existing started_at))

pub record FinishInput : Type 0 where
  pub backlog_count : ℕ
  pub duration_ms : ℕ
  pub failure_code : Option Text
  pub finished_at : ℕ
  pub oldest_backlog_at : Option ℕ
  pub result : Text
  pub started_at : ℕ
  pub succeeded : Bool

abbrev pub finished : FinishInput → OperationalJobRecord → OperationalJobRecord
finished input row = record row {
  backlog_count = input.backlog_count;
  consecutive_failures = if input.succeeded then 0 else row.consecutive_failures + 1;
  duration_ms = some input.duration_ms;
  failure_code = input.failure_code;
  finished_at = some input.finished_at;
  last_success_at = if input.succeeded then some input.finished_at else row.last_success_at;
  oldest_backlog_at = input.oldest_backlog_at;
  result = some input.result;
  status = if input.succeeded then succeeded else failed;
}

-- The update touches the row only if this claim still runs; `none` is OperationalJobClaimLostError.
unfoldable pub finish : FinishInput → Option OperationalJobRecord → Option OperationalJobRecord
finish input none = none
finish input (some row) =
    if row.started_at == input.started_at && is_in_status row.status running
    then some (finished input row)
    else none
