-- ===== src/Examples/Interactions.antt =====
-- Discord interactions at concrete inputs.
use info_room_reservation_si.Prelude.{
  ℕ, ◌+◌, ◌≤◌, ◌≡◌, refl, ◌↔◌, inl, true, none, some, [], ◌∷◌, Text, codes, text_lt, text_eq, count,
  length, arith, All, insert_by, sort_by,
}
use info_room_reservation_si.InteractionJobs.{
  acknowledged, JobStatus, JobRow, ControlState, JobTables, claimable_where, update_many,
  has_interaction,
}
use info_room_reservation_si.InteractionJobs.Handshake.{
  StageInput, stage_discord_interaction_job, activate_discord_interaction_job, ActivationResult,
  settle_discord_interaction_handshake, SettlementResult, staged_row, is_activatable,
  activation_result, read_handshake_in_transaction, enqueued, duplicate,
}
use info_room_reservation_si.InteractionJobs.Claims.{
  JobClaim, is_claimable, claim_candidates, claim_candidates_of, claim_discord_interaction_jobs,
  finish_claim, is_discord_interaction_dispatch_allowed,
}
use info_room_reservation_si.InteractionJobs.Runner.{
  Dispatched, thrown, run_discord_interaction_jobs, RunCounts, run_claims, run_claim,
  conclude_claim, outcome_of, redacted_error_type, redacted_identifier, failure_result, retry_time,
}
use info_room_reservation_si.InteractionJobs.Store.{prisma_job_store, runs_from}
use info_room_reservation_si.InteractionJobs.Agreement.{activate-settle-agree}
use info_room_reservation_si.InteractionJobs.Counts.{run_discord_interaction_jobs-total}
use info_room_reservation_si.InteractionJobs.Lease.{
  is_claim_of, claim_discord_interaction_jobs-exclusive,
}
use info_room_reservation_si.InteractionJobs.Invariant.{IsSound}
use info_room_reservation_si.InteractionJobs.Reach.{
  stage, activate, claim, here, more, Reach-IsSound,
}
use info_room_reservation_si.InteractionJobs.Liveness.{Ended, Waiting, runs_from-Ended}

abbrev interaction : Text
interaction = codes "1234"

abbrev stage_input : StageInput
stage_input = record {
  activation_deadline = some 500;
  command_digest = codes "digest";
  discord_actor_id = codes "77";
  intent = codes "accept";
  interaction_id = interaction;
  ip_hash = codes "ip";
  local_actor_id = codes "admin";
  rendered_epoch = 3;
  reservation_id = codes "r1";
  source_application_id = codes "app";
  source_channel_id = codes "channel";
  source_guild_id = codes "guild";
  source_message_id = codes "message";
}

abbrev control : ControlState
control = record { enabled = true; epoch = 3 }

abbrev no_jobs : JobTables
no_jobs = record { control = some control; jobs = [] }

abbrev tables_staged : JobTables
tables_staged = record { control = some control; jobs = staged_row stage_input 500 100 ∷ [] }

abbrev tables_acknowledged : JobTables
tables_acknowledged =
    (activate_discord_interaction_job (codes "digest") interaction 200 tables_staged).1

abbrev uuid : ℕ → Text
uuid n = n ∷ []

abbrev throwing : ℕ → JobClaim → JobTables → Dispatched × JobTables
throwing n job s = (thrown (some (codes "TypeError")), s)

stage_test : stage_discord_interaction_job stage_input 100 no_jobs ≡ (enqueued, tables_staged)
unfolding stage_discord_interaction_job staged_row
stage_test = refl

stage_again_test : (stage_discord_interaction_job stage_input 100 tables_staged).0 ≡ duplicate
unfolding stage_discord_interaction_job staged_row text_eq
stage_again_test = refl

activate_test :
    (activate_discord_interaction_job (codes "digest") interaction 200 tables_staged).0
    ≡ ActivationResult.pending
unfolding activate_discord_interaction_job is_activatable staged_row text_eq
activate_test = refl

-- A deadline that is over by the time of the acknowledgement.
late_test :
    (activate_discord_interaction_job (codes "digest") interaction 500 tables_staged).0
    ≡ ActivationResult.not_pending
unfolding activate_discord_interaction_job is_activatable staged_row text_eq update_many
    activation_result read_handshake_in_transaction
late_test = refl

abbrev acknowledged_row : JobRow
acknowledged_row = record (staged_row stage_input 500 100) {
  handshake_status = acknowledged;
  next_attempt_at = some 200;
}

abbrev ready : JobTables
ready = record { control = some control; jobs = acknowledged_row ∷ [] }

single-one : (row : JobRow) (id : Text) → count (has_interaction id) (row ∷ []) ≤ 1
single-one row id = ground arith

activate-settle-agree_example :
    ((settle_discord_interaction_handshake (codes "digest") interaction tables_staged).0
      ≡ SettlementResult.pending)
    ↔ ((activate_discord_interaction_job
          (codes "digest")
          interaction
          200
          (settle_discord_interaction_handshake (codes "digest") interaction tables_staged).1).0
        ≡ ActivationResult.pending)
activate-settle-agree_example =
    (activate-settle-agree (codes "digest") interaction 200 tables_staged
      (single-one (staged_row stage_input 500 100) interaction)).0

-- The job is claimed at 300, and 100 seconds later nobody claims it again.
claim_discord_interaction_jobs-exclusive_example :
    let (first, s') = claim_discord_interaction_jobs text_lt uuid 300 0 none ready in
    let second =
      claim_discord_interaction_jobs text_lt uuid 100300 1 none
        (record s' { control = some control }) in
    ((id : Text) → count (is_claim_of id) first ≤ 1)
    × All (λ a. count (is_claim_of a.interaction_id) second.0 ≡ 0) first
claim_discord_interaction_jobs-exclusive_example =
    claim_discord_interaction_jobs-exclusive text_lt uuid 300 100300 0 1 none none (some control)
      ready (single-one acknowledged_row) (omega arith)

Reach-IsSound_example :
    IsSound
      (claim_discord_interaction_jobs text_lt uuid 300 0 none
        (activate_discord_interaction_job
          (codes "digest")
          interaction
          200
          (stage_discord_interaction_job stage_input 100 no_jobs).1).1).1
Reach-IsSound_example = Reach-IsSound text_lt uuid (some control) (
    more (more (more here (stage stage_input 100)) (activate (codes "digest") interaction 200))
      (claim 300 0 none))

ready-Waiting : Waiting interaction 3 200 0 ready
unfolding staged_row text_eq
ready-Waiting = (
  acknowledged_row,
  record { one = omega arith; here = refl; control = refl; named = refl },
  record {
    confirmed = refl;
    current = refl;
    waits_for = refl;
    open_status = inl refl;
    attempts = omega arith;
  },
  refl,
)

-- Every dispatch throws, and the runner is started once a millisecond.
runs_from-Ended_example :
    (k : ℕ) × (s' : JobTables) × (runs_from text_lt uuid throwing
        (some interaction)
        (λ n. n)
        (λ n. n)
        0
        k
        ready
      ≡ some s')
    × Ended interaction 3 s'
runs_from-Ended_example =
    runs_from-Ended text_lt uuid throwing interaction (λ n. n) (λ n. n) 3 200 0 ready
      (λ n job t. refl) (λ t m. (t, omega arith)) ready-Waiting

abbrev counts_retried : RunCounts
counts_retried = record { abandoned = 0; claimed = 1; retried = 1; stale = 0; succeeded = 0 }

-- The dispatch at 300 threw; the next attempt is a minute later.
abbrev retried : JobTables
retried = record {
  control = some control;
  jobs =
      record acknowledged_row {
        attempts = 1;
        error_code = some (codes "unexpected_dispatch_error");
        last_error = some (codes "TypeError");
        next_attempt_at = some 60300;
        status = JobStatus.retry;
      }
      ∷ [];
}

run_test :
    run_discord_interaction_jobs (prisma_job_store text_lt uuid 0) (throwing 0) 300 none ready
    ≡ some (counts_retried, retried)
unfolding run_discord_interaction_jobs claim_discord_interaction_jobs claim_candidates
    claim_candidates_of is_claimable claimable_where update_many sort_by insert_by staged_row
    text_eq run_claims run_claim conclude_claim outcome_of redacted_error_type redacted_identifier
    failure_result retry_time finish_claim is_discord_interaction_dispatch_allowed
run_test = refl

run_discord_interaction_jobs-total_example :
    (counts_retried.claimed ≡ length ((prisma_job_store text_lt uuid 0).claim 300 none ready).0)
    × (counts_retried.abandoned + counts_retried.retried + counts_retried.stale
          + counts_retried.succeeded
        ≡ counts_retried.claimed)
run_discord_interaction_jobs-total_example =
    run_discord_interaction_jobs-total (prisma_job_store text_lt uuid 0) (throwing 0) 300 none
      counts_retried ready retried run_test
