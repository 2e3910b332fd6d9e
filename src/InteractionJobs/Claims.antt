-- ===== src/InteractionJobs/Claims.antt =====
-- Claiming the jobs that are due, and finishing a claim.
use info_room_reservation_si.Prelude.{
  ℕ, suc, ◌+◌, Bool, true, false, ◌&&◌, Option, none, some, List, [], ◌∷◌, Text, ltb, ◌==◌, count,
  filter, find, take, sort_by, if◌then◌else◌,
}
use info_room_reservation_si.Database.{Json}
use info_room_reservation_si.InteractionJobs.{
  JobStatus, processing, JobRow, ControlState, JobTables, claim_batch_size, is_acknowledged,
  is_processing, is_text, has_interaction, claimable_where, update_many,
}

-- `DiscordInteractionJobClaim`
pub record JobClaim : Type 0 where
  pub attempts : ℕ
  pub claim_id : Text
  pub command_digest : Text
  pub discord_actor_id : Text
  pub intent : Text
  pub interaction_id : Text
  pub ip_hash : Text
  pub local_actor_id : Text
  pub rendered_epoch : ℕ
  pub reservation_id : Text
  pub source_application_id : Option Text
  pub source_channel_id : Text
  pub source_guild_id : Text
  pub source_message_id : Text

abbrev pub claim_of : JobRow → Text → ℕ → JobClaim
claim_of candidate claim_id epoch = record {
  attempts = candidate.attempts + 1;
  claim_id = claim_id;
  command_digest = candidate.command_digest;
  discord_actor_id = candidate.discord_actor_id;
  intent = candidate.intent;
  interaction_id = candidate.interaction_id;
  ip_hash = candidate.ip_hash;
  local_actor_id = candidate.local_actor_id;
  rendered_epoch = epoch;
  reservation_id = candidate.reservation_id;
  source_application_id = candidate.source_application_id;
  source_channel_id = candidate.source_channel_id;
  source_guild_id = candidate.source_guild_id;
  source_message_id = candidate.source_message_id;
}

abbrev pub is_wanted : Option Text → JobRow → Bool
is_wanted none row = true
is_wanted (some id) row = has_interaction id row

unfoldable pub is_claimable : ℕ → ℕ → JobRow → Bool
is_claimable now epoch row =
    claimable_where now row && (is_acknowledged row.handshake_status && row.rendered_epoch == epoch)

abbrev pub taken : ℕ → Text → JobRow → JobRow
taken now claim_id row = record row {
  attempts = row.attempts + 1;
  claim_id = some claim_id;
  claimed_at = some now;
  error_code = none;
  last_error = none;
  status = processing;
}

abbrev pub claim_limit : Option Text → ℕ
claim_limit none = claim_batch_size
claim_limit (some id) = 1

-- Nulls come last.
abbrev is_later : Option ℕ → Option ℕ → Bool
is_later none none = false
is_later none (some b) = true
is_later (some a) none = false
is_later (some a) (some b) = ltb b a

-- What the database orders texts by, and the identifiers that are drawn.
module _ (collates_after : Text → Text → Bool) (random_uuid : ℕ → Text) where
  unfoldable pub job_comes_after : JobRow → JobRow → Bool
  job_comes_after a b =
      if is_later a.next_attempt_at b.next_attempt_at
      then true
      else if is_later b.next_attempt_at a.next_attempt_at
      then false
      else if ltb b.created_at a.created_at
      then true
      else if ltb a.created_at b.created_at
      then false
      else collates_after a.interaction_id b.interaction_id

  -- Each candidate is claimed by an update that makes the same tests again.
  unfoldable pub claim_candidates :
      ℕ → ℕ → ℕ → List JobRow → List JobRow → List JobClaim × List JobRow
  claim_candidates now epoch draw [] jobs = ([], jobs)
  claim_candidates now epoch draw (candidate ∷ candidates) jobs =
      let test : JobRow → Bool =
        λ row. has_interaction candidate.interaction_id row && is_claimable now epoch row in
      let rest =
        claim_candidates now epoch (suc draw) candidates
          (update_many test (taken now (random_uuid draw)) jobs) in
      if count test jobs == 1
      then (claim_of candidate (random_uuid draw) epoch ∷ rest.0, rest.1)
      else rest

  unfoldable pub claim_candidates_of : ℕ → ℕ → Option Text → List JobRow → List JobRow
  claim_candidates_of now epoch wanted jobs = take (claim_limit wanted) (
      sort_by job_comes_after
        (filter (λ row. is_claimable now epoch row && is_wanted wanted row) jobs))

  abbrev claim_under :
      ℕ → ℕ → Option Text → Option ControlState → JobTables → List JobClaim × JobTables
  claim_under now draw wanted none s = ([], s)
  claim_under now draw wanted (some control) s =
      let claimed =
        claim_candidates now control.epoch draw
          (claim_candidates_of now control.epoch wanted s.jobs) s.jobs in
      if control.enabled then (claimed.0, record s { jobs = claimed.1 }) else ([], s)

  unfoldable pub claim_discord_interaction_jobs :
      ℕ → ℕ → Option Text → JobTables → List JobClaim × JobTables
  claim_discord_interaction_jobs now draw wanted s = claim_under now draw wanted s.control s

-- The columns that finishing a claim writes; `terminalResult` is left out for a failure.
pub record Finished : Type 0 where
  pub error_code : Option Text
  pub last_error : Option Text
  pub next_attempt_at : Option ℕ
  pub status : JobStatus
  pub terminal_result : Option Json

abbrev pub or_else {ℓ} : {A : Type ℓ} → Option A → Option A → Option A
or_else none b = b
or_else (some a) b = some a

abbrev pub finished_row : Finished → JobRow → JobRow
finished_row input row = record row {
  claim_id = none;
  claimed_at = none;
  error_code = input.error_code;
  last_error = input.last_error;
  next_attempt_at = input.next_attempt_at;
  status = input.status;
  terminal_result = or_else input.terminal_result row.terminal_result;
}

abbrev pub holds_claim : JobClaim → JobRow → Bool
holds_claim claim row =
    is_text row.claim_id claim.claim_id
    && (has_interaction claim.interaction_id row && is_processing row.status)

-- `none` stands for DiscordInteractionClaimLostError, which undoes the update.
unfoldable pub finish_claim : JobClaim → Finished → JobTables → Option JobTables
finish_claim claim input s =
    let jobs = update_many (holds_claim claim) (finished_row input) s.jobs in
    if count (holds_claim claim) s.jobs == 1 then some (record s { jobs = jobs }) else none

abbrev allows_job : JobClaim → ControlState → Option JobRow → Bool
allows_job claim control none = false
allows_job claim control (some job) =
    is_processing job.status
    && (is_text job.claim_id claim.claim_id && job.rendered_epoch == control.epoch)

unfoldable pub is_discord_interaction_dispatch_allowed : JobClaim → JobTables → Bool
is_discord_interaction_dispatch_allowed claim s = elim s.control [
  | none ↦ false
  | some control ↦
      control.enabled
      && (control.epoch == claim.rendered_epoch
          && allows_job claim control (find (has_interaction claim.interaction_id) s.jobs))
]
