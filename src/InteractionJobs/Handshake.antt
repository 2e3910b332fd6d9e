-- ===== src/InteractionJobs/Handshake.antt =====
-- The handshake of an interaction: it is staged, and then acknowledged in time or abandoned.
use info_room_reservation_si.Prelude.{
  ℕ, Bool, false, ◌&&◌, ◌||◌, Option, none, some, [], ◌∷◌, ◌++◌, Text, codes, text_eq, ltb, ◌==◌,
  count, find, any, if◌then◌else◌,
}
use info_room_reservation_si.InteractionJobs.{
  HandshakeStatus, staged, acknowledged, abandoned_unacked, JobStatus, JobRow, JobTables, is_staged,
  is_acknowledged, is_abandoned_unacked, is_pending, is_abandoned, has_interaction, update_many,
}

pub record StageInput : Type 0 where
  -- `none` for an invalid date
  pub activation_deadline : Option ℕ
  pub command_digest : Text
  pub discord_actor_id : Text
  pub intent : Text
  pub interaction_id : Text
  pub ip_hash : Text
  pub local_actor_id : Text
  pub rendered_epoch : ℕ
  pub reservation_id : Text
  pub source_application_id : Text
  pub source_channel_id : Text
  pub source_guild_id : Text
  pub source_message_id : Text

pub data StageResult : Type 0 where
  duplicate enqueued security_conflict : StageResult
  -- the errors that are thrown
  invalid_deadline job_missing : StageResult

-- A deadline that has passed gives a row that is abandoned from the start.
unfoldable pub staged_row : StageInput → ℕ → ℕ → JobRow
staged_row input deadline now = record {
  attempts = 0;
  claim_id = none;
  claimed_at = none;
  command_digest = input.command_digest;
  created_at = now;
  discord_actor_id = input.discord_actor_id;
  error_code = if ltb now deadline then none else some (codes "discord_ack_deadline_exceeded");
  handshake_status = if ltb now deadline then staged else abandoned_unacked;
  intent = input.intent;
  interaction_id = input.interaction_id;
  ip_hash = input.ip_hash;
  last_error = if ltb now deadline then none else some (codes "ACK_DEADLINE");
  local_actor_id = input.local_actor_id;
  next_attempt_at = if ltb now deadline then some deadline else none;
  rendered_epoch = input.rendered_epoch;
  reservation_id = input.reservation_id;
  source_application_id = some input.source_application_id;
  source_channel_id = input.source_channel_id;
  source_guild_id = input.source_guild_id;
  source_message_id = input.source_message_id;
  status = if ltb now deadline then JobStatus.pending else JobStatus.abandoned;
  terminal_result = none;
}

abbrev pub compare_digest : Text → Option JobRow → StageResult
compare_digest digest none = job_missing
compare_digest digest (some row) =
    if text_eq row.command_digest digest then duplicate else security_conflict

-- `ON CONFLICT ("interactionId") DO NOTHING`
abbrev pub stage_until : StageInput → ℕ → ℕ → JobTables → StageResult × JobTables
stage_until input deadline now s =
    if any (has_interaction input.interaction_id) s.jobs
    then (
      compare_digest input.command_digest (find (has_interaction input.interaction_id) s.jobs),
      s,
    )
    else (enqueued, record s { jobs = s.jobs ++ staged_row input deadline now ∷ [] })

abbrev pub stage_by : StageInput → Option ℕ → ℕ → JobTables → StageResult × JobTables
stage_by input none now s = (invalid_deadline, s)
stage_by input (some deadline) now s = stage_until input deadline now s

unfoldable pub stage_discord_interaction_job : StageInput → ℕ → JobTables → StageResult × JobTables
stage_discord_interaction_job input now s = stage_by input input.activation_deadline now s

pub record HandshakeSnapshot : Type 0 where
  pub command_digest : Text
  pub handshake_status : HandshakeStatus
  pub status : JobStatus

abbrev pub snapshot_of : JobRow → HandshakeSnapshot
snapshot_of row = record {
  command_digest = row.command_digest;
  handshake_status = row.handshake_status;
  status = row.status;
}

-- Rows beyond the handshake are not read.
abbrev pub handshake_of : JobRow → Option HandshakeSnapshot
handshake_of row =
    if ((is_staged row.handshake_status && is_pending row.status)
        || (is_acknowledged row.handshake_status && is_pending row.status))
      || (is_abandoned_unacked row.handshake_status && is_abandoned row.status)
    then some (snapshot_of row)
    else none

abbrev pub read_of : Option JobRow → Option HandshakeSnapshot
read_of none = none
read_of (some row) = handshake_of row

unfoldable pub read_handshake_in_transaction : Text → JobTables → Option HandshakeSnapshot
read_handshake_in_transaction id s = read_of (find (has_interaction id) s.jobs)

pub data ActivationResult : Type 0 where
  not_pending pending security_conflict : ActivationResult

unfoldable pub activation_result : Option HandshakeSnapshot → Text → ActivationResult
activation_result none digest = not_pending
activation_result (some snapshot) digest =
    if text_eq snapshot.command_digest digest
    then if is_acknowledged snapshot.handshake_status && is_pending snapshot.status
      then ActivationResult.pending
      else not_pending
    else ActivationResult.security_conflict

abbrev pub is_after : Option ℕ → ℕ → Bool
is_after none t = false
is_after (some s) t = ltb t s

unfoldable pub is_activatable : Text → Text → ℕ → JobRow → Bool
is_activatable digest id now row =
    text_eq row.command_digest digest
    && (is_staged row.handshake_status
        && (has_interaction id row && (is_after row.next_attempt_at now && is_pending row.status)))

abbrev pub activated : ℕ → JobRow → JobRow
activated now row = record row { handshake_status = acknowledged; next_attempt_at = some now }

unfoldable pub activate_discord_interaction_job :
    Text → Text → ℕ → JobTables → ActivationResult × JobTables
activate_discord_interaction_job digest id now s =
    let jobs = update_many (is_activatable digest id now) (activated now) s.jobs in
    let after : JobTables = record s { jobs = jobs } in
    (
      if count (is_activatable digest id now) s.jobs == 1
          then ActivationResult.pending
          else activation_result (read_handshake_in_transaction id after) digest,
      after,
    )

pub data SettlementResult : Type 0 where
  abandoned missing pending security_conflict : SettlementResult

unfoldable pub is_settled : Text → Text → JobRow → Bool
is_settled digest id row =
    has_interaction id row
    && (text_eq row.command_digest digest
        && (is_staged row.handshake_status && is_pending row.status))

abbrev pub unacknowledged : JobRow → JobRow
unacknowledged row = record row {
  error_code = some (codes "discord_ack_deadline_exceeded");
  handshake_status = abandoned_unacked;
  last_error = some (codes "ACK_DEADLINE");
  next_attempt_at = none;
  status = JobStatus.abandoned;
}

abbrev pub settlement_result : Text → Option JobRow → SettlementResult
settlement_result digest none = missing
settlement_result digest (some row) =
    if text_eq row.command_digest digest
    then if is_acknowledged row.handshake_status && is_pending row.status
      then SettlementResult.pending
      else SettlementResult.abandoned
    else SettlementResult.security_conflict

-- The row that is read is the settled one, or the one that was found.
unfoldable pub settle_discord_interaction_handshake :
    Text → Text → JobTables → SettlementResult × JobTables
settle_discord_interaction_handshake digest id s =
    let jobs = update_many (is_settled digest id) unacknowledged s.jobs in
    (settlement_result digest (find (has_interaction id) jobs), record s { jobs = jobs })

-- `readDiscordInteractionHandshake`
unfoldable pub read_discord_interaction_handshake : Text → JobTables → Option HandshakeSnapshot
unfolding read_handshake_in_transaction
read_discord_interaction_handshake id s = read_handshake_in_transaction id s
