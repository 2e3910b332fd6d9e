-- ===== src/InteractionJobs.antt =====
-- The queue of Discord interactions: its table, and the tests and updates that
-- src/lib/prisma-discord-interaction-job-store.ts makes of it.
pub mod Handshake
pub mod Agreement
pub mod Backlog
pub mod Claims
pub mod Runner
pub mod Rows
pub mod Counts
pub mod Store
pub mod Targeted
pub mod Delivery
pub mod Invariant
pub mod Reach
pub mod Liveness
pub mod Held
pub mod Lease
use info_room_reservation_si.Prelude.{
  ℕ, ◌+◌, ◌-◌, Bool, true, false, ◌&&◌, ◌||◌, Option, none, some, List, [], ◌∷◌, Text, text_eq, leb,
  if◌then◌else◌,
}
use info_room_reservation_si.Database.{Json}

-- The values that a constraint of the table allows.
pub data HandshakeStatus : Type 0 where
  staged acknowledged abandoned_unacked : HandshakeStatus

pub data JobStatus : Type 0 where
  pending processing retry succeeded stale abandoned : JobStatus

pub record JobRow : Type 0 where
  pub attempts : ℕ
  pub claim_id : Option Text
  pub claimed_at : Option ℕ
  pub command_digest : Text
  pub created_at : ℕ
  pub discord_actor_id : Text
  pub error_code : Option Text
  pub handshake_status : HandshakeStatus
  pub intent : Text
  pub interaction_id : Text
  pub ip_hash : Text
  pub last_error : Option Text
  pub local_actor_id : Text
  pub next_attempt_at : Option ℕ
  pub rendered_epoch : ℕ
  pub reservation_id : Text
  pub source_application_id : Option Text
  pub source_channel_id : Text
  pub source_guild_id : Text
  pub source_message_id : Text
  pub status : JobStatus
  pub terminal_result : Option Json

-- The row of `DiscordOperationsControl`.
pub record ControlState : Type 0 where
  pub enabled : Bool
  pub epoch : ℕ

pub record JobTables : Type 0 where
  pub control : Option ControlState
  pub jobs : List JobRow

abbrev pub claim_batch_size : ℕ
claim_batch_size = 20

abbrev pub claim_lease_ms : ℕ
claim_lease_ms = 120000

abbrev pub is_staged : HandshakeStatus → Bool
is_staged staged = true
is_staged _ = false

abbrev pub is_acknowledged : HandshakeStatus → Bool
is_acknowledged acknowledged = true
is_acknowledged _ = false

abbrev pub is_abandoned_unacked : HandshakeStatus → Bool
is_abandoned_unacked abandoned_unacked = true
is_abandoned_unacked _ = false

abbrev pub is_pending : JobStatus → Bool
is_pending pending = true
is_pending _ = false

abbrev pub is_retry : JobStatus → Bool
is_retry retry = true
is_retry _ = false

abbrev pub is_processing : JobStatus → Bool
is_processing processing = true
is_processing _ = false

abbrev pub is_abandoned : JobStatus → Bool
is_abandoned abandoned = true
is_abandoned _ = false

-- Comparisons of nullable columns, which hold of no null.
abbrev pub is_text : Option Text → Text → Bool
is_text none t = false
is_text (some s) t = text_eq s t

abbrev pub is_at_most : Option ℕ → ℕ → Bool
is_at_most none t = false
is_at_most (some s) t = leb s t

abbrev pub has_interaction : Text → JobRow → Bool
has_interaction id row = text_eq row.interaction_id id

-- `claimableWhere` at an instant; a lease that began at most two minutes ago still counts.
unfoldable pub claimable_where : ℕ → JobRow → Bool
claimable_where now row =
    (is_at_most row.next_attempt_at now && (is_pending row.status || is_retry row.status))
    || ((if leb claim_lease_ms now then is_at_most row.claimed_at (now - claim_lease_ms) else false)
        && is_processing row.status)

-- The rows that a test holds of are changed, the others stay.
unfoldable pub update_many : (JobRow → Bool) → (JobRow → JobRow) → List JobRow → List JobRow
update_many t f [] = []
update_many t f (row ∷ rows) = (if t row then f row else row) ∷ update_many t f rows
