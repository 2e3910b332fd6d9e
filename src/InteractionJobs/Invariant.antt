-- ===== src/InteractionJobs/Invariant.antt =====
-- What holds of the queue however its operations are interleaved.
use info_room_reservation_si.Prelude.{
  ℕ, ◌≤◌, ◌≡◌, ◌⊎◌, inl, inr, Bool, true, Option, none, some, List, [], ◌∷◌, Bool-cases, Text,
  count, arith, All,
}
use info_room_reservation_si.InteractionJobs.{
  acknowledged, staged, abandoned_unacked, JobStatus, JobRow, ControlState, JobTables,
  has_interaction, update_many,
}
use info_room_reservation_si.InteractionJobs.Rows.{count-update_many}
use info_room_reservation_si.InteractionJobs.Handshake.{
  StageInput, staged_row, is_activatable, activated, is_settled, unacknowledged,
}
use info_room_reservation_si.InteractionJobs.Claims.{is_claimable, taken}

abbrev pub IsGiven : Option ℕ → Type 0
IsGiven o = (n : ℕ) × (o ≡ some n)

-- The claim and the next attempt that a status goes with.
abbrev pub Progress : JobStatus → JobRow → Type 0
Progress JobStatus.pending row =
    (row.claim_id ≡ none) × (row.claimed_at ≡ none) × IsGiven row.next_attempt_at
Progress JobStatus.retry row =
    (row.claim_id ≡ none) × (row.claimed_at ≡ none) × IsGiven row.next_attempt_at
Progress JobStatus.processing row =
    ((id : Text) × (row.claim_id ≡ some id)) × IsGiven row.claimed_at
Progress _ row = (row.claim_id ≡ none) × (row.claimed_at ≡ none) × (row.next_attempt_at ≡ none)

-- Only acknowledged jobs are attempted; staged ones wait, abandoned handshakes are abandoned jobs.
pub record IsCoherent (row : JobRow) : Type 0 where
  pub handshake :
      (row.handshake_status ≡ acknowledged)
      ⊎ ((row.handshake_status ≡ staged) × (row.status ≡ JobStatus.pending) × (row.attempts ≡ 0))
      ⊎ ((row.handshake_status ≡ abandoned_unacked)
          × (row.status ≡ JobStatus.abandoned)
          × (row.attempts ≡ 0))
  pub progress : Progress row.status row

pub record IsSound (s : JobTables) : Type 0 where
  pub rows : All IsCoherent s.jobs
  pub single : (id : Text) → count (has_interaction id) s.jobs ≤ 1

module _ (t : JobRow → Bool) (f : JobRow → JobRow)
    (keeps : (row : JobRow) → (f row).interaction_id ≡ row.interaction_id)
    (fits : (row : JobRow) → t row ≡ true → IsCoherent row → IsCoherent (f row)) where
  All-update_many :
      (jobs : List JobRow) → All IsCoherent jobs → All IsCoherent (update_many t f jobs)
  unfolding update_many
  All-update_many [] h = tt
  All-update_many (row ∷ rows) h = elim (Bool-cases (t row)) [
    | inl e ↦ rw e (fits row e h.0, All-update_many rows h.1)
    | inr e ↦ rw e (h.0, All-update_many rows h.1)
  ]

  pub update_many-IsSound :
      (c : Option ControlState) (jobs : List JobRow)
      → IsSound (record { control = c; jobs = jobs })
      → IsSound (record { control = c; jobs = update_many t f jobs })
  update_many-IsSound c jobs v = record {
    rows = All-update_many jobs v.rows;
    single = λ id. rw (count-update_many t f keeps id jobs) (v.single id);
  }

pub activated-IsCoherent :
    (digest id : Text) (now : ℕ) (row : JobRow)
    → is_activatable digest id now row ≡ true
    → IsCoherent row
    → IsCoherent (activated now row)
unfolding is_activatable
activated-IsCoherent digest id now row h v = ground arith

pub unacknowledged-IsCoherent :
    (digest id : Text) (row : JobRow)
    → is_settled digest id row ≡ true
    → IsCoherent row
    → IsCoherent (unacknowledged row)
unfolding is_settled
unacknowledged-IsCoherent digest id row h v = ground arith

pub taken-IsCoherent :
    (now epoch : ℕ) (uuid : Text) (row : JobRow)
    → is_claimable now epoch row ≡ true
    → IsCoherent row
    → IsCoherent (taken now uuid row)
unfolding is_claimable
taken-IsCoherent now epoch uuid row h v = ground arith

pub staged_row-IsCoherent :
    (input : StageInput) (deadline now : ℕ) → IsCoherent (staged_row input deadline now)
unfolding staged_row
staged_row-IsCoherent input deadline now = ground arith
