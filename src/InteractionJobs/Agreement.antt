-- ===== src/InteractionJobs/Agreement.antt =====
-- Settling and activating agree on whether the interaction was acknowledged in time.
use info_room_reservation_si.Prelude.{
  ℕ, ◌≤◌, ◌≡◌, refl, ◌↔◌, Bool, true, Option, none, some, List, [], ◌∷◌, Option-cases, inl, inr,
  Text, count, find, find-eq-none→count, find_sound, if◌then◌else◌, arith,
}
use info_room_reservation_si.InteractionJobs.{JobRow, JobTables, has_interaction, update_many}
use info_room_reservation_si.InteractionJobs.Rows.{
  count_within, count_within_none, find-update_many,
}
use info_room_reservation_si.InteractionJobs.Handshake.{
  ActivationResult, activation_result, read_of, SettlementResult, settlement_result, is_settled,
  unacknowledged, settle_discord_interaction_handshake, is_activatable, activated,
  activate_discord_interaction_job, read_handshake_in_transaction,
}

-- Nothing is activatable where nothing is staged, and an update of nothing changes nothing.
module _ (t : JobRow → Bool) (f : JobRow → JobRow) where
  update_many-none : (jobs : List JobRow) → count t jobs ≡ 0 → update_many t f jobs ≡ jobs
  unfolding update_many
  update_many-none [] e = refl
  update_many-none (row ∷ rows) e = ground (arith, update_many-none rows)

count-is_activatable-settled :
    (digest id : Text) (now : ℕ) (jobs : List JobRow)
    → count (is_activatable digest id now) (update_many (is_settled digest id) unacknowledged jobs)
      ≡ 0
unfolding update_many is_activatable is_settled
count-is_activatable-settled digest id now [] = refl
count-is_activatable-settled digest id now (row ∷ rows) =
    ground (arith, count-is_activatable-settled digest id now rows)

abbrev SaysPending : SettlementResult → ActivationResult → Type 0
SaysPending settled activated =
    (settled ≡ SettlementResult.pending) ↔ (activated ≡ ActivationResult.pending)

read-agrees :
    (digest : Text) (found : Option JobRow)
    → SaysPending (settlement_result digest found) (activation_result (read_of found) digest)
unfolding activation_result
read-agrees digest none = (λ h. cc, λ h. cc)
read-agrees digest (some row) = ground arith

-- Activation after settlement: nothing is left to activate.
activate-settled :
    (digest id : Text) (now : ℕ) (s : JobTables)
    → let (settled, s') = settle_discord_interaction_handshake digest id s in
      let activation = activate_discord_interaction_job digest id now s' in
      SaysPending settled activation.0 × (activation.1 ≡ s')
unfolding settle_discord_interaction_handshake activate_discord_interaction_job
    read_handshake_in_transaction
activate-settled digest id now s =
    let s' : JobTables = record s {
      jobs = update_many (is_settled digest id) unacknowledged s.jobs;
    } in
    let none_left = count-is_activatable-settled digest id now s.jobs in
    rw
      (none_left, update_many-none (is_activatable digest id now) (activated now) s'.jobs none_left)
      (read-agrees digest (find (has_interaction id) s'.jobs), refl)

is_activatable-within :
    (digest id : Text) (now : ℕ) (row : JobRow)
    → is_activatable digest id now row ≡ true
    → has_interaction id row ≡ true
unfolding is_activatable
is_activatable-within digest id now row h = ground arith

is_settled-within :
    (digest id : Text) (row : JobRow)
    → is_settled digest id row ≡ true
    → has_interaction id row ≡ true
unfolding is_settled
is_settled-within digest id row h = ground arith

-- The row that both operations see, after them.
row-agrees :
    (digest id : Text) (now : ℕ) (row : JobRow)
    → has_interaction id row ≡ true
    → let row' = if is_activatable digest id now row then activated now row else row in
      let row'' = if is_settled digest id row' then unacknowledged row' else row' in
      SaysPending (settlement_result digest (some row'')) (
        if is_activatable digest id now row
        then ActivationResult.pending
        else activation_result (read_of (some row')) digest)
unfolding activation_result is_activatable is_settled
row-agrees digest id now row h = ground arith

-- Settlement after activation.
settle-activated :
    (digest id : Text) (now : ℕ) (s : JobTables)
    → count (has_interaction id) s.jobs ≤ 1
    → let (activation, s') = activate_discord_interaction_job digest id now s in
      SaysPending (settle_discord_interaction_handshake digest id s').0 activation
unfolding settle_discord_interaction_handshake activate_discord_interaction_job
    read_handshake_in_transaction
settle-activated digest id now s one = elim (Option-cases (find (has_interaction id) s.jobs)) [
  | inl e ↦
      let nothing = find-eq-none→count (has_interaction id) s.jobs e in
      let none_left =
        count_within_none (has_interaction id) (is_activatable digest id now)
          (is_activatable-within digest id now) s.jobs nothing in
      let none_settled =
        count_within_none (has_interaction id) (is_settled digest id) (is_settled-within digest id)
          s.jobs nothing in
      rw
        (
          none_left,
          update_many-none (is_activatable digest id now) (activated now) s.jobs none_left,
          update_many-none (is_settled digest id) unacknowledged s.jobs none_settled,
          e,
        )
        (read-agrees digest none)
  | inr (row, e) ↦
      let t = is_activatable digest id now in
      let jobs' = update_many t (activated now) s.jobs in
      let row' : JobRow = if t row then activated now row else row in
      let found = find-update_many t (activated now) (λ r. refl) id s.jobs row e in
      let settled =
        find-update_many (is_settled digest id) unacknowledged (λ r. refl) id jobs' row' found in
      let counted =
        count_within (has_interaction id) t (is_activatable-within digest id now) s.jobs row one
          e in
      let agrees = row-agrees digest id now row (find_sound (has_interaction id) s.jobs row e) in
      rw (settled, found, counted) (ground (arith, agrees))
]

-- Activation and settlement with the same digest agree, in either order: the second answers that the
-- job is pending exactly when the first did. After a settlement an activation changes nothing; for
-- the other order no two jobs have the interaction.
pub activate-settle-agree :
    (digest id : Text) (now : ℕ) (s : JobTables)
    → count (has_interaction id) s.jobs ≤ 1
    → let (settled, s₁) = settle_discord_interaction_handshake digest id s in
      let (activation, s₂) = activate_discord_interaction_job digest id now s in
      ((settled ≡ SettlementResult.pending)
        ↔ ((activate_discord_interaction_job digest id now s₁).0 ≡ ActivationResult.pending))
      × ((activate_discord_interaction_job digest id now s₁).1 ≡ s₁)
      × (((settle_discord_interaction_handshake digest id s₂).0 ≡ SettlementResult.pending)
          ↔ (activation ≡ ActivationResult.pending))
activate-settle-agree digest id now s one =
    let (first, unchanged) = activate-settled digest id now s in
    (first, unchanged, settle-activated digest id now s one)
