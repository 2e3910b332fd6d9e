-- ===== src/InteractionJobs/Counts.antt =====
-- The counts of a run.
use info_room_reservation_si.Prelude.{
  ℕ, ◌+◌, ◌≡◌, inl, inr, Option, some, List, [], ◌∷◌, Option-cases, Text, length, arith,
}
use info_room_reservation_si.InteractionJobs.Claims.{JobClaim}
use info_room_reservation_si.InteractionJobs.Runner.{
  DispatchResult, succeeded, stale, retryable_failure, terminal_failure, Dispatched, outcome_of,
  InteractionJobStore, RunCounts, conclude_claim, run_claim, run_claims,
  run_discord_interaction_jobs,
}

abbrev total : RunCounts → ℕ
total n = n.abandoned + n.retried + n.stale + n.succeeded

module _ {S : Type 0} (store : InteractionJobStore S)
    (dispatch : JobClaim → S → Dispatched × S) where
  total-conclude_claim :
      (now : ℕ) (claim : JobClaim) (outcome : DispatchResult) (n n' : RunCounts) (s s' : S)
      → conclude_claim store dispatch now claim outcome n s ≡ some (n', s')
      → (total n' ≡ total n + 1) × (n'.claimed ≡ n.claimed)
  unfolding conclude_claim
  total-conclude_claim now claim (succeeded result) n n' s s' e = ground arith
  total-conclude_claim now claim (stale result) n n' s s' e = ground arith
  total-conclude_claim now claim (retryable_failure code kind) n n' s s' e = ground arith
  total-conclude_claim now claim (terminal_failure code kind) n n' s s' e = ground arith

  total-run_claim :
      (now : ℕ) (claim : JobClaim) (n n' : RunCounts) (s s' : S)
      → run_claim store dispatch now claim n s ≡ some (n', s')
      → (total n' ≡ total n + 1) × (n'.claimed ≡ n.claimed)
  unfolding run_claim
  total-run_claim now claim n n' s s' e = ground (
    arith,
    total-conclude_claim now claim (outcome_of (dispatch claim s).0) n n' (dispatch claim s).1 s',
  )

  total-run_claims :
      (now : ℕ) (claims : List JobClaim) (n n' : RunCounts) (s s' : S)
      → run_claims store dispatch now claims n s ≡ some (n', s')
      → (total n' ≡ total n + length claims) × (n'.claimed ≡ n.claimed)
  unfolding run_claims
  total-run_claims now [] n n' s s' e = ground arith
  total-run_claims now (claim ∷ claims) n n' s s' e =
      elim (Option-cases (run_claim store dispatch now claim n s)) [
        | inl failed ↦ ground arith
        | inr ((n₁, s₁), done) ↦
            ground
              (arith, total-run_claim now claim n n₁ s s₁, total-run_claims now claims n₁ n' s₁ s')
      ]

-- Whatever the store and the dispatch do: a run that returns has counted each claim of the store
-- once, as abandoned, retried, stale or succeeded.
pub run_discord_interaction_jobs-total :
    {S : Type 0} (store : InteractionJobStore S) (dispatch : JobClaim → S → Dispatched × S)
    (now : ℕ) (wanted : Option Text) (n : RunCounts) (s s' : S)
    → run_discord_interaction_jobs store dispatch now wanted s ≡ some (n, s')
    → (n.claimed ≡ length (store.claim now wanted s).0)
      × (n.abandoned + n.retried + n.stale + n.succeeded ≡ n.claimed)
unfolding run_discord_interaction_jobs
run_discord_interaction_jobs-total store dispatch now wanted n s s' e =
    let claims = (store.claim now wanted s).0 in
    ground (
      arith,
      total-run_claims store dispatch now claims
          (record { abandoned = 0; claimed = length claims; retried = 0; stale = 0; succeeded = 0 })
          n (store.claim now wanted s).1 s',
    )
