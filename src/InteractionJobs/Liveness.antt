-- ===== src/InteractionJobs/Liveness.antt =====
-- Every acknowledged job comes to an end.
use info_room_reservation_si.Prelude.{
  ℕ, zero, suc, ◌+◌, ◌-◌, ◌≤◌, ◌<◌, ◌≡◌, ◌∙◌, refl, ap, subst, ◌⊎◌, inl, inr, Bool, true, Option,
  some, List, [], ◌∷◌, Bool-cases, Text, text_eq_refl, leb, arith,
}
use info_room_reservation_si.InteractionJobs.{JobRow, JobTables}
use info_room_reservation_si.InteractionJobs.Claims.{
  JobClaim, claim_of, is_claimable, taken, holds_claim, finished_row,
}
use info_room_reservation_si.InteractionJobs.Runner.{
  Dispatched, RunCounts, run_claim, run_claims, run_discord_interaction_jobs, retry_time,
  InteractionJobStore, run_claimed,
}
use info_room_reservation_si.InteractionJobs.Store.{prisma_job_store, run_at, runs_from, tables_of}
use info_room_reservation_si.InteractionJobs.Targeted.{
  Stands, claim-due, claim-not_due, is_taken, is_taken-row, tables_taken, update_many-Stands,
  tables_finished, finish_claim-Stands,
}
use info_room_reservation_si.InteractionJobs.Delivery.{
  IsSettled, Waits, is_claimable-Waits, run_claim-Completes,
}

-- The job of an interaction has ended, after so many attempts at most.
abbrev pub Ended : Text → ℕ → JobTables → Type 0
Ended id epoch s = (row : JobRow) × Stands id epoch row s × IsSettled row × (row.attempts ≤ 8)

-- It waits for an instant, and has been attempted so often.
abbrev pub Waiting : Text → ℕ → ℕ → ℕ → JobTables → Type 0
Waiting id epoch due attempts s =
    (row : JobRow) × Stands id epoch row s × Waits epoch due row × (row.attempts ≡ attempts)

run_claims-one :
    {S : Type 0} (store : InteractionJobStore S) (dispatch : JobClaim → S → Dispatched × S)
    (now : ℕ) (claim : JobClaim) (n n' : RunCounts) (s s' : S)
    → run_claim store dispatch now claim n s ≡ some (n', s')
    → run_claims store dispatch now (claim ∷ []) n s ≡ some (n', s')
unfolding run_claims
run_claims-one store dispatch now claim n n' s s' e = ground arith

module _ (collates_after : Text → Text → Bool) (random_uuid : ℕ → Text)
    (dispatch : ℕ → JobClaim → JobTables → Dispatched × JobTables)
    (keeps : (n : ℕ) (claim : JobClaim) (s : JobTables) → (dispatch n claim s).1 ≡ s) (id : Text)
    (times draws : ℕ → ℕ) (epoch : ℕ) where
  abbrev run : ℕ → JobTables → Option JobTables
  run = run_at collates_after random_uuid dispatch (some id) times draws

  abbrev Advances : ℕ → JobTables → Type 0
  Advances attempts s = Ended id epoch s ⊎ ((due : ℕ) × Waiting id epoch due (suc attempts) s)

  module _ (n due : ℕ) (row : JobRow) (s : JobTables) (v : Stands id epoch row s)
      (w : Waits epoch due row) where
    abbrev store : InteractionJobStore JobTables
    store = prisma_job_store collates_after random_uuid (draws n)

    run-claimed :
        (claimed : List JobClaim × JobTables)
        → store.claim (times n) (some id) s ≡ claimed
        → run n s ≡ tables_of (run_claimed store (dispatch n) (times n) claimed)
    unfolding run_discord_interaction_jobs
    run-claimed claimed e = ap (λ c. tables_of (run_claimed store (dispatch n) (times n) c)) e

    run-not_due : times n < due → run n s ≡ some s
    run-not_due early =
        run-claimed ([], s)
          (claim-not_due collates_after random_uuid id epoch row s v (times n) (draws n)
            (is_claimable-Waits epoch due (times n) row w ∙ ground arith))
        ∙ unfold run_claims in refl

    module _ (late : due ≤ times n) where
      abbrev claim : JobClaim
      claim = claim_of row (random_uuid (draws n)) epoch

      is_due : is_claimable (times n) epoch row ≡ true
      is_due = is_claimable-Waits epoch due (times n) row w ∙ ground arith

      abbrev row_taken : JobRow
      row_taken = taken (times n) (random_uuid (draws n)) row

      abbrev s_taken : JobTables
      s_taken = tables_taken collates_after random_uuid id epoch row s v (times n) (draws n)

      taken-Stands : Stands id epoch row_taken s_taken
      taken-Stands =
          update_many-Stands
            (is_taken collates_after random_uuid id epoch row s v (times n) (draws n))
            (taken (times n) (random_uuid (draws n))) (λ r. refl) id epoch row s v
            (is_taken-row collates_after random_uuid id epoch row s v (times n) (draws n) is_due)

      taken-held : holds_claim claim row_taken ≡ true
      taken-held =
          ground (arith, text_eq_refl (random_uuid (draws n)), text_eq_refl row.interaction_id)

      abbrev first_counts : RunCounts
      first_counts = record { abandoned = 0; claimed = 1; retried = 0; stale = 0; succeeded = 0 }

      run-due : (s' : JobTables) × (run n s ≡ some s') × Advances row.attempts s'
      run-due =
          let (n', input, done, concluded) =
            run_claim-Completes collates_after random_uuid (draws n) (dispatch n) (keeps n) id epoch
              (times n) row_taken s_taken taken-Stands claim taken-held refl w.current refl
              w.confirmed first_counts in
          let left =
            finish_claim-Stands id epoch row_taken s_taken taken-Stands claim taken-held input in
          (
            tables_finished id epoch row_taken s_taken taken-Stands claim taken-held input,
            run-claimed (claim ∷ [], s_taken)
                  (claim-due collates_after random_uuid id epoch row s v (times n) (draws n) is_due)
                ∙ ap tables_of (
                    run_claims-one store (dispatch n) (times n) claim first_counts n' s_taken _
                      done),
            elim concluded.1 [
              | inl ended ↦
                  inl (finished_row input row_taken, left, ended, omega (arith, w.attempts))
              | inr waits ↦ inr (
                retry_time (times n) (row.attempts + 1),
                (finished_row input row_taken, left, waits, omega arith),
              )
            ],
          )

  abbrev later : ℕ → ℕ → JobTables → Option JobTables
  later = runs_from collates_after random_uuid dispatch (some id) times draws

  abbrev EndsFrom : ℕ → JobTables → Type 0
  EndsFrom n s = (k : ℕ) × (s' : JobTables) × (later n k s ≡ some s') × Ended id epoch s'

  EndsFrom-run : (n : ℕ) (s s' : JobTables) → run n s ≡ some s' → EndsFrom (suc n) s' → EndsFrom n s
  unfolding runs_from
  EndsFrom-run n s s' e (k, last, runs, ended) = (suc k, last, ground arith, ended)

  -- A run that is due ends the job, or leaves it waiting with one attempt more.
  advance :
      (n due : ℕ) (row : JobRow) (s : JobTables)
      → Stands id epoch row s
      → Waits epoch due row
      → due ≤ times n
      → ((s' : JobTables) (due' : ℕ) (row' : JobRow)
          → Stands id epoch row' s'
          → Waits epoch due' row'
          → row'.attempts ≡ suc row.attempts
          → EndsFrom (suc n) s')
      → EndsFrom n s
  advance n due row s v w late next =
      let (s', done, result) = run-due n due row s v w late in
      EndsFrom-run n s s' done (elim result [
        | inl ended ↦ (zero, s', unfold runs_from in refl, ended)
        | inr (due', (row', v', w', more)) ↦ next s' due' row' v' w' more
      ])

  module _ (fair : (t m : ℕ) → (k : ℕ) × (t ≤ times (k + m))) where
    -- So many attempts are left, and the run that comes after a gap is due.
    ends_within :
        (left gap n due : ℕ) (row : JobRow) (s : JobTables)
        → due ≤ times (gap + n)
        → Stands id epoch row s
        → Waits epoch due row
        → row.attempts + left ≡ 8
        → EndsFrom n s
    ends_within zero gap n due row s late v w e = absurd (omega (arith, w.attempts))
    ends_within (suc left) zero n due row s late v w e =
        advance n due row s v w (subst (λ k. due ≤ times k) (omega arith) late)
          λ s' due' row' v' w' more.
            let (gap', late') = fair due' (suc n) in
            ends_within left gap' (suc n) due' row' s' late' v' w' (omega arith)
    ends_within (suc left) (suc gap) n due row s late v w e =
        elim (Bool-cases (leb due (times n))) [
          | inl now ↦ advance n due row s v w (ground arith) λ s' due' row' v' w' more.
              let (gap', late') = fair due' (suc n) in
              ends_within left gap' (suc n) due' row' s' late' v' w' (omega arith)
          | inr early ↦ EndsFrom-run n s s (run-not_due n due row s v w (ground arith)) (
              ends_within (suc left) gap (suc n) due row s
                (subst (λ k. due ≤ times k) (omega arith) late) v w e)
        ]

-- Let the runner be started for an interaction again and again, at instants that pass any bound, and
-- let the control stay enabled while the dispatch leaves the job table and the control alone,
-- whatever outcomes it gives and errors it throws. Then an acknowledged job of the current epoch
-- that waits, with fewer than eight attempts behind it, comes to an end after finitely many runs:
-- none of them fails, and it has succeeded, is stale or is abandoned, after at most eight attempts.
pub runs_from-Ended :
    (collates_after : Text → Text → Bool) (random_uuid : ℕ → Text)
    (dispatch : ℕ → JobClaim → JobTables → Dispatched × JobTables) (id : Text) (times draws : ℕ → ℕ)
    (epoch due attempts : ℕ) (s : JobTables)
    → ((n : ℕ) (claim : JobClaim) (t : JobTables) → (dispatch n claim t).1 ≡ t)
    → ((t m : ℕ) → (k : ℕ) × (t ≤ times (k + m)))
    → Waiting id epoch due attempts s
    → (k : ℕ) × (s' : JobTables) × (runs_from collates_after random_uuid dispatch
          (some id)
          times
          draws
          0
          k
          s
        ≡ some s')
      × Ended id epoch s'
runs_from-Ended collates_after random_uuid dispatch id times draws epoch due attempts s keeps fair
      (row, v, w, e) =
    let (gap, late) = fair due 0 in
    ends_within collates_after random_uuid dispatch keeps id times draws epoch fair
      (8 - row.attempts) gap 0 due row s late v w (omega (arith, w.attempts))
