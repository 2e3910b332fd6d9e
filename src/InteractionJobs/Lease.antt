-- ===== src/InteractionJobs/Lease.antt =====
-- While a lease lasts nobody else claims the job.
use info_room_reservation_si.Prelude.{
  ℕ, zero, suc, ◌+◌, ◌≤◌, ◌<◌, ◌≡◌, refl, Bool, ◌&&◌, Option, none, some, List, [], ◌∷◌, Bool-cases,
  inl, inr, Text, text_eq, count, filter, take, sort_by, count-sort_by, count-filter-le, arith, All,
}
use info_room_reservation_si.InteractionJobs.{
  JobRow, ControlState, JobTables, claim_lease_ms, has_interaction, update_many,
}
use info_room_reservation_si.InteractionJobs.Claims.{
  JobClaim, is_wanted, is_claimable, taken, claim_limit, job_comes_after, claim_candidates,
  claim_candidates_of, claim_discord_interaction_jobs,
}
use info_room_reservation_si.InteractionJobs.Held.{
  is_loose, is_claimable-held, claim_candidates-held,
}

-- A claim of an interaction.
abbrev pub is_claim_of : Text → JobClaim → Bool
is_claim_of id claim = text_eq claim.interaction_id id

module _ (collates_after : Text → Text → Bool) (random_uuid : ℕ → Text) where
  -- Each claim is made of a candidate.
  count-is_claim_of :
      (now epoch draw : ℕ) (id : Text) (candidates jobs : List JobRow)
      → count
          (is_claim_of id)
          (claim_candidates collates_after random_uuid now epoch draw candidates jobs).0
        ≤ count (has_interaction id) candidates
  unfolding claim_candidates
  count-is_claim_of now epoch draw id [] jobs = omega arith
  count-is_claim_of now epoch draw id (candidate ∷ candidates) jobs =
      let test : JobRow → Bool =
        λ row. has_interaction candidate.interaction_id row && is_claimable now epoch row in
      let rest =
        count-is_claim_of now epoch (suc draw) id candidates
          (update_many test (taken now (random_uuid draw)) jobs) in
      ground (arith, rest)

  count-take-le :
      (p : JobRow → Bool) (n : ℕ) (jobs : List JobRow) → count p (take n jobs) ≤ count p jobs
  count-take-le p zero jobs = omega arith
  count-take-le p (suc n) [] = omega arith
  count-take-le p (suc n) (row ∷ rows) = ground (arith, count-take-le p n rows)

  -- Nothing of an interaction is loose, so nothing of it is claimable within the lease.
  count-filter-held :
      (now later epoch : ℕ) (id : Text) (wanted : Option Text) (jobs : List JobRow)
      → later < now + claim_lease_ms
      → count (is_loose id now) jobs ≡ 0
      → count
          (has_interaction id)
          (filter (λ row. is_claimable later epoch row && is_wanted wanted row) jobs)
        ≡ 0
  count-filter-held now later epoch id wanted [] h e = refl
  count-filter-held now later epoch id wanted (row ∷ rows) h e = ground (
    arith,
    is_claimable-held now later epoch row h,
    count-filter-held now later epoch id wanted rows h,
  )

  count-claim_candidates_of :
      (later epoch : ℕ) (id : Text) (wanted : Option Text) (jobs : List JobRow)
      → count
          (has_interaction id)
          (claim_candidates_of collates_after random_uuid later epoch wanted jobs)
        ≤ count
            (has_interaction id)
            (filter (λ row. is_claimable later epoch row && is_wanted wanted row) jobs)
  unfolding claim_candidates_of
  count-claim_candidates_of later epoch id wanted jobs =
      let selected = filter (λ row. is_claimable later epoch row && is_wanted wanted row) jobs in
      omega (
        arith,
        count-take-le (has_interaction id) (claim_limit wanted)
            (sort_by (job_comes_after collates_after random_uuid) selected),
        count-sort_by (job_comes_after collates_after random_uuid) (has_interaction id) selected,
      )

  abbrev claim : ℕ → ℕ → Option Text → JobTables → List JobClaim × JobTables
  claim = claim_discord_interaction_jobs collates_after random_uuid

  -- What an interaction has no loose row of, is not claimed within the lease.
  count-claim-later :
      (now later draw : ℕ) (id : Text) (wanted : Option Text) (c : Option ControlState)
      (jobs : List JobRow)
      → later < now + claim_lease_ms
      → count (is_loose id now) jobs ≡ 0
      → count (is_claim_of id) (claim later draw wanted (record { control = c; jobs = jobs })).0 ≡ 0
  unfolding claim_discord_interaction_jobs
  count-claim-later now later draw id wanted none jobs h e = refl
  count-claim-later now later draw id wanted (some c) jobs h e = ground (
    arith,
    count-is_claim_of later c.epoch draw id
        (claim_candidates_of collates_after random_uuid later c.epoch wanted jobs) jobs,
    count-claim_candidates_of later c.epoch id wanted jobs,
    count-filter-held now later c.epoch id wanted jobs h e,
  )

  claim-held :
      (now draw : ℕ) (wanted : Option Text) (c : Option ControlState) (jobs : List JobRow)
      → ((id : Text) → count (has_interaction id) jobs ≤ 1)
      → All
          (λ a.
            count
              (is_loose a.interaction_id now)
              (claim now draw wanted (record { control = c; jobs = jobs })).1.jobs
            ≡ 0)
          (claim now draw wanted (record { control = c; jobs = jobs })).0
  unfolding claim_discord_interaction_jobs
  claim-held now draw wanted none jobs one = tt
  claim-held now draw wanted (some c) jobs one = elim (Bool-cases c.enabled) [
    | inl on ↦ rw on (
        claim_candidates-held collates_after random_uuid now c.epoch draw
          (claim_candidates_of collates_after random_uuid now c.epoch wanted jobs) jobs one)
    | inr off ↦ rw off tt
  ]

  count-claim-once :
      (now draw : ℕ) (id : Text) (wanted : Option Text) (c : Option ControlState)
      (jobs : List JobRow)
      → count (has_interaction id) jobs ≤ 1
      → count (is_claim_of id) (claim now draw wanted (record { control = c; jobs = jobs })).0 ≤ 1
  unfolding claim_discord_interaction_jobs
  count-claim-once now draw id wanted none jobs one = omega arith
  count-claim-once now draw id wanted (some c) jobs one = ground (
    arith,
    count-is_claim_of now c.epoch draw id
        (claim_candidates_of collates_after random_uuid now c.epoch wanted jobs) jobs,
    count-claim_candidates_of now c.epoch id wanted jobs,
    count-filter-le (has_interaction id)
        (λ row. is_claimable now c.epoch row && is_wanted wanted row) jobs,
  )

All-map :
    (P Q : JobClaim → Type 0) (claims : List JobClaim)
    → ((a : JobClaim) → P a → Q a)
    → All P claims
    → All Q claims
All-map P Q [] f h = tt
All-map P Q (a ∷ claims) f h = (f a h.0, All-map P Q claims f h.1)

-- Where no two jobs have the same interaction: of the claims that one runner takes, no two are for
-- the same interaction, and none of these interactions is claimed again in the two minutes after,
-- whatever jobs the second claim asks for and however the control has changed in between.
pub claim_discord_interaction_jobs-exclusive :
    (collates_after : Text → Text → Bool) (random_uuid : ℕ → Text) (now later draw draw' : ℕ)
    (wanted wanted' : Option Text) (c : Option ControlState) (s : JobTables)
    → ((id : Text) → count (has_interaction id) s.jobs ≤ 1)
    → later < now + claim_lease_ms
    → let (first, s') =
        claim_discord_interaction_jobs collates_after random_uuid now draw wanted s in
      let second =
        claim_discord_interaction_jobs collates_after random_uuid later draw' wanted'
          (record s' { control = c }) in
      ((id : Text) → count (is_claim_of id) first ≤ 1)
      × All (λ a. count (is_claim_of a.interaction_id) second.0 ≡ 0) first
claim_discord_interaction_jobs-exclusive collates_after random_uuid now later draw draw' wanted
      wanted' c s one h =
    (
      λ id.
          count-claim-once collates_after random_uuid now draw id wanted s.control s.jobs (one id),
      All-map _ _ (claim_discord_interaction_jobs collates_after random_uuid now draw wanted s).0
          (λ a e.
            count-claim-later collates_after random_uuid now later draw' a.interaction_id wanted' c
              (claim_discord_interaction_jobs collates_after random_uuid now draw wanted s).1.jobs h
              e)
          (claim-held collates_after random_uuid now draw wanted s.control s.jobs one),
    )
