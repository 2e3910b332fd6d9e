-- ===== src/InteractionJobs/Held.antt =====
-- The jobs that a claim has taken are held.
use info_room_reservation_si.Prelude.{
  ℕ, suc, ◌+◌, ◌≤◌, ◌<◌, ◌≡◌, refl, Bool, true, false, not, ◌&&◌, none, some, List, [], ◌∷◌,
  Bool-cases, inl, inr, Text, count, ◌==◌, ==_iff, arith, All,
}
use info_room_reservation_si.InteractionJobs.{
  JobRow, claim_lease_ms, has_interaction, is_processing, claimable_where, update_many,
}
use info_room_reservation_si.InteractionJobs.Rows.{count_within_none, count-update_many}
use info_room_reservation_si.InteractionJobs.Claims.{
  JobClaim, is_claimable, taken, claim_candidates,
}

-- Processed since an instant.
abbrev pub is_held_since : ℕ → JobRow → Bool
is_held_since now row = elim row.claimed_at [
  | none ↦ false
  | some at ↦ at == now && is_processing row.status
]

-- A row of an interaction that is not.
abbrev pub is_loose : Text → ℕ → JobRow → Bool
is_loose id now row = has_interaction id row && not (is_held_since now row)

pub is_claimable-held :
    (now later epoch : ℕ) (row : JobRow)
    → later < now + claim_lease_ms
    → is_held_since now row ≡ true
    → is_claimable later epoch row ≡ false
unfolding is_claimable claimable_where
is_claimable-held now later epoch row h e = ground arith

-- An update that takes rows leaves no more of them loose, and none if it takes the only one.
module _ (t : JobRow → Bool) (now : ℕ) (uuid : Text) (id : Text) where
  count-is_loose-le :
      (jobs : List JobRow)
      → count (is_loose id now) (update_many t (taken now uuid) jobs) ≤ count (is_loose id now) jobs
  unfolding update_many
  count-is_loose-le [] = omega arith
  count-is_loose-le (row ∷ rows) = ground (arith, ==_iff now now, count-is_loose-le rows)

  count-is_loose-taken :
      (within : (row : JobRow) → t row ≡ true → has_interaction id row ≡ true) (jobs : List JobRow)
      → count (has_interaction id) jobs ≤ 1
      → count t jobs ≡ 1
      → count (is_loose id now) (update_many t (taken now uuid) jobs) ≡ 0
  unfolding update_many
  count-is_loose-taken within [] one e = refl
  count-is_loose-taken within (row ∷ rows) one e = ground (
    arith,
    ==_iff now now,
    within row,
    count-is_loose-le rows,
    count_within_none (has_interaction id) t within rows,
    count_within_none (has_interaction id) (is_loose id now) (λ (r : JobRow) h. ground arith) rows,
    count-is_loose-taken within rows,
  )

module _ (collates_after : Text → Text → Bool) (random_uuid : ℕ → Text) where
  abbrev pub claims_of : ℕ → ℕ → ℕ → List JobRow → List JobRow → List JobClaim × List JobRow
  claims_of = claim_candidates collates_after random_uuid

  count-is_loose-claim_candidates :
      (now epoch draw : ℕ) (id : Text) (candidates jobs : List JobRow)
      → count (is_loose id now) (claims_of now epoch draw candidates jobs).1
        ≤ count (is_loose id now) jobs
  unfolding claim_candidates
  count-is_loose-claim_candidates now epoch draw id [] jobs = omega arith
  count-is_loose-claim_candidates now epoch draw id (candidate ∷ candidates) jobs =
      let test : JobRow → Bool =
        λ row. has_interaction candidate.interaction_id row && is_claimable now epoch row in
      let first = count-is_loose-le test now (random_uuid draw) id jobs in
      let rest =
        count-is_loose-claim_candidates now epoch (suc draw) id candidates
          (update_many test (taken now (random_uuid draw)) jobs) in
      ground arith

  -- Each claimed job is held afterwards, whatever claims the same loop has made before.
  pub claim_candidates-held :
      (now epoch draw : ℕ) (candidates jobs : List JobRow)
      → ((id : Text) → count (has_interaction id) jobs ≤ 1)
      → All
          (λ claim.
            count (is_loose claim.interaction_id now) (claims_of now epoch draw candidates jobs).1
            ≡ 0)
          (claims_of now epoch draw candidates jobs).0
  unfolding claim_candidates
  claim_candidates-held now epoch draw [] jobs one = tt
  claim_candidates-held now epoch draw (candidate ∷ candidates) jobs one =
      let test : JobRow → Bool =
        λ row. has_interaction candidate.interaction_id row && is_claimable now epoch row in
      let jobs' = update_many test (taken now (random_uuid draw)) jobs in
      let within : (row : JobRow)
          → test row ≡ true
          → has_interaction candidate.interaction_id row ≡ true =
        λ row h. ground arith in
      let rest = claim_candidates-held now epoch (suc draw) candidates jobs' (λ id.
        rw (count-update_many test (taken now (random_uuid draw)) (λ r. refl) id jobs) (one id)) in
      elim (Bool-cases (count test jobs == 1)) [
        | inl e ↦
            let first =
              count-is_loose-taken test now (random_uuid draw) candidate.interaction_id within jobs
                (one candidate.interaction_id) ((==_iff (count test jobs) 1).0 e) in
            let kept =
              count-is_loose-claim_candidates now epoch (suc draw) candidate.interaction_id
                candidates jobs' in
            rw e (omega arith, rest)
        | inr e ↦ rw e rest
      ]
