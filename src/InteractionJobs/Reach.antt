-- ===== src/InteractionJobs/Reach.antt =====
-- The operations of the queue as steps, in any order.
use info_room_reservation_si.Prelude.{
  ℕ, suc, ◌≤◌, ◌≡◌, refl, inl, inr, Bool, true, false, ◌&&◌, Option, none, some, List, [], ◌∷◌,
  ◌++◌, Bool-cases, subst, Text, text_eq, text_eq_sound, any, count, count-append, if◌then◌else◌,
  ◌==◌, arith, All-append,
}
use info_room_reservation_si.Database.{Json}
use info_room_reservation_si.InteractionJobs.{
  JobRow, ControlState, JobTables, has_interaction, update_many,
}
use info_room_reservation_si.InteractionJobs.Handshake.{
  StageInput, staged_row, stage_until, stage_by, stage_discord_interaction_job, is_activatable,
  activated, activate_discord_interaction_job, is_settled, unacknowledged,
  settle_discord_interaction_handshake,
}
use info_room_reservation_si.InteractionJobs.Claims.{
  JobClaim, is_claimable, taken, claim_candidates, claim_candidates_of,
  claim_discord_interaction_jobs, Finished, finished_row, holds_claim, finish_claim,
}
use info_room_reservation_si.InteractionJobs.Runner.{FailureResult}
use info_room_reservation_si.InteractionJobs.Store.{
  finished_failure, finished_stale, finished_success,
}
use info_room_reservation_si.InteractionJobs.Invariant.{
  IsCoherent, IsSound, update_many-IsSound, activated-IsCoherent, unacknowledged-IsCoherent,
  taken-IsCoherent, staged_row-IsCoherent,
}

-- What the three completions of the store write.
pub data IsCompletion : Finished → Type 0 where
  failure : (result : FailureResult) → IsCompletion (finished_failure result)
  stale : (code : Option Text) (result : Json) → IsCompletion (finished_stale code result)
  success : (result : Json) → IsCompletion (finished_success result)

module _ (collates_after : Text → Text → Bool) (random_uuid : ℕ → Text) where
  -- A step of the receiver, of a runner, or of whoever switches the control.
  pub data Step (s : JobTables) : JobTables → Type 0 where
    stage : (input : StageInput) (now : ℕ) → Step s (stage_discord_interaction_job input now s).1
    activate :
        (digest id : Text) (now : ℕ) → Step s (activate_discord_interaction_job digest id now s).1
    settle : (digest id : Text) → Step s (settle_discord_interaction_handshake digest id s).1
    claim :
        (now draw : ℕ) (wanted : Option Text)
        → Step s (claim_discord_interaction_jobs collates_after random_uuid now draw wanted s).1
    complete :
        (held : JobClaim) (input : Finished) (t : JobTables)
        → IsCompletion input
        → finish_claim held input s ≡ some t
        → Step s t
    switch : (c : Option ControlState) → Step s (record s { control = c })

  pub data Reach (s : JobTables) : JobTables → Type 0 where
    here : Reach s s
    more : {t u : JobTables} → Reach s t → Step t u → Reach s u

finished_row-IsCoherent :
    (held : JobClaim) (input : Finished) (row : JobRow)
    → IsCompletion input
    → holds_claim held row ≡ true
    → IsCoherent row
    → IsCoherent (finished_row input row)
finished_row-IsCoherent held input row (failure result) h v = ground arith
finished_row-IsCoherent held input row (stale code result) h v = ground arith
finished_row-IsCoherent held input row (success result) h v = ground arith

count-any :
    (id : Text) (jobs : List JobRow)
    → any (has_interaction id) jobs ≡ false
    → count (has_interaction id) jobs ≡ 0
count-any id [] e = refl
count-any id (row ∷ rows) e = ground (arith, count-any id rows)

single-staged :
    (input : StageInput) (deadline now : ℕ) (s : JobTables)
    → IsSound s
    → any (has_interaction input.interaction_id) s.jobs ≡ false
    → (id : Text) → count (has_interaction id) (s.jobs ++ staged_row input deadline now ∷ []) ≤ 1
unfolding staged_row
single-staged input deadline now s v new id =
    let row = staged_row input deadline now in
    rw (count-append (has_interaction id) s.jobs (row ∷ []))
      (elim (Bool-cases (text_eq input.interaction_id id)) [
        | inl same ↦
            let e : input.interaction_id ≡ id = text_eq_sound input.interaction_id id same in
            let fresh : count (has_interaction id) s.jobs ≡ 0 =
              subst (λ k. count (has_interaction k) s.jobs ≡ 0) e
                (count-any input.interaction_id s.jobs new) in
            ground (arith, fresh)
        | inr other ↦ ground (arith, v.single id)
      ])

stage-IsSound :
    (input : StageInput) (deadline now : ℕ) (s : JobTables)
    → IsSound s
    → IsSound (stage_until input deadline now s).1
stage-IsSound input deadline now s v =
    elim (Bool-cases (any (has_interaction input.interaction_id) s.jobs)) [
      | inl old ↦ rw old v
      | inr new ↦ rw new (record {
        rows =
            All-append IsCoherent s.jobs (staged_row input deadline now ∷ []) v.rows
              (staged_row-IsCoherent input deadline now, tt);
        single = λ id. single-staged input deadline now s v new id;
      })
    ]

stage_by-IsSound :
    (input : StageInput) (deadline : Option ℕ) (now : ℕ) (s : JobTables)
    → IsSound s
    → IsSound (stage_by input deadline now s).1
stage_by-IsSound input none now s v = v
stage_by-IsSound input (some deadline) now s v = stage-IsSound input deadline now s v

finish-IsSound :
    (held : JobClaim) (input : Finished) (s t : JobTables)
    → IsCompletion input
    → finish_claim held input s ≡ some t
    → IsSound s
    → IsSound t
unfolding finish_claim
finish-IsSound held input s t done e v = subst IsSound (ground arith) (
    update_many-IsSound (holds_claim held) (finished_row input) (λ r. refl)
      (λ row. finished_row-IsCoherent held input row done) s.control s.jobs v)

cases-IsSound :
    (b : Bool) (s t : JobTables) (claims : List JobClaim)
    → IsSound s
    → IsSound t
    → let result : List JobClaim × JobTables = if b then (claims, s) else ([], t) in
      IsSound result.1
cases-IsSound true s t claims v w = v
cases-IsSound false s t claims v w = w

module _ (collates_after : Text → Text → Bool) (random_uuid : ℕ → Text) where
  claim_candidates-IsSound :
      (now epoch draw : ℕ) (candidates jobs : List JobRow) (c : Option ControlState)
      → IsSound (record { control = c; jobs = jobs })
      → IsSound (record {
        control = c;
        jobs = (claim_candidates collates_after random_uuid now epoch draw candidates jobs).1;
      })
  unfolding claim_candidates
  claim_candidates-IsSound now epoch draw [] jobs c v = v
  claim_candidates-IsSound now epoch draw (candidate ∷ candidates) jobs c v =
      let test : JobRow → Bool =
        λ row. has_interaction candidate.interaction_id row && is_claimable now epoch row in
      let uuid = random_uuid draw in
      let rest =
        claim_candidates-IsSound now epoch (suc draw) candidates
          (update_many test (taken now uuid) jobs) c
          (update_many-IsSound test (taken now uuid) (λ r. refl)
            (λ row h. taken-IsCoherent now epoch uuid row (ground arith)) c jobs v) in
      elim (Bool-cases (count test jobs == 1)) [ inl e ↦ rw e rest | inr e ↦ rw e rest ]

  claim-IsSound :
      (now draw : ℕ) (wanted : Option Text) (c : Option ControlState) (jobs : List JobRow)
      → IsSound (record { control = c; jobs = jobs })
      → IsSound
          (claim_discord_interaction_jobs collates_after random_uuid now draw wanted
            (record { control = c; jobs = jobs })).1
  unfolding claim_discord_interaction_jobs
  claim-IsSound now draw wanted none jobs v = v
  claim-IsSound now draw wanted (some control) jobs v =
      let claimed =
        claim_candidates-IsSound now control.epoch draw
          (claim_candidates_of collates_after random_uuid now control.epoch wanted jobs) jobs
          (some control) v in
      cases-IsSound control.enabled _ _ _ claimed v

  Step-IsSound : {s t : JobTables} → Step collates_after random_uuid s t → IsSound s → IsSound t
  Step-IsSound {s} (stage input now) v =
      unfold stage_discord_interaction_job in
      stage_by-IsSound input input.activation_deadline now s v
  Step-IsSound {s} (activate digest id now) v =
      unfold activate_discord_interaction_job in
      update_many-IsSound (is_activatable digest id now) (activated now) (λ r. refl)
        (λ row. activated-IsCoherent digest id now row) s.control s.jobs v
  Step-IsSound {s} (settle digest id) v =
      unfold settle_discord_interaction_handshake in
      update_many-IsSound (is_settled digest id) unacknowledged (λ r. refl)
        (λ row. unacknowledged-IsCoherent digest id row) s.control s.jobs v
  Step-IsSound {s} (claim now draw wanted) v = claim-IsSound now draw wanted s.control s.jobs v
  Step-IsSound {s} (complete held input t done e) v = finish-IsSound held input s t done e v
  Step-IsSound {s} (switch c) v = record { rows = v.rows; single = v.single }

  -- From the empty table, whatever is staged, acknowledged, settled, claimed, completed and switched
  -- in whatever order: no two jobs have the same interaction; a job that was attempted was
  -- acknowledged; a job has a claim exactly while it is processed; it has a next attempt while it is
  -- pending or to be retried, and none once it has succeeded, is stale or is abandoned.
  pub Reach-IsSound :
      (c : Option ControlState) {s : JobTables}
      → Reach collates_after random_uuid (record { control = c; jobs = [] }) s
      → IsSound s
  Reach-IsSound c here = record { rows = tt; single = λ id. omega arith }
  Reach-IsSound c (more r step) = Step-IsSound step (Reach-IsSound c r)
