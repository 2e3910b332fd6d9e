-- ===== src/InteractionJobs/Targeted.antt =====
-- A claim that is asked for one job, and what finishing it does to its row.
use info_room_reservation_si.Prelude.{
  ℕ, ◌≤◌, ◌≡◌, ◌∙◌, refl, Bool, true, false, ◌&&◌, some, List, [], ◌∷◌, Text, text_eq_refl,
  text_eq_sound, count, filter, find, if◌then◌else◌, arith, sort_by, insert_by,
}
use info_room_reservation_si.InteractionJobs.{JobRow, JobTables, has_interaction, update_many}
use info_room_reservation_si.InteractionJobs.Rows.{
  filter_within, count_within, find-update_many, count-update_many,
}
use info_room_reservation_si.InteractionJobs.Claims.{
  JobClaim, claim_of, is_wanted, is_claimable, taken, claim_candidates, claim_candidates_of,
  claim_discord_interaction_jobs, Finished, finished_row, holds_claim, finish_claim,
  is_discord_interaction_dispatch_allowed,
}

-- The only job of an interaction, under a control that is enabled.
pub record Stands (id : Text) (epoch : ℕ) (row : JobRow) (s : JobTables) : Type 0 where
  pub one : count (has_interaction id) s.jobs ≤ 1
  pub here : find (has_interaction id) s.jobs ≡ some row
  pub control : s.control ≡ some (record { enabled = true; epoch = epoch })
  pub named : row.interaction_id ≡ id

-- Updates of a row keep it the only job.
abbrev pub with_jobs : List JobRow → JobTables → JobTables
with_jobs jobs s = record s { jobs = jobs }

pub update_many-Stands :
    (t : JobRow → Bool) (f : JobRow → JobRow)
    (keeps : (row : JobRow) → (f row).interaction_id ≡ row.interaction_id) (id : Text) (epoch : ℕ)
    (row : JobRow) (s : JobTables)
    → Stands id epoch row s
    → t row ≡ true
    → Stands id epoch (f row) (with_jobs (update_many t f s.jobs) s)
update_many-Stands t f keeps id epoch row s v e = record {
  one = rw (count-update_many t f keeps id s.jobs) v.one;
  here = find-update_many t f keeps id s.jobs row v.here ∙ rw e;
  control = v.control;
  named = keeps row ∙ v.named;
}

module _ (collates_after : Text → Text → Bool) (random_uuid : ℕ → Text) where
  module _ (id : Text) (epoch : ℕ) (row : JobRow) (s : JobTables) (v : Stands id epoch row s)
      (now draw : ℕ) where
    abbrev pub is_taken : JobRow → Bool
    is_taken r = has_interaction row.interaction_id r && is_claimable now epoch r

    is_taken-within : (r : JobRow) → is_taken r ≡ true → has_interaction id r ≡ true
    is_taken-within r h = ground (arith, v.named)

    pub is_taken-row : is_claimable now epoch row ≡ true → is_taken row ≡ true
    is_taken-row due = ground (arith, text_eq_refl row.interaction_id)

    count-is_taken : is_claimable now epoch row ≡ true → count is_taken s.jobs ≡ 1
    count-is_taken due =
        count_within (has_interaction id) is_taken is_taken-within s.jobs row v.one v.here
        ∙ rw (is_taken-row due)

    wanted_only :
        filter (λ r. is_claimable now epoch r && is_wanted (some id) r) s.jobs
        ≡ (if is_claimable now epoch row then row ∷ [] else [])
    wanted_only =
        filter_within (has_interaction id) (λ r. is_claimable now epoch r && is_wanted (some id) r)
          (λ r h. ground arith) s.jobs row v.one v.here
        ∙ ground (arith, v.named, text_eq_refl id)

    abbrev pub tables_taken : JobTables
    tables_taken = with_jobs (update_many is_taken (taken now (random_uuid draw)) s.jobs) s

    candidates-due :
        is_claimable now epoch row ≡ true
        → claim_candidates_of collates_after random_uuid now epoch (some id) s.jobs ≡ row ∷ []
    unfolding claim_candidates_of
    candidates-due due = rw (wanted_only, due) (unfold sort_by insert_by in refl)

    candidates-not_due :
        is_claimable now epoch row ≡ false
        → claim_candidates_of collates_after random_uuid now epoch (some id) s.jobs ≡ []
    unfolding claim_candidates_of
    candidates-not_due rest = rw (wanted_only, rest) (unfold sort_by in refl)

    claim-row :
        is_claimable now epoch row ≡ true
        → claim_candidates collates_after random_uuid now epoch draw (row ∷ []) s.jobs
          ≡ (claim_of row (random_uuid draw) epoch ∷ [], tables_taken.jobs)
    unfolding claim_candidates
    claim-row due = rw (count-is_taken due)

    pub claim-due :
        is_claimable now epoch row ≡ true
        → claim_discord_interaction_jobs collates_after random_uuid now draw (some id) s
          ≡ (claim_of row (random_uuid draw) epoch ∷ [], tables_taken)
    unfolding claim_discord_interaction_jobs
    claim-due due = rw (v.control, candidates-due due, claim-row due)

    pub claim-not_due :
        is_claimable now epoch row ≡ false
        → claim_discord_interaction_jobs collates_after random_uuid now draw (some id) s ≡ ([], s)
    unfolding claim_discord_interaction_jobs
    claim-not_due rest = rw (v.control, candidates-not_due rest) (unfold claim_candidates in refl)

module _ (id : Text) (epoch : ℕ) (row : JobRow) (s : JobTables) (v : Stands id epoch row s)
    (claim : JobClaim) (held : holds_claim claim row ≡ true) where
  holds_claim-within : (r : JobRow) → holds_claim claim r ≡ true → has_interaction id r ≡ true
  holds_claim-within r h = ground (
    arith,
    v.named,
    text_eq_sound row.interaction_id claim.interaction_id,
    text_eq_sound r.interaction_id claim.interaction_id,
    text_eq_refl id,
  )

  abbrev pub tables_finished : Finished → JobTables
  tables_finished input = with_jobs (update_many (holds_claim claim) (finished_row input) s.jobs) s

  pub finish_claim-held :
      (input : Finished) → finish_claim claim input s ≡ some (tables_finished input)
  unfolding finish_claim
  finish_claim-held input = rw (
    count_within (has_interaction id) (holds_claim claim) holds_claim-within s.jobs row v.one
        v.here,
    held,
  )

  pub finish_claim-Stands :
      (input : Finished) → Stands id epoch (finished_row input row) (tables_finished input)
  finish_claim-Stands input =
      update_many-Stands (holds_claim claim) (finished_row input) (λ r. refl) id epoch row s v held

  pub is_dispatch_allowed-held :
      claim.rendered_epoch ≡ epoch
      → row.rendered_epoch ≡ epoch
      → is_discord_interaction_dispatch_allowed claim s ≡ true
  unfolding is_discord_interaction_dispatch_allowed
  is_dispatch_allowed-held same current =
      let e : claim.interaction_id ≡ id =
        ground (arith, v.named, text_eq_sound row.interaction_id claim.interaction_id) in
      rw (v.control, e, v.here) (ground arith)
