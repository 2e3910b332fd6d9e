-- ===== src/Maintenance/Drained.antt =====
-- What draining the batches of a stage in src/lib/maintenance-service.ts comes to.
use info_room_reservation_si.Prelude.{
  ℕ, zero, suc, ◌+◌, ◌≤◌, ◌≡◌, refl, sym, Bool, true, false, Option, none, some, List, [], ◌∷◌,
  Text, length, arith,
}
use info_room_reservation_si.Effects.{Awaited, returned, thrown, World, Operation, Action, continue}
use info_room_reservation_si.Maintenance.{
  BatchResult, DrainResult, MaintenanceCall, expired, applied, Stage, at_least_one, drain_from,
  after_batch, drain_expiry_batches, max_expiry_batches,
}

abbrev pub remaining_of : ℕ → Option Text → ℕ
remaining_of remaining none = remaining
remaining_of remaining (some code) = at_least_one remaining

module _ {R : Type 0} where
  -- The rows that the listed batches processed.
  abbrev pub total : List (MaintenanceCall R) → ℕ
  total [] = 0
  total (expired stage (returned batch) ∷ calls) = batch.processed_count + total calls
  total (expired stage (thrown message) ∷ calls) = total calls
  total (applied answer ∷ calls) = total calls

  -- The result tells of what is left as the last batch did.
  abbrev pub Tells : DrainResult → List (MaintenanceCall R) → Type 0
  Tells result (expired stage (returned batch) ∷ calls) =
      (result.failure_code ≡ batch.failure_code)
      × (result.remaining_lower_bound ≡ remaining_of batch.remaining_lower_bound batch.failure_code)
  Tells result (expired stage (thrown message) ∷ calls) = ⊥
  Tells result (applied answer ∷ calls) = ⊥
  Tells result [] = ⊥

module _ {S : Type 0} (R : Type 0) (stage : Stage) (expire_batch : Operation S BatchResult) where
  abbrev pub IsDrained :
      ℕ
      → ℕ
      → World S (MaintenanceCall R)
      → Awaited DrainResult × World S (MaintenanceCall R)
      → Type 0
  IsDrained left processed w (returned result, w') =
      (total w'.calls + processed ≡ total w.calls + result.processed_count)
      × Tells result w'.calls
      × (length w'.calls ≤ length w.calls + left)
  IsDrained left processed w (thrown message, w') = length w'.calls ≤ length w.calls + left

  abbrev seen : World S (MaintenanceCall R) → BatchResult → S → World S (MaintenanceCall R)
  seen w batch s = record { state = s; calls = expired stage (returned batch) ∷ w.calls }

  -- What holds of the rest of the loop holds with one more batch before it.
  IsDrained-before :
      (left processed : ℕ) (w : World S (MaintenanceCall R)) (batch : BatchResult) (s : S)
      (r : Awaited DrainResult × World S (MaintenanceCall R))
      → IsDrained left (processed + batch.processed_count) (seen w batch s) r
      → IsDrained (suc left) processed w r
  IsDrained-before left processed w batch s (returned result, w') (sum, tells, few) =
      (omega arith, tells, omega arith)
  IsDrained-before left processed w batch s (thrown message, w') few = omega arith

  after_batch-IsDrained :
      (failure : Option Text) (more : Bool) (left processed : ℕ) (w : World S (MaintenanceCall R))
      (batch : BatchResult) (s : S) (next : Action S (MaintenanceCall R) DrainResult)
      → batch.failure_code ≡ failure
      → (more ≡ true
          → (k : ℕ) → left ≡ suc k
          → IsDrained left
              (processed + batch.processed_count)
              (seen w batch s)
              (next (seen w batch s)))
      → IsDrained (suc left) processed w (
          after_batch failure more left
            (processed + batch.processed_count)
            batch.remaining_lower_bound
            next
            (seen w batch s))
  after_batch-IsDrained (some code) more left processed w batch s next e rest =
      (omega arith, (sym e, rw e), omega arith)
  after_batch-IsDrained none false left processed w batch s next e rest =
      (omega arith, (sym e, rw e), omega arith)
  after_batch-IsDrained none true zero processed w batch s next e rest =
      (omega arith, (sym e, rw e), omega arith)
  after_batch-IsDrained none true (suc left) processed w batch s next e rest =
      IsDrained-before (suc left) processed w batch s (next (seen w batch s)) (rest refl left refl)

  after_answer-IsDrained :
      (left processed : ℕ) (w : World S (MaintenanceCall R)) (answer : Awaited BatchResult) (s : S)
      → ((k : ℕ)
          → left ≡ suc k
          → (n : ℕ) (u : World S (MaintenanceCall R))
          → IsDrained left n u (drain_from stage expire_batch left n u))
      → IsDrained (suc left) processed w (
          continue
            (λ (batch : BatchResult).
              after_batch batch.failure_code batch.has_more left
                (processed + batch.processed_count)
                batch.remaining_lower_bound
                (drain_from stage expire_batch left (processed + batch.processed_count)))
            (answer, record { state = s; calls = expired stage answer ∷ w.calls }))
  after_answer-IsDrained left processed w (returned batch) s rest =
      after_batch-IsDrained batch.failure_code batch.has_more left processed w batch s
        (drain_from stage expire_batch left (processed + batch.processed_count)) refl
        (λ more k e. rest k e (processed + batch.processed_count) (seen w batch s))
  after_answer-IsDrained left processed w (thrown message) s rest = omega arith

  drain_from-IsDrained :
      (left processed : ℕ) (w : World S (MaintenanceCall R))
      → IsDrained (suc left) processed w (drain_from stage expire_batch (suc left) processed w)
  unfolding drain_from
  drain_from-IsDrained zero processed w =
      after_answer-IsDrained zero processed w (expire_batch w.state).0 (expire_batch w.state).1
        (λ k e. absurd (omega arith))
  drain_from-IsDrained (suc left) processed w =
      after_answer-IsDrained (suc left) processed w (expire_batch w.state).0
        (expire_batch w.state).1 (λ k e. drain_from-IsDrained left)

  -- The batches of a stage, from the first call on: there are at most ten. Where none throws, the result
  -- counts all rows that they processed, and its failure and what is left are those of the last batch,
  -- with at least one left after a failure.
  pub drain_expiry_batches-IsDrained :
      (s : S)
      → IsDrained max_expiry_batches 0
          (record { state = s; calls = [] })
          (drain_expiry_batches stage expire_batch (record { state = s; calls = [] }))
  unfolding drain_expiry_batches
  drain_expiry_batches-IsDrained s = drain_from-IsDrained 9 0 (record { state = s; calls = [] })
