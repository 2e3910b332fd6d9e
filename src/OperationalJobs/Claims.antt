-- ===== src/OperationalJobs/Claims.antt =====
-- Claims of a job: who may run it, and who may report its end.
use info_room_reservation_si.Prelude.{
  ℕ, ◌+◌, ◌≤◌, ◌<◌, ◌≡◌, ◌⊎◌, inl, inr, Option, none, some, List, [], ◌∷◌, arith, length,
  Bool-cases,
}
use info_room_reservation_si.OperationalJobs.{
  OperationalJobRecord, running, is_held, restarted, try_start, FinishInput, finish,
}

-- While a claim runs and has not timed out, the job cannot be claimed again and its row stays as it
-- is; any other row is claimed, and then runs from the claim's time.
pub try_start_lem :
    (started_at timeout_ms : ℕ) (existing : OperationalJobRecord)
    → ((existing.status ≡ running)
        × (started_at < existing.started_at + timeout_ms)
        × (try_start started_at timeout_ms (some existing) ≡ (none, some existing)))
      ⊎ ((existing.status ≡ running → existing.started_at + timeout_ms ≤ started_at)
          × (try_start started_at timeout_ms (some existing)
              ≡ (some (restarted existing started_at), some (restarted existing started_at))))
unfolding try_start
try_start_lem started_at timeout_ms existing =
    elim (Bool-cases (is_held existing started_at timeout_ms)) [
      | inl held ↦ inl (ground arith, ground arith, ground arith)
      | inr free ↦ inr (λ r. ground arith, ground arith)
    ]

-- The row of a job, the times of the granted claims and those of the reported ends, newest first.
pub record System : Type 0 where
  pub row : Option OperationalJobRecord
  pub claims : List ℕ
  pub ends : List ℕ

abbrev pub granted : Option OperationalJobRecord × Option OperationalJobRecord → ℕ → System → System
granted (none, row) started_at s = record s { row = row }
granted (some claim, row) started_at s = record s { row = row; claims = started_at ∷ s.claims }

abbrev pub ended : Option OperationalJobRecord → FinishInput → System → System
ended none input s = s
ended (some row) input s = record s { row = some row; ends = input.started_at ∷ s.ends }

pub data Step (s : System) : System → Type 0 where
  start :
      (started_at timeout_ms : ℕ)
      → Step s (granted (try_start started_at timeout_ms s.row) started_at s)
  report_end : (input : FinishInput) → Step s (ended (finish input s.row) input s)

pub data Reach (s : System) : System → Type 0 where
  here : Reach s s
  more : {t u : System} → Reach s t → Step t u → Reach s u

abbrev pub fresh : System
fresh = record { row = none; claims = []; ends = [] }

abbrev pub is_running : Option OperationalJobRecord → ℕ
is_running none = 0
is_running (some row) = elim row.status [ running ↦ 1 | _ ↦ 0 ]

-- The claim that runs is the newest one.
abbrev pub IsNewest : Option OperationalJobRecord → List ℕ → Type 0
IsNewest none claims = Unit
IsNewest (some row) [] = ⊥
IsNewest (some row) (newest ∷ claims) = row.started_at ≡ newest

pub record IsConsistent (s : System) : Type 0 where
  pub newest : IsNewest s.row s.claims
  pub at_most_once : length s.ends + is_running s.row ≤ length s.claims

start-IsConsistent :
    (started_at timeout_ms : ℕ) (s : System)
    → IsConsistent s
    → IsConsistent (granted (try_start started_at timeout_ms s.row) started_at s)
unfolding try_start
start-IsConsistent started_at timeout_ms s v = ground arith

report_end-IsConsistent :
    (input : FinishInput) (s : System)
    → IsConsistent s
    → IsConsistent (ended (finish input s.row) input s)
unfolding finish
report_end-IsConsistent input s v = ground arith

Step-IsConsistent : {s t : System} → Step s t → IsConsistent s → IsConsistent t
Step-IsConsistent {s} (start started_at timeout_ms) v = start-IsConsistent started_at timeout_ms s v
Step-IsConsistent {s} (report_end input) v = report_end-IsConsistent input s v

-- In whatever order workers claim a job and report its end: the row belongs to the newest claim,
-- and the ends that are accepted, with the claim that runs, are no more than the claims.
pub Reach-IsConsistent : {s : System} → Reach fresh s → IsConsistent s
Reach-IsConsistent here = record { newest = tt; at_most_once = omega arith }
Reach-IsConsistent (more r step) = Step-IsConsistent step (Reach-IsConsistent r)

-- A worker whose claim was taken over cannot report its end: once a later claim is granted, the
-- report of the older one is rejected, and the row stays with the newer claim.
pub finish_taken_over :
    (input : FinishInput) (s : System) (started_at timeout_ms : ℕ) (claim : OperationalJobRecord)
    → (try_start started_at timeout_ms s.row).0 ≡ some claim
    → input.started_at < started_at
    → finish input (try_start started_at timeout_ms s.row).1 ≡ none
unfolding try_start finish
finish_taken_over input s started_at timeout_ms claim h l = ground arith
