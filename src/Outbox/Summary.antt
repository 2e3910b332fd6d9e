-- ===== src/Outbox/Summary.antt =====
-- The counts of a run: `summarizeInitialRun` of src/lib/discord-reservation-outbox-contracts.ts and
-- `summarizeSync` of src/lib/discord-reservation-outbox.ts.
use info_room_reservation_si.Prelude.{
  ℕ, ◌+◌, ◌≡◌, Bool, true, false, List, [], ◌∷◌, length, count, filter, length-filter, refl, arith,
}
use info_room_reservation_si.Outbox.InitialContracts.{InitialClaimResult}
use info_room_reservation_si.Outbox.SyncContracts.{SyncClaimResult, abandoned, synced}

pub record InitialRunSummary : Type 0 where
  pub claimed : ℕ
  pub retried : ℕ
  pub review : ℕ
  pub sent : ℕ
  pub terminal : ℕ

abbrev pub add_initial_result : InitialRunSummary → InitialClaimResult → InitialRunSummary
add_initial_result summary InitialClaimResult.retried = record summary {
  retried = summary.retried + 1;
}
add_initial_result summary InitialClaimResult.review = record summary {
  review = summary.review + 1;
}
add_initial_result summary InitialClaimResult.sent = record summary { sent = summary.sent + 1 }
add_initial_result summary InitialClaimResult.terminal = record summary {
  terminal = summary.terminal + 1;
}

-- `reduce`
abbrev pub add_all : InitialRunSummary → List InitialClaimResult → InitialRunSummary
add_all summary [] = summary
add_all summary (r ∷ results) = add_all (add_initial_result summary r) results

unfoldable pub summarize_initial_run : List InitialClaimResult → InitialRunSummary
summarize_initial_run results =
    add_all (record { claimed = length results; retried = 0; review = 0; sent = 0; terminal = 0 })
      results

pub record SyncRunSummary : Type 0 where
  pub abandoned : ℕ
  pub claimed : ℕ
  pub retried : ℕ
  pub synced : ℕ

abbrev is_abandoned : SyncClaimResult → Bool
is_abandoned abandoned = true
is_abandoned _ = false

abbrev is_retried : SyncClaimResult → Bool
is_retried SyncClaimResult.retried = true
is_retried _ = false

abbrev is_synced : SyncClaimResult → Bool
is_synced synced = true
is_synced _ = false

unfoldable pub summarize_sync : List SyncClaimResult → SyncRunSummary
summarize_sync results = record {
  abandoned = length (filter is_abandoned results);
  claimed = length results;
  retried = length (filter is_retried results);
  synced = length (filter is_synced results);
}

add_all-total :
    (summary : InitialRunSummary) (results : List InitialClaimResult)
    → let total = add_all summary results in
      total.retried + total.review + total.sent + total.terminal
      ≡ summary.retried + summary.review + summary.sent + summary.terminal + length results
add_all-total summary [] = omega arith
add_all-total summary (InitialClaimResult.retried ∷ results) =
    omega (arith, add_all-total (add_initial_result summary InitialClaimResult.retried) results)
add_all-total summary (InitialClaimResult.review ∷ results) =
    omega (arith, add_all-total (add_initial_result summary InitialClaimResult.review) results)
add_all-total summary (InitialClaimResult.sent ∷ results) =
    omega (arith, add_all-total (add_initial_result summary InitialClaimResult.sent) results)
add_all-total summary (InitialClaimResult.terminal ∷ results) =
    omega (arith, add_all-total (add_initial_result summary InitialClaimResult.terminal) results)

add_all-claimed :
    (summary : InitialRunSummary) (results : List InitialClaimResult)
    → (add_all summary results).claimed ≡ summary.claimed
add_all-claimed summary [] = refl
add_all-claimed summary (InitialClaimResult.retried ∷ results) =
    add_all-claimed (add_initial_result summary InitialClaimResult.retried) results
add_all-claimed summary (InitialClaimResult.review ∷ results) =
    add_all-claimed (add_initial_result summary InitialClaimResult.review) results
add_all-claimed summary (InitialClaimResult.sent ∷ results) =
    add_all-claimed (add_initial_result summary InitialClaimResult.sent) results
add_all-claimed summary (InitialClaimResult.terminal ∷ results) =
    add_all-claimed (add_initial_result summary InitialClaimResult.terminal) results

-- Every claim of a run is counted under one result.
pub summarize_initial_run-total :
    (results : List InitialClaimResult)
    → let run = summarize_initial_run results in
      run.retried + run.review + run.sent + run.terminal ≡ run.claimed
unfolding summarize_initial_run
summarize_initial_run-total results = omega (
  arith,
  add_all-total
      (record { claimed = length results; retried = 0; review = 0; sent = 0; terminal = 0 })
      results,
  add_all-claimed
      (record { claimed = length results; retried = 0; review = 0; sent = 0; terminal = 0 })
      results,
)

count-results :
    (results : List SyncClaimResult)
    → count is_abandoned results + count is_retried results + count is_synced results
      ≡ length results
count-results [] = omega arith
count-results (r ∷ results) = ground (arith, count-results results)

pub summarize_sync-total :
    (results : List SyncClaimResult)
    → let run = summarize_sync results in run.abandoned + run.retried + run.synced ≡ run.claimed
unfolding summarize_sync
summarize_sync-total results = omega (
  arith,
  count-results results,
  length-filter is_abandoned results,
  length-filter is_retried results,
  length-filter is_synced results,
)
