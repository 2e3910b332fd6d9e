-- ===== src/Examples/Maintenance.antt =====
-- Clean-ups over stores that are written down.
use info_room_reservation_si.Prelude.{
  ℕ, ◌+◌, ◌-◌, ◌≡◌, ◌==◌, refl, true, false, none, some, [], ◌∷◌, Text, codes, text_eq, ltb,
  if◌then◌else◌,
}
use info_room_reservation_si.DiscordRepair.{zero_partial}
use info_room_reservation_si.Effects.{returned, thrown, Operation}
use info_room_reservation_si.Maintenance.{
  BatchResult, sessions, DiscordCleanupStore, CleanupStore, drain_expiry_batches,
  run_maintenance_cleanup,
}
use info_room_reservation_si.Maintenance.Drained.{IsDrained, drain_expiry_batches-IsDrained}
use info_room_reservation_si.Maintenance.Isolation.{is_returned, run_maintenance_cleanup-returns}
use info_room_reservation_si.Maintenance.Scan.{retain_candidate, delete_from}
use info_room_reservation_si.Maintenance.Ledger.{
  ScanDependencies, RetentionCandidate, known, found, removed, HistoryMessage, Continuation,
  next_continuation,
}
use info_room_reservation_si.Maintenance.Scan.Tombstones.{
  is_fitting, is_told, retain_candidate-IsKept,
}
use info_room_reservation_si.Maintenance.Scan.Pages.{
  SameScan, scan_pages, next_continuation-scan_pages,
}

-- The state counts the rows that have expired; a batch takes a hundred.
abbrev expire : Operation ℕ BatchResult
expire n = (
  returned (record {
    failure_code = none;
    has_more = ltb 100 n;
    processed_count = if ltb 100 n then 100 else n;
    remaining_lower_bound = if ltb 100 n then 1 else 0;
  }),
  if ltb 100 n then n - 100 else 0,
)

drain_expiry_batches-IsDrained_example :
    IsDrained ℕ sessions expire 10 0
      (record { state = 250; calls = [] })
      (drain_expiry_batches sessions expire (record { state = 250; calls = [] }))
drain_expiry_batches-IsDrained_example = drain_expiry_batches-IsDrained ℕ sessions expire 250

abbrev broken_discord : DiscordCleanupStore ℕ
broken_discord = record {
  delete_expired_interaction_jobs = λ now s. (thrown (codes "jobs"), s);
  delete_expired_interaction_receipts = λ now s. (thrown (codes "receipts"), s);
  delete_expired_messages = λ now s. (thrown (codes "messages"), s);
}

abbrev working_store : CleanupStore ℕ ℕ
working_store = record {
  apply_retention_policy = λ now s. (returned 0, s);
  delete_expired_csrf_tokens = λ now. expire;
  delete_expired_rate_limit_buckets = λ now. expire;
  delete_expired_sessions = λ now. expire;
  release_expired_restrictions = λ now. expire;
  revoke_expired_sanctions = λ now. expire;
}

run_maintenance_cleanup-returns_example :
    is_returned
      (run_maintenance_cleanup broken_discord working_store 5
        (record { state = 250; calls = [] })).0
    ≡ true
run_maintenance_cleanup-returns_example =
    run_maintenance_cleanup-returns broken_discord working_store 5 (λ s. refl) (λ s. refl)
      (λ s. refl) (λ s. refl) (λ s. refl) (λ s. refl) (record { state = 250; calls = [] })

abbrev ledger : ScanDependencies ℕ
ledger = record {
  delete_channel_message = λ channel message s. (returned removed, s + 1);
  delete_local_candidate = λ candidate now s. (returned true, s);
  find_expired_candidates = λ now s. (returned [], s);
  has_application_config = λ s. true;
  list_channel_messages_page = λ before channel limit s. (returned (found []), s);
  reduce_to_deletion_tombstone = λ input s. (returned (s == input.match_count), s);
  save_scan_progress = λ candidate continuation now s. (returned true, s);
}

abbrev known_candidate : RetentionCandidate
known_candidate = record {
  attempt_boundary = none;
  channel_id = some (codes "c");
  continuation = none;
  kind = known;
  message_id = some (codes "m");
  nonce = codes "n";
  reservation_id = codes "r1";
  updated_at = 3;
}

known_candidate_test :
    (retain_candidate ledger known_candidate 5 (record { state = 0; calls = [] })).0 ≡ returned none
unfolding retain_candidate delete_from
known_candidate_test = refl

retain_candidate-IsKept_example :
    (is_fitting
        (retain_candidate ledger known_candidate 5 (record { state = 0; calls = [] })).1.calls
      ≡ true)
    × (is_told
          (retain_candidate ledger known_candidate 5 (record { state = 0; calls = [] })).0
          (retain_candidate ledger known_candidate 5 (record { state = 0; calls = [] })).1.calls
        ≡ true)
retain_candidate-IsKept_example = retain_candidate-IsKept ledger known_candidate 5 0

abbrev message : Text → HistoryMessage
message id = record { id = id; nonce = some (codes "n") }

abbrev fresh : Continuation
fresh = record {
  attempt_boundary = some (codes "m0");
  before = none;
  complete = false;
  last_error_code = none;
  matched_message_ids = [];
  pages_scanned = 0;
  status = zero_partial;
}

next_continuation-scan_pages_example :
    SameScan
      (next_continuation known_candidate
        (scan_pages known_candidate fresh ((message (codes "m3") ∷ []) ∷ []))
        (message (codes "m2") ∷ message (codes "m0") ∷ []))
      (next_continuation known_candidate fresh
        (message (codes "m3") ∷ message (codes "m2") ∷ message (codes "m0") ∷ []))
unfolding text_eq
next_continuation-scan_pages_example =
    next_continuation-scan_pages known_candidate fresh ((message (codes "m3") ∷ []) ∷ [])
      (message (codes "m2") ∷ message (codes "m0") ∷ []) (refl, tt)
