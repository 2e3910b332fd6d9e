-- ===== src/Maintenance/Scan/Tombstones.antt =====
-- When the ledger of messages is reduced in src/lib/maintenance-service.ts.
use info_room_reservation_si.Prelude.{
  ℕ, ◌+◌, ◌≡◌, refl, Bool, true, false, not, ◌&&◌, Option, none, some, List, [], ◌∷◌, Text, length,
  count, any, ◌==◌, arith,
}
use info_room_reservation_si.Effects.{Awaited, returned, thrown, World, call, continue}
use info_room_reservation_si.Maintenance.Scan.{
  delete_from, delete_matches_and_reduce, after_scan, process_history_page, scan_from, scan_with,
  scan_unknown_candidate, retain_known, retain_by, retain_candidate,
}
use info_room_reservation_si.Maintenance.Ledger.{
  ScanDependencies, RetentionCandidate, Continuation, CandidateKind, known, local, unknown,
  HistoryPage, found, retryable_failure, terminal_failure, removed, TombstoneOutcome, ScanCall,
  listed, deleted, deleted_local, reduced, next_continuation, continuation_of, match_outcome,
  page_size, known_match,
}

abbrev pub is_removed : ScanCall → Bool
is_removed (deleted id (returned removed)) = true
is_removed _ = false

abbrev pub is_reduced : ScanCall → Bool
is_reduced (reduced input answer) = true
is_reduced _ = false

abbrev pub is_listed : ScanCall → Bool
is_listed (listed answer) = true
is_listed _ = false

-- The ledger is reduced last, if at all, and after as many deletions as it is told of matches.
abbrev pub is_fitting : List ScanCall → Bool
is_fitting (reduced input answer ∷ calls) =
    count is_removed calls == input.match_count && not (any is_reduced calls)
is_fitting calls = not (any is_reduced calls)

-- A candidate is done with only once the ledger has changed.
abbrev pub is_told : Awaited (Option Text) → List ScanCall → Bool
is_told (returned none) (reduced input (returned true) ∷ calls) = true
is_told (returned none) (deleted_local (returned true) ∷ calls) = true
is_told (returned none) calls = false
is_told (returned (some code)) calls = true
is_told (thrown message) calls = true

module _ {S : Type 0} (dependencies : ScanDependencies S) (candidate : RetentionCandidate)
    (now : ℕ) where
  abbrev IsKept : Awaited (Option Text) × World S ScanCall → Type 0
  IsKept (result, w) = (is_fitting w.calls ≡ true) × (is_told result w.calls ≡ true)

  abbrev IsClear : List ScanCall → Type 0
  IsClear calls = (count is_removed calls ≡ 0) × (any is_reduced calls ≡ false)

  delete_from-IsKept :
      (channel : Text) (continuation : Option Continuation) (matches : ℕ)
      (outcome : TombstoneOutcome) (ids : List Text) (w : World S ScanCall)
      → count is_removed w.calls + length ids ≡ matches
      → any is_reduced w.calls ≡ false
      → IsKept (delete_from dependencies candidate now channel continuation matches outcome ids w)
  unfolding delete_from
  delete_from-IsKept channel continuation matches outcome [] w e clear = ground arith
  delete_from-IsKept channel none matches outcome (id ∷ ids) w e clear = ground (
    arith,
    delete_from-IsKept channel none matches outcome ids
        (call (deleted id) (dependencies.delete_channel_message channel id) w).1,
  )
  delete_from-IsKept channel (some continuation) matches outcome (id ∷ ids) w e clear = ground (
    arith,
    delete_from-IsKept channel (some continuation) matches outcome ids
        (call (deleted id) (dependencies.delete_channel_message channel id) w).1,
  )

  delete_matches_and_reduce-IsKept :
      (channel : Option Text) (continuation : Option Continuation) (ids : List Text)
      (outcome : TombstoneOutcome) (w : World S ScanCall)
      → IsClear w.calls
      → IsKept
          (delete_matches_and_reduce dependencies candidate now channel continuation ids outcome w)
  delete_matches_and_reduce-IsKept none continuation ids outcome w clear = ground arith
  delete_matches_and_reduce-IsKept (some channel) continuation ids outcome w clear =
      delete_from-IsKept channel continuation (length ids) outcome ids w (omega arith) clear.1

  after_scan-IsKept :
      (continuation : Continuation) (w : World S ScanCall)
      → IsClear w.calls
      → IsKept (after_scan dependencies candidate now continuation w)
  after_scan-IsKept continuation w clear = ground (
    arith,
    delete_matches_and_reduce-IsKept candidate.channel_id (some continuation)
        continuation.matched_message_ids (match_outcome continuation.matched_message_ids) w,
  )

  process_history_page-IsKept :
      (previous : Continuation) (page : HistoryPage) (w : World S ScanCall)
      → IsClear w.calls
      → IsKept (process_history_page dependencies candidate now previous page w)
  unfolding process_history_page
  process_history_page-IsKept previous (found messages) w clear =
      after_scan-IsKept (next_continuation candidate previous messages) w clear
  process_history_page-IsKept previous (retryable_failure code) w clear = ground arith
  process_history_page-IsKept previous (terminal_failure code) w clear = ground arith

  listed-IsKept :
      (previous : Continuation) (page : Awaited HistoryPage) (w : World S ScanCall)
      → IsClear w.calls
      → IsKept (continue (process_history_page dependencies candidate now previous) (page, w))
  listed-IsKept previous (returned page) w clear = process_history_page-IsKept previous page w clear
  listed-IsKept previous (thrown message) w clear = ground arith

  scan_from-IsKept :
      (channel : Text) (previous : Continuation) (w : World S ScanCall)
      → IsClear w.calls
      → IsKept (scan_from dependencies candidate now channel previous w)
  scan_from-IsKept channel previous w clear = ground (
    arith,
    delete_matches_and_reduce-IsKept candidate.channel_id (some previous)
        previous.matched_message_ids (match_outcome previous.matched_message_ids) w,
    listed-IsKept previous
        (dependencies.list_channel_messages_page previous.before channel page_size w.state).0
        (call listed (dependencies.list_channel_messages_page previous.before channel page_size)
          w).1,
  )

  scan_with-IsKept :
      (config : Bool) (channel boundary : Option Text) (w : World S ScanCall)
      → IsClear w.calls
      → IsKept (scan_with dependencies candidate now config channel boundary w)
  scan_with-IsKept true (some channel) (some boundary) w clear =
      scan_from-IsKept channel (continuation_of candidate candidate.continuation) w clear
  scan_with-IsKept false channel boundary w clear = ground arith
  scan_with-IsKept true none boundary w clear = ground arith
  scan_with-IsKept true (some channel) none w clear = ground arith

  retain_known-IsKept :
      (config : Bool) (channel message : Option Text) (w : World S ScanCall)
      → IsClear w.calls
      → IsKept (retain_known dependencies candidate now config channel message w)
  retain_known-IsKept true (some channel) (some message) w clear =
      delete_matches_and_reduce-IsKept (some channel) none (message ∷ []) known_match w clear
  retain_known-IsKept false channel message w clear = ground arith
  retain_known-IsKept true none message w clear = ground arith
  retain_known-IsKept true (some channel) none w clear = ground arith

  retain_by-IsKept :
      (kind : CandidateKind) (w : World S ScanCall)
      → IsClear w.calls
      → IsKept (retain_by dependencies candidate now kind w)
  unfolding scan_unknown_candidate
  retain_by-IsKept local w clear = ground arith
  retain_by-IsKept known w clear =
      retain_known-IsKept (dependencies.has_application_config w.state) candidate.channel_id
        candidate.message_id w clear
  retain_by-IsKept unknown w clear =
      scan_with-IsKept (dependencies.has_application_config w.state) candidate.channel_id
        candidate.attempt_boundary w clear

  -- Whatever the repository and Discord answer or throw, a candidate's entry in the ledger is reduced
  -- last, if at all, and after as many messages were removed as it is told of matches; and the candidate
  -- counts as done with only where the ledger has accepted its reduction or its deletion.
  pub retain_candidate-IsKept :
      (s : S)
      → (is_fitting
            (retain_candidate dependencies candidate now (record { state = s; calls = [] })).1.calls
          ≡ true)
        × (is_told
              (retain_candidate dependencies candidate now (record { state = s; calls = [] })).0
              (retain_candidate dependencies candidate now
                (record { state = s; calls = [] })).1.calls
            ≡ true)
  unfolding retain_candidate
  retain_candidate-IsKept s =
      retain_by-IsKept candidate.kind (record { state = s; calls = [] }) (refl, refl)
