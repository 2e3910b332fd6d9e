-- ===== src/Maintenance/Scan.antt =====
-- `createDiscordMessageRetentionCleanup` of src/lib/maintenance-service.ts: expired messages are looked
-- up, deleted at Discord and reduced in the ledger, over any repository and bot. Events are not logged.
pub mod Tombstones
pub mod Pages
use info_room_reservation_si.Prelude.{
  ℕ, zero, suc, ◌+◌, ◌-◌, Bool, true, false, not, ◌&&◌, ◌||◌, Option, none, some, List, [], ◌∷◌,
  ◌++◌, Text, codes, text_eq, leb, ltb, length, take, filter, count, any, if◌then◌else◌, map, ◌==◌,
}
use info_room_reservation_si.TransactionRetry.{distinct}
use info_room_reservation_si.DiscordRepair.{
  DiscordRemoteVerificationState, multiple, partial, unique, zero_complete, zero_partial,
}
use info_room_reservation_si.Effects.{
  Awaited, returned, thrown, World, Operation, Action, pure, look, call, ◌>>=◌, ◌>>◌,
}
use info_room_reservation_si.Maintenance.{BatchResult}
use info_room_reservation_si.Maintenance.Ledger.{
  Continuation, CandidateKind, known, local, unknown, RetentionCandidate, TombstoneOutcome,
  known_match, several_matches, one_match, TombstoneInput, HistoryMessage, HistoryPage, found,
  retryable_failure, terminal_failure, DeleteResult, removed, failed, ScanDependencies, ScanCall,
  listed, deleted, deleted_local, reduced, saved, batch_size, page_size, scan_page_cap,
  initial_continuation, verification_status, continuation_of, is_boundary, relevant_messages,
  has_nonce, message_ids, last_id, next_continuation, match_outcome, conflict, incomplete,
  unless_saved, failed_continuation,
}

-- The code of an error, or `none` where the candidate is done with
module _ {S : Type 0} (dependencies : ScanDependencies S) (candidate : RetentionCandidate)
    (now : ℕ) where
  abbrev pub Step : Type 0 → Type 0
  Step A = Action S ScanCall A

  abbrev pub save : Continuation → Step Bool
  save continuation =
      call (saved continuation) (dependencies.save_scan_progress candidate continuation now)

  abbrev pub tombstone : ℕ → TombstoneOutcome → TombstoneInput
  tombstone matches outcome = record {
    candidate = candidate;
    match_count = matches;
    now = now;
    outcome = outcome;
  }

  abbrev pub reduce : ℕ → TombstoneOutcome → Step (Option Text)
  reduce matches outcome = do
    kept ←
        call (reduced (tombstone matches outcome))
          (dependencies.reduce_to_deletion_tombstone (tombstone matches outcome))
    pure (if kept then none else conflict)

  -- A failed deletion, whose code is kept with the scan, if there is one
  abbrev pub after_failure : Option Continuation → Text → Step (Option Text)
  after_failure none code = pure (some code)
  after_failure (some continuation) code = do
    kept ← save (record continuation { last_error_code = some code })
    pure (unless_saved (some code) kept)

  abbrev pub after_delete :
      Option Continuation → Step (Option Text) → DeleteResult → Step (Option Text)
  after_delete continuation next removed = next
  after_delete continuation next (failed code) = after_failure continuation code

  -- The loop over the messages, and the ledger after it.
  unfoldable pub delete_from :
      Text → Option Continuation → ℕ → TombstoneOutcome → List Text → Step (Option Text)
  delete_from channel continuation matches outcome [] = reduce matches outcome
  delete_from channel continuation matches outcome (id ∷ ids) =
      call (deleted id) (dependencies.delete_channel_message channel id)
      >>= after_delete continuation (delete_from channel continuation matches outcome ids)

  abbrev pub delete_matches_and_reduce :
      Option Text → Option Continuation → List Text → TombstoneOutcome → Step (Option Text)
  delete_matches_and_reduce none continuation ids outcome = pure incomplete
  delete_matches_and_reduce (some channel) continuation ids outcome =
      delete_from channel continuation (length ids) outcome ids

  abbrev pub progress_code : Continuation → Option Text
  progress_code continuation =
      if not continuation.complete && leb scan_page_cap continuation.pages_scanned
      then some (codes "discord_retention_scan_cap")
      else if continuation.complete
      then some (codes "discord_retention_zero_match")
      else some (codes "discord_retention_scan_partial")

  abbrev pub after_scan : Continuation → Step (Option Text)
  after_scan continuation w =
      if not continuation.complete || length continuation.matched_message_ids == 0
      then (save continuation >>= λ kept. pure (unless_saved (progress_code continuation) kept)) w
      else delete_matches_and_reduce candidate.channel_id (some continuation)
          continuation.matched_message_ids (match_outcome continuation.matched_message_ids) w

  abbrev pub save_failed : Text → Continuation → Step (Option Text)
  save_failed code previous = do
    kept ← save (failed_continuation code previous)
    pure (unless_saved (some code) kept)

  unfoldable pub process_history_page : Continuation → HistoryPage → Step (Option Text)
  process_history_page previous (found messages) =
      after_scan (next_continuation candidate previous messages)
  process_history_page previous (retryable_failure code) = save_failed code previous
  process_history_page previous (terminal_failure code) = save_failed code previous

  abbrev pub scan_from : Text → Continuation → Step (Option Text)
  scan_from channel previous w =
      if previous.complete
      then (if length previous.matched_message_ids == 0
          then (returned (some (codes "discord_retention_zero_match")), w)
          else delete_matches_and_reduce candidate.channel_id (some previous)
              previous.matched_message_ids (match_outcome previous.matched_message_ids) w)
      else if leb scan_page_cap previous.pages_scanned
      then (returned (some (codes "discord_retention_scan_cap")), w)
      else (call listed (dependencies.list_channel_messages_page previous.before channel page_size)
            >>= process_history_page previous)
          w

  abbrev pub save_incomplete : Step (Option Text)
  save_incomplete = do
    kept ← save (
        failed_continuation (codes "discord_retention_lookup_incomplete")
          (continuation_of candidate candidate.continuation))
    pure (unless_saved incomplete kept)

  abbrev pub scan_with : Bool → Option Text → Option Text → Step (Option Text)
  scan_with true (some channel) (some boundary) =
      scan_from channel (continuation_of candidate candidate.continuation)
  scan_with false channel boundary = save_incomplete
  scan_with true none boundary = save_incomplete
  scan_with true (some channel) none = save_incomplete

  unfoldable pub scan_unknown_candidate : Step (Option Text)
  scan_unknown_candidate w =
      scan_with (dependencies.has_application_config w.state) candidate.channel_id
        candidate.attempt_boundary w

  abbrev pub retain_known : Bool → Option Text → Option Text → Step (Option Text)
  retain_known true (some channel) (some message) =
      delete_matches_and_reduce (some channel) none (message ∷ []) known_match
  retain_known false channel message = pure incomplete
  retain_known true none message = pure incomplete
  retain_known true (some channel) none = pure incomplete

  abbrev pub retain_by : CandidateKind → Step (Option Text)
  retain_by local = do
    gone ← call deleted_local (dependencies.delete_local_candidate candidate now)
    pure (if gone then none else conflict)
  retain_by known = λ w.
      retain_known (dependencies.has_application_config w.state) candidate.channel_id
        candidate.message_id w
  retain_by unknown = scan_unknown_candidate

  unfoldable pub retain_candidate : Step (Option Text)
  retain_candidate = retain_by candidate.kind

abbrev pub is_code : Option Text → Bool
is_code none = false
is_code (some code) = true

abbrev pub first_code : List (Option Text) → Option Text
first_code [] = none
first_code (none ∷ outcomes) = first_code outcomes
first_code (some code ∷ outcomes) = some code

abbrev pub batch_of : Bool → List (Option Text) → BatchResult
batch_of additional outcomes = record {
  failure_code = first_code outcomes;
  has_more = additional && count is_code outcomes == 0;
  processed_count = length outcomes - count is_code outcomes;
  remaining_lower_bound = count is_code outcomes + (if additional then 1 else 0);
}

module _ {S : Type 0} (dependencies : ScanDependencies S) (now : ℕ) where
  unfoldable pub retain_all : List RetentionCandidate → Action S ScanCall (List (Option Text))
  retain_all [] = pure []
  retain_all (candidate ∷ candidates) = do
    code ← retain_candidate dependencies candidate now
    codes ← retain_all candidates
    pure (code ∷ codes)

  unfoldable pub clean_up_messages : Action S ScanCall BatchResult
  clean_up_messages = do
    candidates ← look (dependencies.find_expired_candidates now)
    outcomes ← retain_all (take batch_size candidates)
    pure (batch_of (ltb batch_size (length candidates)) outcomes)
