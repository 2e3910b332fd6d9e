-- ===== src/Maintenance/Ledger.antt =====
-- The ledger of messages in src/lib/maintenance-service.ts: its candidates, and how far their scans are.
use info_room_reservation_si.Prelude.{
  ℕ, zero, suc, ◌+◌, Bool, true, false, ◌||◌, Option, none, some, List, [], ◌∷◌, ◌++◌, Text, codes,
  text_eq, ltb, length, filter, any, if◌then◌else◌, ◌==◌,
}
use info_room_reservation_si.TransactionRetry.{distinct}
use info_room_reservation_si.DiscordRepair.{
  DiscordRemoteVerificationState, multiple, partial, unique, zero_complete, zero_partial,
}
use info_room_reservation_si.Effects.{Awaited, Operation}

-- `DiscordRemoteVerificationContinuation`, without its version, which is always 1
pub record Continuation : Type 0 where
  pub attempt_boundary : Option Text
  pub before : Option Text
  pub complete : Bool
  pub last_error_code : Option Text
  pub matched_message_ids : List Text
  pub pages_scanned : ℕ
  pub status : DiscordRemoteVerificationState

pub data CandidateKind : Type 0 where
  known local unknown : CandidateKind

-- `DiscordMessageRetentionCandidate`
pub record RetentionCandidate : Type 0 where
  pub attempt_boundary : Option Text
  pub channel_id : Option Text
  pub continuation : Option Continuation
  pub kind : CandidateKind
  pub message_id : Option Text
  pub nonce : Text
  pub reservation_id : Text
  pub updated_at : ℕ

-- `"KNOWN" | "MULTIPLE" | "UNIQUE"`
pub data TombstoneOutcome : Type 0 where
  known_match several_matches one_match : TombstoneOutcome

pub record TombstoneInput : Type 0 where
  pub candidate : RetentionCandidate
  pub match_count : ℕ
  pub now : ℕ
  pub outcome : TombstoneOutcome

-- A message of the channel, with its nonce
pub record HistoryMessage : Type 0 where
  pub id : Text
  pub nonce : Option Text

-- `DiscordChannelHistoryPageResult`
pub data HistoryPage : Type 0 where
  found : List HistoryMessage → HistoryPage
  retryable_failure terminal_failure : Text → HistoryPage

-- `DiscordBotDeleteResult`, a failure with its code
pub data DeleteResult : Type 0 where
  removed : DeleteResult
  failed : Text → DeleteResult

pub record ScanDependencies (S : Type 0) : Type 0 where
  -- the channel and the message
  pub delete_channel_message : Text → Text → Operation S DeleteResult
  pub delete_local_candidate : RetentionCandidate → ℕ → Operation S Bool
  pub find_expired_candidates : ℕ → Operation S (List RetentionCandidate)
  pub has_application_config : S → Bool
  -- the message before which to read, the channel, and how many messages
  pub list_channel_messages_page : Option Text → Text → ℕ → Operation S HistoryPage
  pub reduce_to_deletion_tombstone : TombstoneInput → Operation S Bool
  pub save_scan_progress : RetentionCandidate → Continuation → ℕ → Operation S Bool

pub data ScanCall : Type 0 where
  listed : Awaited HistoryPage → ScanCall
  deleted : Text → Awaited DeleteResult → ScanCall
  deleted_local : Awaited Bool → ScanCall
  reduced : TombstoneInput → Awaited Bool → ScanCall
  saved : Continuation → Awaited Bool → ScanCall

abbrev pub batch_size : ℕ
batch_size = 100

abbrev pub page_size : ℕ
page_size = 100

abbrev pub scan_page_cap : ℕ
scan_page_cap = 10

unfoldable pub initial_continuation : Option Text → Continuation
initial_continuation attempt_boundary = record {
  attempt_boundary = attempt_boundary;
  before = none;
  complete = false;
  last_error_code = none;
  matched_message_ids = [];
  pages_scanned = 0;
  status = zero_partial;
}

-- Whether the scan is complete, and how many messages match.
unfoldable pub verification_status : Bool → ℕ → DiscordRemoteVerificationState
verification_status false zero = zero_partial
verification_status false (suc n) = partial
verification_status true zero = zero_complete
verification_status true (suc zero) = unique
verification_status true (suc (suc n)) = multiple

abbrev pub continuation_of : RetentionCandidate → Option Continuation → Continuation
continuation_of candidate none = initial_continuation candidate.attempt_boundary
continuation_of candidate (some continuation) = continuation

-- `id === attemptBoundary`, where the boundary may be null
abbrev pub is_boundary : Option Text → HistoryMessage → Bool
is_boundary none message = false
is_boundary (some boundary) message = text_eq message.id boundary

-- The messages before the boundary: all, if it is not on the page.
unfoldable pub relevant_messages : Option Text → List HistoryMessage → List HistoryMessage
relevant_messages boundary [] = []
relevant_messages boundary (message ∷ messages) =
    if is_boundary boundary message then [] else message ∷ relevant_messages boundary messages

abbrev pub has_nonce : Text → HistoryMessage → Bool
has_nonce nonce message = elim message.nonce [ none ↦ false | some n ↦ text_eq n nonce ]

abbrev pub message_ids : List HistoryMessage → List Text
message_ids [] = []
message_ids (message ∷ messages) = message.id ∷ message_ids messages

-- `relevant.at(-1)?.id ?? before`
abbrev pub last_id : List HistoryMessage → Option Text → Option Text
last_id [] before = before
last_id (message ∷ messages) before = last_id messages (some message.id)

unfoldable pub next_continuation :
    RetentionCandidate → Continuation → List HistoryMessage → Continuation
next_continuation candidate previous messages =
    let relevant = relevant_messages previous.attempt_boundary messages in
    let matches =
      distinct (
        previous.matched_message_ids
        ++ message_ids (filter (has_nonce candidate.nonce) relevant)) in
    let complete =
      any (is_boundary previous.attempt_boundary) messages || ltb (length messages) page_size in
    record {
      attempt_boundary = previous.attempt_boundary;
      before = last_id relevant previous.before;
      complete = complete;
      last_error_code = none;
      matched_message_ids = matches;
      pages_scanned = previous.pages_scanned + 1;
      status = verification_status complete (length matches);
    }

abbrev pub match_outcome : List Text → TombstoneOutcome
match_outcome ids = if length ids == 1 then one_match else several_matches

abbrev pub conflict : Option Text
conflict = some (codes "discord_retention_ledger_conflict")

abbrev pub incomplete : Option Text
incomplete = some (codes "discord_retention_lookup_incomplete")

abbrev pub unless_saved : Option Text → Bool → Option Text
unless_saved code true = code
unless_saved code false = conflict

abbrev pub failed_continuation : Text → Continuation → Continuation
failed_continuation code previous = record previous {
  complete = false;
  last_error_code = some code;
  status = DiscordRemoteVerificationState.error;
}
