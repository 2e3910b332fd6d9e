-- ===== src/InteractionJobs/Runner.antt =====
-- `runDiscordInteractionJobs` of src/lib/discord-interaction-job-runner.ts, over any store.
use info_room_reservation_si.Prelude.{
  ℕ, ◌+◌, ◌*◌, Bool, true, ◌&&◌, ◌||◌, Option, none, some, List, [], ◌∷◌, Text, codes, leb, ◌==◌,
  length, if◌then◌else◌,
}
use info_room_reservation_si.Database.{Json, json_text}
use info_room_reservation_si.InteractionJobs.Claims.{JobClaim}

-- `retryable_failure` and `terminal_failure` carry the code and the type of the error.
pub data DispatchResult : Type 0 where
  succeeded stale : Json → DispatchResult
  retryable_failure terminal_failure : Text → Text → DispatchResult

-- A dispatch returns, or throws an error that has a name or is none.
pub data Dispatched : Type 0 where
  returned : DispatchResult → Dispatched
  thrown : Option Text → Dispatched

-- Abandoned, or retried at an instant: `status` and `nextAttemptAt` of a failure.
pub data FailureStatus : Type 0 where
  abandoned : FailureStatus
  retry_at : ℕ → FailureStatus

pub record FailureResult : Type 0 where
  pub error_code : Text
  pub error_type : Text
  pub status : FailureStatus

-- `DiscordInteractionJobStore`; a completion gives `none` where it throws.
pub record InteractionJobStore (S : Type 0) : Type 0 where
  pub claim : ℕ → Option Text → S → List JobClaim × S
  pub complete_failure : JobClaim → FailureResult → S → Option S
  pub complete_stale : JobClaim → Option Text → Json → S → Option S
  pub complete_success : JobClaim → Json → S → Option S
  pub is_dispatch_allowed : JobClaim → S → Bool

pub record RunCounts : Type 0 where
  pub abandoned : ℕ
  pub claimed : ℕ
  pub retried : ℕ
  pub stale : ℕ
  pub succeeded : ℕ

abbrev pub max_attempts : ℕ
max_attempts = 8

-- The delays 1, 2, 5, 15, 30 and 60 by their index, which is one less than the attempts.
abbrev pub delay_minutes : ℕ → ℕ
delay_minutes attempts =
    if attempts == 1
    then 1
    else if attempts == 2
    then 2
    else if attempts == 3
    then 5
    else if attempts == 4
    then 15
    else if attempts == 5
    then 30
    else 60

unfoldable pub retry_time : ℕ → ℕ → ℕ
retry_time now attempts = now + delay_minutes attempts * 60000

abbrev is_identifier_code : ℕ → Bool
is_identifier_code c =
    (leb 65 c && leb c 90)
    || ((leb 97 c && leb c 122)
        || ((leb 48 c && leb c 57) || (c == 95 || (c == 46 || (c == 58 || c == 45)))))

abbrev all_identifier : Text → Bool
all_identifier [] = true
all_identifier (c ∷ s) = is_identifier_code c && all_identifier s

-- `/^[A-Za-z0-9_.:-]{1,64}$/`
unfoldable pub redacted_identifier : Text → Text
redacted_identifier value =
    if all_identifier value && (leb 1 (length value) && leb (length value) 64)
    then value
    else codes "redacted_error"

unfoldable pub redacted_error_type : Option Text → Text
redacted_error_type none = codes "UnknownError"
redacted_error_type (some name) = redacted_identifier name

unfoldable pub outcome_of : Dispatched → DispatchResult
outcome_of (returned outcome) = outcome
outcome_of (thrown name) =
    retryable_failure (codes "unexpected_dispatch_error") (redacted_error_type name)

-- The result `{ code }`.
abbrev pub code_result : Text → Json
code_result code = (codes "code", json_text code) ∷ []

abbrev pub add_stale : RunCounts → RunCounts
add_stale n = record n { stale = n.stale + 1 }

abbrev pub add_abandoned : RunCounts → RunCounts
add_abandoned n = record n { abandoned = n.abandoned + 1 }

abbrev pub add_retried : RunCounts → RunCounts
add_retried n = record n { retried = n.retried + 1 }

abbrev pub add_succeeded : RunCounts → RunCounts
add_succeeded n = record n { succeeded = n.succeeded + 1 }

abbrev pub counted :
    {S : Type 0} → (RunCounts → RunCounts) → RunCounts → Option S → Option (RunCounts × S)
counted add n none = none
counted add n (some s) = some (add n, s)

unfoldable pub failure_result : ℕ → ℕ → Text → Text → FailureResult
failure_result now attempts code kind = record {
  error_code = redacted_identifier code;
  error_type = redacted_identifier kind;
  status =
      if leb max_attempts attempts
      then FailureStatus.abandoned
      else retry_at (retry_time now attempts);
}

unfoldable pub terminal_failure_result : Text → Text → FailureResult
terminal_failure_result code kind = record {
  error_code = redacted_identifier code;
  error_type = redacted_identifier kind;
  status = FailureStatus.abandoned;
}

module _ {S : Type 0} (store : InteractionJobStore S)
    (dispatch : JobClaim → S → Dispatched × S) where
  unfoldable pub conclude_claim :
      ℕ → JobClaim → DispatchResult → RunCounts → S → Option (RunCounts × S)
  conclude_claim now claim (succeeded result) n s =
      counted add_succeeded n (store.complete_success claim result s)
  conclude_claim now claim (stale result) n s =
      counted add_stale n (store.complete_stale claim none result s)
  conclude_claim now claim (retryable_failure code kind) n s =
      counted (if leb max_attempts claim.attempts then add_abandoned else add_retried) n
        (store.complete_failure claim (failure_result now claim.attempts code kind) s)
  conclude_claim now claim (terminal_failure code kind) n s =
      counted add_abandoned n (store.complete_failure claim (terminal_failure_result code kind) s)

  abbrev pub dispatch_claim : ℕ → JobClaim → RunCounts → S → Option (RunCounts × S)
  dispatch_claim now claim n s =
      let (dispatched, s') = dispatch claim s in
      if store.is_dispatch_allowed claim s
      then conclude_claim now claim (outcome_of dispatched) n s'
      else counted add_stale n
          (store.complete_stale claim none (code_result (codes "discord_control_stale")) s)

  abbrev pub run_bound : Option Text → ℕ → JobClaim → RunCounts → S → Option (RunCounts × S)
  run_bound none now claim n s = counted add_stale n (
      store.complete_stale claim (some (codes "discord_source_application_missing"))
        (code_result (codes "discord_source_application_missing")) s)
  run_bound (some application) now claim n s = dispatch_claim now claim n s

  unfoldable pub run_claim : ℕ → JobClaim → RunCounts → S → Option (RunCounts × S)
  run_claim now claim n s = run_bound claim.source_application_id now claim n s

  unfoldable pub run_claims : ℕ → List JobClaim → RunCounts → S → Option (RunCounts × S)
  run_claims now [] n s = some (n, s)
  run_claims now (claim ∷ claims) n s = elim (run_claim now claim n s) [
    | none ↦ none
    | some (n', s') ↦ run_claims now claims n' s'
  ]

  abbrev pub run_claimed : ℕ → List JobClaim × S → Option (RunCounts × S)
  run_claimed now (claims, s) =
      run_claims now claims
        (record { abandoned = 0; claimed = length claims; retried = 0; stale = 0; succeeded = 0 }) s

  -- `none` where a completion throws.
  unfoldable pub run_discord_interaction_jobs : ℕ → Option Text → S → Option (RunCounts × S)
  run_discord_interaction_jobs now wanted s = run_claimed now (store.claim now wanted s)
