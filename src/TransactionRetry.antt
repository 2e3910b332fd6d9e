-- ===== src/TransactionRetry.antt =====
-- Mutations of the database: src/lib/db-context.ts. An operation's attempts, their errors and their
-- effects are a parameter; the delays between them are recorded.
pub mod Attempts
pub mod Locks
use info_room_reservation_si.Prelude.{
  filter, not, ℕ, zero, suc, ◌+◌, ◌≤◌, ◌≡◌, refl, Bool, true, false, ◌||◌, ◌&&◌, Option, none, some,
  List, [], ◌∷◌, ◌++◌, Text, codes, text_eq, text_lt, text_eq_sound, text_eq_refl, text_eq_iff,
  if◌then◌else◌, arith, length, any, Bool-cases, inl, inr, ◌⊎◌, ◌↔◌, All, ap, sym, ◌∙◌,
}
use info_room_reservation_si.StudyPeriods.{StudyPeriod, period_text}

-- A PrismaClientKnownRequestError with its code and `meta?.code`, or any other error.
pub data DatabaseError : Type 0 where
  known_request_error : Text → Option Text → DatabaseError
  other_error : Text → DatabaseError

pub data Outcome (A : Type 0) : Type 0 where
  resolved : A → Outcome A
  rejected : DatabaseError → Outcome A
  -- TransactionRetryExhaustedError with its cause
  exhausted : DatabaseError → Outcome A

abbrev pub is_some_text : Option Text → Text → Bool
is_some_text none t = false
is_some_text (some s) t = text_eq s t

unfoldable pub is_serializable_transaction_conflict : DatabaseError → Bool
is_serializable_transaction_conflict (known_request_error code meta_code) =
    text_eq code (codes "P2034")
    || (text_eq code (codes "P2010") && is_some_text meta_code (codes "40001"))
is_serializable_transaction_conflict (other_error name) = false

abbrev pub serializable_retry_delays_ms : List ℕ
serializable_retry_delays_ms = 10 ∷ 25 ∷ []

-- How a call ends, with the delays that it slept and the number of its attempts.
pub record Retried (A : Type 0) : Type 0 where
  pub outcome : Outcome A
  pub delays : List ℕ
  pub attempts : ℕ

module _ {A : Type 0} (attempt : ℕ → A ⊎ DatabaseError) where
  -- From the attempt `n` on, with the delays that are left.
  unfoldable pub retry_from : ℕ → List ℕ → Retried A
  retry_from n [] = elim (attempt n) [
    | inl a ↦ record { outcome = resolved a; delays = []; attempts = suc n }
    | inr error ↦ record {
      outcome =
          if is_serializable_transaction_conflict error then exhausted error else rejected error;
      delays = [];
      attempts = suc n;
    }
  ]
  retry_from n (delay ∷ delays) =
      let rest = retry_from (suc n) delays in
      elim (attempt n) [
        | inl a ↦ record { outcome = resolved a; delays = []; attempts = suc n }
        | inr error ↦
            if is_serializable_transaction_conflict error
            then record rest { delays = delay ∷ rest.delays }
            else record { outcome = rejected error; delays = []; attempts = suc n }
      ]

  unfoldable pub retry_serializable_mutation_transaction : Retried A
  unfolding retry_from
  retry_serializable_mutation_transaction = retry_from 0 serializable_retry_delays_ms

unfoldable pub period_mutation_lock_key : Text → StudyPeriod → Text
period_mutation_lock_key date p = codes "period:" ++ date ++ codes ":" ++ period_text p

unfoldable pub user_mutation_lock_key : Text → Text
user_mutation_lock_key user_id = codes "user:" ++ user_id

-- `[...new Set(keys)]`: the first of equal keys stays.
unfoldable pub distinct : List Text → List Text
distinct [] = []
distinct (key ∷ keys) = key ∷ filter (λ k. not (text_eq k key)) (distinct keys)

unfoldable pub insert : Text → List Text → List Text
insert key [] = key ∷ []
insert key (k ∷ ks) = if text_lt k key then k ∷ insert key ks else key ∷ k ∷ ks

-- `sort()` compares code units.
unfoldable pub sort : List Text → List Text
unfolding insert
sort [] = []
sort (key ∷ keys) = insert key (sort keys)

-- The advisory locks, in the order in which a transaction takes them.
unfoldable pub acquire_database_mutation_locks : List Text → List Text
acquire_database_mutation_locks keys = sort (distinct keys)
