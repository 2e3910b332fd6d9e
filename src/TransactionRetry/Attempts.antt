-- ===== src/TransactionRetry/Attempts.antt =====
-- How often a mutation is attempted, and how it ends.
use info_room_reservation_si.Prelude.{
  ℕ, zero, suc, ◌+◌, ◌<◌, ◌≡◌, Bool, true, false, arith, take, inl, inr, ◌⊎◌,
}
use info_room_reservation_si.TransactionRetry.{
  DatabaseError, Outcome, resolved, rejected, exhausted, is_serializable_transaction_conflict,
  serializable_retry_delays_ms, retry_serializable_mutation_transaction,
}

abbrev pub is_conflict : {A : Type 0} → A ⊎ DatabaseError → Bool
is_conflict (inl a) = false
is_conflict (inr error) = is_serializable_transaction_conflict error

abbrev pub settled : {A : Type 0} → A ⊎ DatabaseError → Outcome A
settled (inl a) = resolved a
settled (inr error) = rejected error

-- A call whose attempt `n` is the first that is no conflict.
pub record EndsAt {A : Type 0} (attempt : ℕ → A ⊎ DatabaseError) (n : ℕ) : Type 0 where
  pub in_time : n < 3
  pub conflicts_before : (k : ℕ) → k < n → is_conflict (attempt k) ≡ true
  pub ends : is_conflict (attempt n) ≡ false

-- A call that ends at its attempt `n`, one of three, has the result or the error of that attempt,
-- after `n` delays, the first 10 ms long and the second 25 ms.
pub retry_serializable_mutation_transaction-EndsAt :
    {A : Type 0} (attempt : ℕ → A ⊎ DatabaseError) (n : ℕ)
    → EndsAt attempt n
    → retry_serializable_mutation_transaction attempt ≡ record {
      outcome = settled (attempt n);
      delays = take n serializable_retry_delays_ms;
      attempts = n + 1;
    }
unfolding retry_serializable_mutation_transaction
retry_serializable_mutation_transaction-EndsAt attempt zero v = ground arith
retry_serializable_mutation_transaction-EndsAt attempt (suc zero) v =
    ground (arith, v.conflicts_before 0 (omega arith))
retry_serializable_mutation_transaction-EndsAt attempt (suc (suc zero)) v =
    ground (arith, v.conflicts_before 0 (omega arith), v.conflicts_before 1 (omega arith))
retry_serializable_mutation_transaction-EndsAt attempt (suc (suc (suc n))) v =
    absurd (omega (arith, v.in_time))

-- When three attempts in a row end in a conflict, the call gives up with the last one as the cause,
-- after both delays; it makes no fourth attempt.
pub retry_serializable_mutation_transaction-exhausted :
    {A : Type 0} (attempt : ℕ → A ⊎ DatabaseError) (error : DatabaseError)
    → is_conflict (attempt 0) ≡ true
    → is_conflict (attempt 1) ≡ true
    → is_conflict (attempt 2) ≡ true
    → attempt 2 ≡ inr error
    → retry_serializable_mutation_transaction attempt
      ≡ record { outcome = exhausted error; delays = serializable_retry_delays_ms; attempts = 3 }
unfolding retry_serializable_mutation_transaction
retry_serializable_mutation_transaction-exhausted attempt error h0 h1 h2 e = ground arith
