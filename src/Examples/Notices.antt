-- ===== src/Examples/Notices.antt =====
-- Retries and locks, notifications and repairs.
use info_room_reservation_si.Prelude.{
  ℕ, ◌+◌, ◌*◌, ◌≡◌, ◌⊎◌, refl, inl, inr, true, false, ◌==◌, none, List, [], ◌∷◌, Text, codes,
  text_eq, text_lt, any, arith, if◌then◌else◌,
}
use info_room_reservation_si.Calendar.{day_text}
use info_room_reservation_si.StudyPeriods.{first}
use info_room_reservation_si.PeriodSettings.{PeriodSetting}
use info_room_reservation_si.PeriodWindow.{time_text}
use info_room_reservation_si.TransactionRetry.{
  DatabaseError, known_request_error, exhausted, serializable_retry_delays_ms,
  is_serializable_transaction_conflict, retry_serializable_mutation_transaction,
  acquire_database_mutation_locks, period_mutation_lock_key, user_mutation_lock_key,
}
use info_room_reservation_si.TransactionRetry.Attempts.{
  retry_serializable_mutation_transaction-exhausted,
}
use info_room_reservation_si.TransactionRetry.Locks.{
  IsAscending, acquire_database_mutation_locks-IsAscending,
}
use info_room_reservation_si.ClosedPeriods.{Ordering, less, equal, greater}
use info_room_reservation_si.DiscordRepair.{DiscordOperationsControlState}

abbrev clash : DatabaseError
clash = known_request_error (codes "P2034") none

abbrev second_works : ℕ → ℕ ⊎ DatabaseError
second_works n = if n == 1 then inl 7 else inr clash

clash-is_conflict : is_serializable_transaction_conflict clash ≡ true
unfolding is_serializable_transaction_conflict text_eq
clash-is_conflict = refl

retry_serializable_mutation_transaction-exhausted_example :
    retry_serializable_mutation_transaction {A = ℕ} (λ n. inr clash)
    ≡ record { outcome = exhausted clash; delays = serializable_retry_delays_ms; attempts = 3 }
retry_serializable_mutation_transaction-exhausted_example =
    retry_serializable_mutation_transaction-exhausted {A = ℕ} (λ n. inr clash) clash
      clash-is_conflict clash-is_conflict clash-is_conflict refl

abbrev keys : List Text
keys =
    user_mutation_lock_key (codes "u1") ∷ period_mutation_lock_key (codes "2024-10-03") first ∷ []

acquire_database_mutation_locks-IsAscending_example :
    IsAscending (acquire_database_mutation_locks keys)
    × ((key : Text)
        → any (text_eq key) (acquire_database_mutation_locks keys) ≡ any (text_eq key) keys)
acquire_database_mutation_locks-IsAscending_example =
    acquire_database_mutation_locks-IsAscending keys

abbrev setting_of : ℕ → PeriodSetting
setting_of day = record {
  capacity = 10;
  close_time = time_text 980;
  date = day_text day;
  enabled = true;
  open_time = time_text 780;
  study_period = first;
}

-- 18:00 in Korea on day 19999
abbrev evening : ℕ
evening = 19999 * 86400000 + 9 * 3600000

-- The test compares dates by their code units.
abbrev by_units : Text → Text → Ordering
by_units a b = if text_lt a b then less else if text_lt b a then greater else equal

text_lt_asymm : (a b : Text) → text_lt a b ≡ true → text_lt b a ≡ false
unfolding text_lt
text_lt_asymm [] [] h = refl
text_lt_asymm [] (y ∷ b) h = refl
text_lt_asymm (x ∷ a) [] h = ground arith
text_lt_asymm (x ∷ a) (y ∷ b) h = ground (arith, text_lt_asymm a b)

abbrev control : DiscordOperationsControlState
control = record { enabled = true; epoch = 4; pending_remote_cleanup = false }
