-- ===== src/TransactionRetry/Locks.antt =====
-- The order in which transactions take their locks.
use info_room_reservation_si.Prelude.{
  text_tests, text_eq_refl, filter, not, ◌&&◌, ◌≡◌, refl, true, false, List, [], ◌∷◌, Text, arith,
  text_eq, text_lt, any, Bool-cases, inl, inr, ◌∙◌, ◌||◌,
}
use info_room_reservation_si.TransactionRetry.{
  distinct, insert, sort, acquire_database_mutation_locks,
}

-- Each key is less than the next.
abbrev pub IsAscending : List Text → Type 0
IsAscending [] = Unit
IsAscending (k ∷ []) = Unit
IsAscending (k ∷ j ∷ ks) = (text_lt k j ≡ true) × IsAscending (j ∷ ks)

text_lt_total : (a b : Text) → text_lt a b ≡ false → text_eq b a ≡ false → text_lt b a ≡ true
unfolding text_lt text_eq
text_lt_total [] [] h k = ground arith
text_lt_total [] (y ∷ b) h k = ground arith
text_lt_total (x ∷ a) [] h k = ground arith
text_lt_total (x ∷ a) (y ∷ b) h k = ground (arith, text_lt_total a b)

any-insert :
    (x key : Text) (ks : List Text)
    → any (text_eq x) (insert key ks) ≡ (text_eq x key || any (text_eq x) ks)
unfolding insert
any-insert x key [] = refl
any-insert x key (k ∷ ks) = ground (arith, any-insert x key ks)

any-sort : (x : Text) (ks : List Text) → any (text_eq x) (sort ks) ≡ any (text_eq x) ks
unfolding sort
any-sort x [] = refl
any-sort x (k ∷ ks) = ground (arith, any-insert x k (sort ks), any-sort x ks)

-- Removing a key.
any-remove :
    (x key : Text) (ks : List Text)
    → any (text_eq x) (filter (λ k. not (text_eq k key)) ks)
      ≡ (not (text_eq x key) && any (text_eq x) ks)
any-remove x key [] = ground arith
any-remove x key (k ∷ ks) = grind (text_tests, any-remove x key ks)

any-distinct : (x : Text) (ks : List Text) → any (text_eq x) (distinct ks) ≡ any (text_eq x) ks
unfolding distinct
any-distinct x [] = refl
any-distinct x (k ∷ ks) = ground (arith, any-remove x k (distinct ks), any-distinct x ks)

insert-IsAscending :
    (key : Text) (ks : List Text)
    → any (text_eq key) ks ≡ false
    → IsAscending ks
    → IsAscending (insert key ks)
unfolding insert
insert-IsAscending key [] h v = tt
insert-IsAscending key (k ∷ []) h v = ground (arith, text_lt_total k key)
insert-IsAscending key (k ∷ j ∷ ks) h v =
    ground (arith, text_lt_total k key, insert-IsAscending key (j ∷ ks))

abbrev IsDistinct : List Text → Type 0
IsDistinct [] = Unit
IsDistinct (k ∷ ks) = (any (text_eq k) ks ≡ false) × IsDistinct ks

remove-IsDistinct :
    (key : Text) (ks : List Text)
    → IsDistinct ks
    → IsDistinct (filter (λ k. not (text_eq k key)) ks)
remove-IsDistinct key [] v = tt
remove-IsDistinct key (k ∷ ks) v = elim (Bool-cases (text_eq k key)) [
  | inl t ↦ rw (t) (remove-IsDistinct key ks v.1)
  | inr f ↦ rw (f) (any-remove k key ks ∙ ground (arith, v.0), remove-IsDistinct key ks v.1)
]

distinct-IsDistinct : (ks : List Text) → IsDistinct (distinct ks)
unfolding distinct
distinct-IsDistinct [] = tt
distinct-IsDistinct (k ∷ ks) = (
  any-remove k k (distinct ks) ∙ ground (arith, text_eq_refl k),
  remove-IsDistinct k (distinct ks) (distinct-IsDistinct ks),
)

sort-IsAscending : (ks : List Text) → IsDistinct ks → IsAscending (sort ks)
unfolding sort
sort-IsAscending [] v = tt
sort-IsAscending (k ∷ ks) v =
    insert-IsAscending k (sort ks) (any-sort k ks ∙ v.0) (sort-IsAscending ks v.1)

-- A transaction takes a lock exactly for each key that it names, each once and in ascending order,
-- the same order for all transactions.
pub acquire_database_mutation_locks-IsAscending :
    (keys : List Text)
    → IsAscending (acquire_database_mutation_locks keys)
      × ((key : Text)
          → any (text_eq key) (acquire_database_mutation_locks keys) ≡ any (text_eq key) keys)
unfolding acquire_database_mutation_locks
acquire_database_mutation_locks-IsAscending keys = (
  sort-IsAscending (distinct keys) (distinct-IsDistinct keys),
  λ key. any-sort key (distinct keys) ∙ any-distinct key keys,
)
