-- ===== src/InteractionJobs/Rows.antt =====
-- The row of one interaction among the others.
use info_room_reservation_si.Prelude.{
  ◌≤◌, ◌≡◌, refl, Bool, true, some, List, [], ◌∷◌, Text, count, filter, find, if◌then◌else◌, arith,
}
use info_room_reservation_si.InteractionJobs.{JobRow, has_interaction, update_many}

-- A test that implies another, which holds of one element at most.
module _ {A : Type 0} (p q : A → Bool) (within : (a : A) → q a ≡ true → p a ≡ true) where
  pub filter_within_none : (xs : List A) → count p xs ≡ 0 → filter q xs ≡ []
  filter_within_none [] h = refl
  filter_within_none (x ∷ xs) h = ground (arith, within x, filter_within_none xs)

  pub count_within_none : (xs : List A) → count p xs ≡ 0 → count q xs ≡ 0
  count_within_none [] h = refl
  count_within_none (x ∷ xs) h = ground (arith, within x, count_within_none xs)

  pub filter_within :
      (xs : List A) (a : A)
      → count p xs ≤ 1
      → find p xs ≡ some a
      → filter q xs ≡ (if q a then a ∷ [] else [])
  filter_within [] a h e = ground arith
  filter_within (x ∷ xs) a h e = ground (arith, within x, filter_within_none xs, filter_within xs a)

  pub count_within :
      (xs : List A) (a : A)
      → count p xs ≤ 1
      → find p xs ≡ some a
      → count q xs ≡ (if q a then 1 else 0)
  count_within [] a h e = ground arith
  count_within (x ∷ xs) a h e = ground (arith, within x, count_within_none xs, count_within xs a)

-- Updates that keep the keys.
module _ (t : JobRow → Bool) (f : JobRow → JobRow)
    (keeps : (row : JobRow) → (f row).interaction_id ≡ row.interaction_id) where
  pub find-update_many :
      (id : Text) (jobs : List JobRow) (row : JobRow)
      → find (has_interaction id) jobs ≡ some row
      → find (has_interaction id) (update_many t f jobs) ≡ some (if t row then f row else row)
  unfolding update_many
  find-update_many id [] row e = ground arith
  find-update_many id (x ∷ xs) row e = ground (arith, keeps x, find-update_many id xs row)

  pub count-update_many :
      (id : Text) (jobs : List JobRow)
      → count (has_interaction id) (update_many t f jobs) ≡ count (has_interaction id) jobs
  unfolding update_many
  count-update_many id [] = refl
  count-update_many id (x ∷ xs) = ground (arith, keeps x, count-update_many id xs)
