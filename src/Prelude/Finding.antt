-- ===== src/Prelude/Finding.antt =====
-- Searching sorted and filtered lists.
use Prim.Native.Nat.{◌≤◌}
use mathlib.Core.Path.{◌≡◌, refl, ◌∙◌}
use mathlib.Core.Bool.{Bool}
use mathlib.Core.List.{List, [], ◌∷◌}
use mathlib.Core.Option.{none, some}
use native.Mathlib.Omega.{arith}
use info_room_reservation_si.Prelude.Lists.{count, find, filter}
use info_room_reservation_si.Prelude.Sorting.{insert_by, sort_by, count-sort_by}

module _ {A : Type 0} (p : A → Bool) where
  pub find-eq-none : (xs : List A) → count p xs ≡ 0 → find p xs ≡ none
  find-eq-none [] h = refl
  find-eq-none (x ∷ xs) h = ground (arith, find-eq-none xs)

  -- Where the test holds of one element at most, sorting does not change which is found.
  pub find-insert_by :
      (after : A → A → Bool) (x : A) (xs : List A)
      → count p (x ∷ xs) ≤ 1
      → find p (insert_by after x xs) ≡ find p (x ∷ xs)
  unfolding insert_by
  find-insert_by after x [] h = refl
  find-insert_by after x (y ∷ ys) h = ground (arith, find-insert_by after x ys)

  pub find-sort_by :
      (after : A → A → Bool) (xs : List A) → count p xs ≤ 1 → find p (sort_by after xs) ≡ find p xs
  unfolding sort_by
  find-sort_by after [] h = refl
  find-sort_by after (x ∷ xs) h =
      find-insert_by after x (sort_by after xs) (ground (arith, count-sort_by after p xs, h))
      ∙ ground (arith, find-sort_by after xs)

  pub count-filter-le : (q : A → Bool) (xs : List A) → count p (filter q xs) ≤ count p xs
  count-filter-le q [] = omega arith
  count-filter-le q (x ∷ xs) = ground (arith, count-filter-le q xs)

  -- What is found among selected elements is found among all.
  pub find-filter-some :
      (q : A → Bool) (a : A) (xs : List A)
      → count p xs ≤ 1
      → find p (filter q xs) ≡ some a
      → find p xs ≡ some a
  find-filter-some q a [] h e = e
  find-filter-some q a (x ∷ xs) h e =
      ground (arith, find-filter-some q a xs, count-filter-le q xs, find-eq-none (filter q xs))
