-- ===== src/Prelude/Sorting.antt =====
-- The stable sort of `Array.prototype.sort`; the test says whether the comparison is positive.
use mathlib.Core.Path.{◌≡◌, refl}
use mathlib.Core.Bool.{Bool, true, false}
use mathlib.Core.List.{List, [], ◌∷◌}
use native.Mathlib.Omega.{arith}
use info_room_reservation_si.Prelude.Tests.{if◌then◌else◌}
use info_room_reservation_si.Prelude.Lists.{count}

module _ {ℓ} {A : Type ℓ} (comes_after : A → A → Bool) where
  unfoldable pub insert_by : A → List A → List A
  insert_by x [] = x ∷ []
  insert_by x (y ∷ ys) = if comes_after x y then y ∷ insert_by x ys else x ∷ y ∷ ys

  unfoldable pub sort_by : List A → List A
  sort_by [] = []
  sort_by (x ∷ xs) = insert_by x (sort_by xs)

  count-insert_by :
      (t : A → Bool) (x : A) (xs : List A) → count t (insert_by x xs) ≡ count t (x ∷ xs)
  unfolding insert_by
  count-insert_by t x [] = refl
  count-insert_by t x (y ∷ ys) = ground (arith, count-insert_by t x ys)

  -- Sorting keeps every element as often as it occurs.
  pub count-sort_by : (t : A → Bool) (xs : List A) → count t (sort_by xs) ≡ count t xs
  unfolding sort_by
  count-sort_by t [] = refl
  count-sort_by t (x ∷ xs) = ground (arith, count-insert_by t x (sort_by xs), count-sort_by t xs)

  -- No element comes after the next one.
  abbrev pub IsOrderedBy : List A → Type 0
  IsOrderedBy [] = Unit
  IsOrderedBy (x ∷ []) = Unit
  IsOrderedBy (x ∷ y ∷ ys) = (comes_after x y ≡ false) × IsOrderedBy (y ∷ ys)

  module _ (asymm : (x y : A) → comes_after x y ≡ true → comes_after y x ≡ false) where
    insert_by-IsOrderedBy : (x : A) (xs : List A) → IsOrderedBy xs → IsOrderedBy (insert_by x xs)
    unfolding insert_by
    insert_by-IsOrderedBy x [] v = tt
    insert_by-IsOrderedBy x (y ∷ []) v = ground (arith, asymm x y)
    insert_by-IsOrderedBy x (y ∷ z ∷ ys) v =
        ground (arith, asymm x y, insert_by-IsOrderedBy x (z ∷ ys))

    pub sort_by-IsOrderedBy : (xs : List A) → IsOrderedBy (sort_by xs)
    unfolding sort_by
    sort_by-IsOrderedBy [] = tt
    sort_by-IsOrderedBy (x ∷ xs) = insert_by-IsOrderedBy x (sort_by xs) (sort_by-IsOrderedBy xs)
