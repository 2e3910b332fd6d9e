-- ===== src/Prelude/Updates.antt =====
-- Updating the elements that a test holds of, as `updateMany` does with rows.
use Prim.Native.Nat.{◌≤◌}
use mathlib.Core.Path.{◌≡◌, refl}
use mathlib.Core.Bool.{Bool, true, false, ◌&&◌}
use mathlib.Core.List.{List, [], ◌∷◌, ◌++◌}
use mathlib.Core.Option.{none, some}
use native.Mathlib.Omega.{arith}
use info_room_reservation_si.Prelude.Tests.{if◌then◌else◌}
use info_room_reservation_si.Prelude.Lists.{any, count, find}

module _ {A : Type 0} (t : A → Bool) (f : A → A) where
  unfoldable pub update_where : List A → List A
  update_where [] = []
  update_where (x ∷ xs) = (if t x then f x else x) ∷ update_where xs

  -- A key that the update keeps.
  module _ (p : A → Bool) (keeps : (x : A) → p (f x) ≡ p x) where
    pub find-update_where :
        (xs : List A) (a : A)
        → find p xs ≡ some a
        → find p (update_where xs) ≡ some (if t a then f a else a)
    unfolding update_where
    find-update_where [] a e = ground arith
    find-update_where (x ∷ xs) a e = ground (arith, keeps x, find-update_where xs a)

    pub find-update_where-none : (xs : List A) → find p xs ≡ none → find p (update_where xs) ≡ none
    unfolding update_where
    find-update_where-none [] e = refl
    find-update_where-none (x ∷ xs) e = ground (arith, keeps x, find-update_where-none xs)

    pub count-update_where : (xs : List A) → count p (update_where xs) ≡ count p xs
    unfolding update_where
    count-update_where [] = refl
    count-update_where (x ∷ xs) = ground (arith, keeps x, count-update_where xs)

module _ {A : Type 0} (p q : A → Bool) where
  pub count-both-none : (xs : List A) → find p xs ≡ none → count (λ x. p x && q x) xs ≡ 0
  count-both-none [] e = refl
  count-both-none (x ∷ xs) e = ground (arith, count-both-none xs)

  count-both_zero : (xs : List A) → count p xs ≡ 0 → count (λ x. p x && q x) xs ≡ 0
  count-both_zero [] e = refl
  count-both_zero (x ∷ xs) e = ground (arith, count-both_zero xs)

  -- Of the one element with a key, a further test decides.
  pub count-both :
      (xs : List A) (a : A)
      → count p xs ≤ 1
      → find p xs ≡ some a
      → count (λ x. p x && q x) xs ≡ (if q a then 1 else 0)
  count-both [] a one e = ground arith
  count-both (x ∷ xs) a one e = ground (arith, count-both xs a, count-both_zero xs)

module _ {A : Type 0} (p : A → Bool) where
  pub any-find-none : (xs : List A) → find p xs ≡ none → any p xs ≡ false
  any-find-none [] e = refl
  any-find-none (x ∷ xs) e = ground (arith, any-find-none xs)

  pub any-find-some : (xs : List A) (a : A) → find p xs ≡ some a → any p xs ≡ true
  any-find-some [] a e = ground arith
  any-find-some (x ∷ xs) a e = ground (arith, any-find-some xs a)

  pub find-append-none :
      (xs : List A) (y : A) → find p xs ≡ none → p y ≡ true → find p (xs ++ y ∷ []) ≡ some y
  find-append-none [] y e t = ground arith
  find-append-none (x ∷ xs) y e t = ground (arith, find-append-none xs y)

  pub any-eq-false→count : (xs : List A) → any p xs ≡ false → count p xs ≡ 0
  any-eq-false→count [] e = refl
  any-eq-false→count (x ∷ xs) e = ground (arith, any-eq-false→count xs)
