-- ===== src/Prelude/Decimal.antt =====
-- Decimal numerals as texts, as JavaScript prints whole numbers.
use Prim.Native.Nat.{ℕ, zero, suc, ◌+◌, ◌-◌, ◌*◌, ◌/◌, ◌%◌, ◌<◌}
use mathlib.Core.Path.{◌≡◌, refl, ap, ◌∙◌, sym}
use mathlib.Core.Logic.{inl, inr}
use mathlib.Core.List.{[], ◌∷◌, ◌++◌}
use native.Mathlib.Omega.{arith}
use info_room_reservation_si.Prelude.Tests.{ltb, if◌then◌else◌, Bool-cases}
use info_room_reservation_si.Prelude.Texts.{Text}

-- The fuel is the number of digits left; one more than the number is enough.
unfoldable pub digits : ℕ → ℕ → Text
digits zero n = []
digits (suc fuel) n =
    let rest = digits fuel (n / 10) ++ (48 + n % 10) ∷ [] in
    if ltb n 10 then (48 + n) ∷ [] else rest

unfoldable pub number_text : ℕ → Text
unfolding digits
number_text n = digits (suc n) n

-- Reading a numeral back, from the left.
pub numeral_value : ℕ → Text → ℕ
numeral_value acc [] = acc
numeral_value acc (c ∷ s) = numeral_value (acc * 10 + (c - 48)) s

numeral_value-append :
    (acc : ℕ) (s : Text) (c : ℕ)
    → numeral_value acc (s ++ c ∷ []) ≡ numeral_value acc s * 10 + (c - 48)
unfolding numeral_value
numeral_value-append acc [] c = refl
numeral_value-append acc (d ∷ s) c = numeral_value-append (acc * 10 + (d - 48)) s c

numeral_value-digits : (fuel n : ℕ) → n < fuel → numeral_value 0 (digits fuel n) ≡ n
unfolding digits
numeral_value-digits zero n h = absurd (omega arith)
numeral_value-digits (suc fuel) n h = elim (Bool-cases (ltb n 10)) [
  | inl one ↦ rw one (unfold numeral_value in omega arith)
  | inr more ↦
      let ih = numeral_value-digits fuel (n / 10) (ground arith) in
      rw (more, numeral_value-append 0 (digits fuel (n / 10)) (48 + n % 10), ih) (omega arith)
]

-- A numeral determines its number.
pub number_text-injective : (m n : ℕ) → number_text m ≡ number_text n → m ≡ n
unfolding number_text
number_text-injective m n e =
    sym (numeral_value-digits (suc m) m (omega arith))
    ∙ ap (numeral_value 0) e
    ∙ numeral_value-digits (suc n) n (omega arith)
