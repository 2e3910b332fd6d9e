-- ===== src/CustomIds/Base36.antt =====
-- Numerals to the base 36.
use info_room_reservation_si.Prelude.{
  ℕ, zero, suc, ◌+◌, ◌*◌, ◌/◌, ◌%◌, ◌≤◌, ◌<◌, ◌≡◌, refl, Bool, true, inl, inr, [], ◌∷◌, ◌++◌,
  Bool-cases, Text, ltb, length, length-append, arith,
}
use info_room_reservation_si.CustomIds.{
  is_digit36, all_of, is_numeral36, digit36, digits36, text36, value_of_digit36, value36,
}

digit36-is_digit36 : (d : ℕ) → d < 36 → is_digit36 (digit36 d) ≡ true
digit36-is_digit36 d h = ground arith

value_of_digit36-digit36 : (d : ℕ) → d < 36 → value_of_digit36 (digit36 d) ≡ d
value_of_digit36-digit36 d h = ground arith

value36-append :
    (acc : ℕ) (s : Text) (c : ℕ)
    → value36 acc (s ++ c ∷ []) ≡ value36 acc s * 36 + value_of_digit36 c
unfolding value36
value36-append acc [] c = refl
value36-append acc (d ∷ s) c = value36-append (acc * 36 + value_of_digit36 d) s c

value36-digits36 : (fuel n : ℕ) → n < fuel → value36 0 (digits36 fuel n) ≡ n
unfolding digits36
value36-digits36 zero n h = absurd (omega arith)
value36-digits36 (suc fuel) n h = elim (Bool-cases (ltb n 36)) [
  | inl one ↦ rw one (unfold value36 in ground (arith, value_of_digit36-digit36 n))
  | inr more ↦
      let ih = value36-digits36 fuel (n / 36) (ground arith) in
      rw
        (
          more,
          value36-append 0 (digits36 fuel (n / 36)) (digit36 (n % 36)),
          ih,
          value_of_digit36-digit36 (n % 36) (omega arith),
        )
        (omega arith)
]

pub value36-text36 : (n : ℕ) → value36 0 (text36 n) ≡ n
unfolding text36
value36-text36 n = value36-digits36 (suc n) n (omega arith)

all_of-append :
    (p : ℕ → Bool) (s : Text) (c : ℕ)
    → all_of p s ≡ true
    → p c ≡ true
    → all_of p (s ++ c ∷ []) ≡ true
all_of-append p [] c h k = ground arith
all_of-append p (d ∷ s) c h k = ground (arith, all_of-append p s c)

all_of-digits36 : (fuel n : ℕ) → all_of is_digit36 (digits36 fuel n) ≡ true
unfolding digits36
all_of-digits36 zero n = refl
all_of-digits36 (suc fuel) n = elim (Bool-cases (ltb n 36)) [
  | inl one ↦ rw one (ground (arith, digit36-is_digit36 n))
  | inr more ↦ rw more (
      all_of-append is_digit36 (digits36 fuel (n / 36)) (digit36 (n % 36))
        (all_of-digits36 fuel (n / 36)) (digit36-is_digit36 (n % 36) (omega arith)))
]

pub all_of-text36 : (n : ℕ) → all_of is_digit36 (text36 n) ≡ true
unfolding text36
all_of-text36 n = all_of-digits36 (suc n) n

numeral-append :
    (s : Text) (c : ℕ) → all_of is_digit36 (s ++ c ∷ []) ≡ true → is_numeral36 (s ++ c ∷ []) ≡ true
unfolding is_numeral36
numeral-append [] c h = h
numeral-append (d ∷ s) c h = h

pub is_numeral36-text36 : (n : ℕ) → is_numeral36 (text36 n) ≡ true
unfolding text36 digits36
is_numeral36-text36 n = elim (Bool-cases (ltb n 36)) [
  | inl one ↦ rw one (unfold is_numeral36 in ground (arith, digit36-is_digit36 n))
  | inr more ↦ rw more (
      numeral-append (digits36 n (n / 36)) (digit36 (n % 36)) (
        all_of-append is_digit36 (digits36 n (n / 36)) (digit36 (n % 36))
          (all_of-digits36 n (n / 36)) (digit36-is_digit36 (n % 36) (omega arith))))
]

-- The powers of 36, and how many digits a number below one has.
abbrev pow36 : ℕ → ℕ
pow36 zero = 1
pow36 (suc k) = 36 * pow36 k

length-digits36 : (k fuel n : ℕ) → n < pow36 (suc k) → length (digits36 fuel n) ≤ suc k
unfolding digits36
length-digits36 k zero n h = omega arith
length-digits36 zero (suc fuel) n h = ground arith
length-digits36 (suc k) (suc fuel) n h = elim (Bool-cases (ltb n 36)) [
  | inl one ↦ rw one (omega arith)
  | inr more ↦
      rw (more, length-append (digits36 fuel (n / 36)) (digit36 (n % 36) ∷ []))
        (omega (arith, length-digits36 k fuel (n / 36) (omega arith)))
]

pub length-text36 : (n : ℕ) → n ≤ 9007199254740991 → length (text36 n) ≤ 11
unfolding text36
length-text36 n h = length-digits36 10 (suc n) n (omega arith)
