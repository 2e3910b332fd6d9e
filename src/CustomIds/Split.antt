-- ===== src/CustomIds/Split.antt =====
-- Splitting a text at dots, and joining the parts.
use info_room_reservation_si.Prelude.{
  ℕ, zero, suc, ◌≡◌, refl, ap, sym, ◌∙◌, Bool, true, false, inl, inr, List, [], ◌∷◌, Bool-cases,
  Text, any, take, ◌==◌, arith,
}
use info_room_reservation_si.CustomIds.{prepend, split, ◌·◌, all_of}

-- A text without dots.
abbrev pub has_dot : Text → Bool
has_dot = any (λ c. c == 46)

pub split-plain : (s : Text) → has_dot s ≡ false → split 46 s ≡ s ∷ []
unfolding split
split-plain [] h = refl
split-plain (c ∷ s) h = ground (arith, split-plain s)

pub split-dot : (s rest : Text) → has_dot s ≡ false → split 46 (s · rest) ≡ s ∷ split 46 rest
unfolding split
split-dot [] rest h = ground arith
split-dot (c ∷ s) rest h = ground (arith, split-dot s rest)

abbrev pub join : List Text → Text
join [] = []
join (part ∷ []) = part
join (part ∷ next ∷ parts) = part · join (next ∷ parts)

join-prepend :
    (c : ℕ) (part : Text) (parts : List Text)
    → join (prepend c (part ∷ parts)) ≡ c ∷ join (part ∷ parts)
join-prepend c part [] = refl
join-prepend c part (next ∷ parts) = refl

-- A split text has a part at least.
abbrev IsParted : List Text → Type 0
IsParted parts = (part : Text) × (rest : List Text) × (parts ≡ part ∷ rest)

prepend-IsParted : (c : ℕ) (parts : List Text) → IsParted parts → IsParted (prepend c parts)
prepend-IsParted c parts (part, rest, e) = (c ∷ part, rest, rw e)

split-IsParted : (s : Text) → IsParted (split 46 s)
unfolding split
split-IsParted [] = ([], [], refl)
split-IsParted (c ∷ s) = elim (Bool-cases (c == 46)) [
  | inl e ↦ ([], split 46 s, rw e)
  | inr e ↦ rw e (prepend-IsParted c (split 46 s) (split-IsParted s))
]

pub join-split : (s : Text) → join (split 46 s) ≡ s
unfolding split
join-split [] = refl
join-split (c ∷ s) =
    let (part, rest, e) = split-IsParted s in
    let ih : join (part ∷ rest) ≡ s = ap join (sym e) ∙ join-split s in
    elim (Bool-cases (c == 46)) [
      | inl dot ↦ rw (dot, e) (ap (λ (t : Text). 46 ∷ t) ih ∙ ground arith)
      | inr other ↦ rw (other, e) (join-prepend c part rest ∙ ap (λ (t : Text). c ∷ t) ih)
    ]

pub has_dot-take : (n : ℕ) (s : Text) → has_dot s ≡ false → has_dot (take n s) ≡ false
has_dot-take zero s h = refl
has_dot-take (suc n) [] h = refl
has_dot-take (suc n) (c ∷ s) h = ground (arith, has_dot-take n s)

-- Texts of code units that are no dots.
pub has_dot-all_of :
    (p : ℕ → Bool)
    → ((c : ℕ) → p c ≡ true → (c == 46) ≡ false)
    → (s : Text) → all_of p s ≡ true
    → has_dot s ≡ false
has_dot-all_of p other [] h = refl
has_dot-all_of p other (c ∷ s) h = ground (arith, other c, has_dot-all_of p other s)
