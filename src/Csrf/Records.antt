-- ===== src/Csrf/Records.antt =====
-- Records by their keys, as the operations on a map change them.
use info_room_reservation_si.Prelude.{
  text_tests, ℕ, zero, suc, ◌+◌, ◌-◌, ◌≤◌, ◌≡◌, refl, ap, ◌∙◌, Bool, true, false, none, some, List,
  [], ◌∷◌, ◌++◌, Text, text_eq, arith, Bool-cases, inl, inr, All, length, take, filter, map,
  length-append,
}
use info_room_reservation_si.MemoryStore.{lookup}
use info_room_reservation_si.RateLimit.{assign}
use info_room_reservation_si.Csrf.{CsrfTokenRecord, Records, drop_last, delete, delete_all}

-- None of the keys is the given one.
abbrev pub Avoids : Text → List Text → Type 0
Avoids key = All (λ k. text_eq k key ≡ false)

abbrev pub keys_of : Records → List Text
keys_of m = map (λ entry. entry.0) m

lookup-delete :
    (k key : Text) (m : Records) → text_eq k key ≡ false → lookup key (delete k m) ≡ lookup key m
unfolding lookup delete
lookup-delete k key [] h = refl
lookup-delete k key ((j, a) ∷ m) h = grind (text_tests, lookup-delete k key m h)

pub lookup-delete_all :
    (key : Text) (ks : List Text) (m : Records)
    → Avoids key ks
    → lookup key (delete_all ks m) ≡ lookup key m
unfolding delete_all
lookup-delete_all key [] m h = refl
lookup-delete_all key (k ∷ ks) m h =
    lookup-delete_all key ks (delete k m) h.1 ∙ lookup-delete k key m h.0

pub Avoids-keys : (key : Text) (m : Records) → lookup key m ≡ none → Avoids key (keys_of m)
unfolding lookup
Avoids-keys key [] h = tt
Avoids-keys key ((j, a) ∷ m) h = (ground arith, Avoids-keys key m (ground arith))

pub assign-fresh :
    (key : Text) (a : CsrfTokenRecord) (m : Records)
    → lookup key m ≡ none
    → assign key a m ≡ m ++ (key, a) ∷ []
unfolding lookup assign
assign-fresh key a [] h = refl
assign-fresh key a ((j, b) ∷ m) h = ground (arith, assign-fresh key a m)

keys_of-last :
    (p : Text × CsrfTokenRecord → Bool) (key : Text) (a : CsrfTokenRecord) (m : Records)
    → p (key, a) ≡ true
    → keys_of (filter p (m ++ (key, a) ∷ [])) ≡ keys_of (filter p m) ++ key ∷ []
keys_of-last p key a [] h = rw h refl
keys_of-last p key a (e ∷ m) h = elim (Bool-cases (p e)) [
  | inl t ↦ rw (t) (ap (λ ks. e.0 ∷ ks) (keys_of-last p key a m h))
  | inr f ↦ rw (f) (keys_of-last p key a m h)
]

pub Avoids-keys_of-filter :
    (p : Text × CsrfTokenRecord → Bool) (key : Text) (m : Records)
    → Avoids key (keys_of m)
    → Avoids key (keys_of (filter p m))
Avoids-keys_of-filter p key [] h = h
Avoids-keys_of-filter p key (e ∷ m) h = elim (Bool-cases (p e)) [
  | inl t ↦ rw (t) (h.0, Avoids-keys_of-filter p key m h.1)
  | inr f ↦ rw (f) (Avoids-keys_of-filter p key m h.1)
]

Avoids-take-last :
    (n : ℕ) (key : Text) (ks : List Text)
    → n ≤ length ks
    → Avoids key ks
    → Avoids key (take n (ks ++ key ∷ []))
Avoids-take-last zero key ks l h = tt
Avoids-take-last (suc n) key [] l h = ground arith
Avoids-take-last (suc n) key (k ∷ ks) l h = (h.0, Avoids-take-last n key ks (omega arith) h.1)

-- The deleted keys are those of the session, without its last ones.
pub Avoids-drop_last :
    (p : Text × CsrfTokenRecord → Bool) (n : ℕ) (key : Text) (a : CsrfTokenRecord) (m : Records)
    → p (key, a) ≡ true
    → Avoids key (keys_of m)
    → Avoids key (drop_last (suc n) (keys_of (filter p (m ++ (key, a) ∷ []))))
Avoids-drop_last p n key a m h v =
    let ks = keys_of (filter p m) in
    rw (keys_of-last p key a m h, length-append ks (key ∷ []))
      (Avoids-take-last (length ks + 1 - suc n) key ks (omega arith)
        (Avoids-keys_of-filter p key m v))

pub lookup-last :
    (key : Text) (a : CsrfTokenRecord) (m : Records)
    → lookup key m ≡ none
    → lookup key (m ++ (key, a) ∷ []) ≡ some a
unfolding lookup
lookup-last key a [] h = grind text_tests
lookup-last key a ((j, b) ∷ m) h = ground (arith, lookup-last key a m)
