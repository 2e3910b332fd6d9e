-- ===== src/Csrf/Limit.antt =====
-- How many records a session keeps.
use info_room_reservation_si.Prelude.{
  text_tests, ℕ, zero, suc, ◌-◌, ◌≡◌, refl, ap, ◌∙◌, Bool, false, List, [], ◌∷◌, Text, text_eq,
  text_eq_refl, arith, Bool-cases, inl, inr, length, take, drop, filter, min,
}
use info_room_reservation_si.RateLimit.{assign}
use info_room_reservation_si.Csrf.{
  CsrfTokenRecord, Records, is_of_session, delete, delete_all, create,
}
use info_room_reservation_si.Csrf.Records.{Avoids, keys_of, Avoids-keys_of-filter}

-- No key occurs twice, as in a map.
abbrev pub IsMap : Records → Type 0
IsMap [] = Unit
IsMap (e ∷ m) = Avoids e.0 (keys_of m) × IsMap m

delete_all-cons :
    (ks : List Text) (e : Text × CsrfTokenRecord) (m : Records)
    → Avoids e.0 ks
    → delete_all ks (e ∷ m) ≡ e ∷ delete_all ks m
unfolding delete_all
delete_all-cons [] e m h = refl
delete_all-cons (k ∷ ks) e m h =
    ap (delete_all ks) (unfold delete in grind text_tests) ∙ delete_all-cons ks e (delete k m) h.1

Avoids-take : (n : ℕ) (key : Text) (ks : List Text) → Avoids key ks → Avoids key (take n ks)
Avoids-take zero key ks h = tt
Avoids-take (suc n) key [] h = tt
Avoids-take (suc n) key (k ∷ ks) h = (h.0, Avoids-take n key ks h.1)

-- Deleting a session's first records leaves its others.
filter-delete_all :
    (p : Text × CsrfTokenRecord → Bool) (n : ℕ) (m : Records)
    → IsMap m
    → filter p (delete_all (take n (keys_of (filter p m))) m) ≡ drop n (filter p m)
unfolding delete_all
filter-delete_all p zero m v = refl
filter-delete_all p (suc n) [] v = refl
filter-delete_all p (suc n) (e ∷ m) v = elim (Bool-cases (p e)) [
  | inl t ↦ rw (t) (unfold delete in rw (text_eq_refl e.0) (filter-delete_all p n m v.1))
  | inr f ↦ rw (f) (
      rw
        (
          delete_all-cons (take (suc n) (keys_of (filter p m))) e m
              (Avoids-take (suc n) e.0 (keys_of (filter p m)) (Avoids-keys_of-filter p e.0 m v.0)),
          f,
        )
        (filter-delete_all p (suc n) m v.1))
]

length-drop {ℓ} : {A : Type ℓ} (n : ℕ) (xs : List A) → length (drop n xs) ≡ length xs - n
length-drop zero xs = omega arith
length-drop (suc n) [] = omega arith
length-drop (suc n) (x ∷ xs) = omega (arith, length-drop n xs)

length-keys_of : (m : Records) → length (keys_of m) ≡ length m
length-keys_of [] = refl
length-keys_of (e ∷ m) = omega (arith, length-keys_of m)

Avoids-assign :
    (key j : Text) (a : CsrfTokenRecord) (m : Records)
    → text_eq key j ≡ false
    → Avoids j (keys_of m)
    → Avoids j (keys_of (assign key a m))
unfolding assign
Avoids-assign key j a [] h v = (h, tt)
Avoids-assign key j a ((k, b) ∷ m) h v = elim (Bool-cases (text_eq k key)) [
  | inl t ↦ rw (t) v
  | inr f ↦ rw (f) (v.0, Avoids-assign key j a m h v.1)
]

assign-IsMap : (key : Text) (a : CsrfTokenRecord) (m : Records) → IsMap m → IsMap (assign key a m)
unfolding assign
assign-IsMap key a [] v = (tt, tt)
assign-IsMap key a ((k, b) ∷ m) v = elim (Bool-cases (text_eq k key)) [
  | inl t ↦ rw (t) v
  | inr f ↦ rw (f) (Avoids-assign key k a m (grind text_tests) v.0, assign-IsMap key a m v.1)
]

-- After a record is stored in a map without double keys, its session has the records that it had
-- with the new one, less the oldest of them beyond four.
pub filter-create :
    (a : CsrfTokenRecord) (records : Records)
    → IsMap records
    → let stored = filter (is_of_session a.session_id) (assign a.token_hash a records) in
      (filter (is_of_session a.session_id) (create a records) ≡ drop (length stored - 4) stored)
      × (length (filter (is_of_session a.session_id) (create a records)) ≡ min 4 (length stored))
unfolding create
filter-create a records v =
    let stored = assign a.token_hash a records in
    let mine = filter (is_of_session a.session_id) stored in
    let kept : filter (is_of_session a.session_id) (create a records)
        ≡ drop (length mine - 4) mine =
      rw (length-keys_of mine) (
        filter-delete_all (is_of_session a.session_id) (length mine - 4) stored
          (assign-IsMap a.token_hash a records v)) in
    (kept, ap length kept ∙ length-drop (length mine - 4) mine ∙ omega arith)
