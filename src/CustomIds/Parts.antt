-- ===== src/CustomIds/Parts.antt =====
-- The parts of an identifier.
use info_room_reservation_si.Prelude.{
  ◌≤◌, ◌≡◌, false, [], ◌∷◌, append_assoc, Text, length, length-take,
}
use info_room_reservation_si.CustomIds.{split, ◌·◌, mac, mac_message}
use info_room_reservation_si.CustomIds.Split.{has_dot, split-plain, split-dot, has_dot-take}

pub dot_assoc : (a b c : Text) → (a · b) · c ≡ a · b · c
dot_assoc a b c = append_assoc a (46 ∷ b) (46 ∷ c)

pub split-three :
    (a b c : Text)
    → has_dot a ≡ false
    → has_dot b ≡ false
    → has_dot c ≡ false
    → split 46 ((a · b) · c) ≡ a ∷ b ∷ c ∷ []
split-three a b c ha hb hc =
    rw (dot_assoc a b c, split-dot a (b · c) ha, split-dot b c hb, split-plain c hc)

-- Base64url has no dots.
module _ (digest : Text → Text → Text)
    (dotless : (secret message : Text) → has_dot (digest secret message) ≡ false) where
  pub mac-plain : (context body secret : Text) → has_dot (mac digest context body secret) ≡ false
  unfolding mac
  mac-plain context body secret =
      has_dot-take 22 (digest secret (mac_message context body))
        (dotless secret (mac_message context body))

  pub length-mac : (context body secret : Text) → length (mac digest context body secret) ≤ 22
  unfolding mac
  length-mac context body secret = length-take 22 (digest secret (mac_message context body))
