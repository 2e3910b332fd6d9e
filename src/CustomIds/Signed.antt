-- ===== src/CustomIds/Signed.antt =====
-- The identifiers of reason forms and of the student menu.
use info_room_reservation_si.Prelude.{
  ◌≡◌, refl, ap, ◌∙◌, ◌↔◌, true, false, inl, inr, some, List, [], ◌∷◌, Bool-cases, Text, codes,
  text_eq_sound, text_eq_refl, arith,
}
use info_room_reservation_si.CustomIds.{
  split, is_digit, is_snowflake, ◌·◌, is_empty, mac, build_discord_admin_reason_custom_id,
  parse_reason_parts, parse_discord_admin_reason_custom_id,
  build_discord_admin_student_select_custom_id, is_select_parts,
  is_discord_admin_student_select_custom_id,
}
use info_room_reservation_si.CustomIds.Split.{has_dot, join, join-split, has_dot-all_of}
use info_room_reservation_si.CustomIds.Parts.{dot_assoc, mac-plain, split-three}

snowflake-plain : (id : Text) → is_snowflake id ≡ true → has_dot id ≡ false
unfolding is_snowflake
snowflake-plain id h = has_dot-all_of is_digit (λ c k. ground arith) id (ground arith)

-- Base64url has no dots.
module _ (digest : Text → Text → Text)
    (dotless : (secret message : Text) → has_dot (digest secret message) ≡ false) where
  -- An identifier that was accepted as signed is what the builder gives.
  reason_parts-built :
      (parts : List Text) (id secret : Text)
      → is_empty secret ≡ false
      → parse_reason_parts digest parts secret ≡ some id
      → build_discord_admin_reason_custom_id digest secret id ≡ some (join parts)
  unfolding build_discord_admin_reason_custom_id
  reason_parts-built [] id secret e h = cc
  reason_parts-built (a ∷ []) id secret e h = cc
  reason_parts-built (a ∷ b ∷ []) id secret e h = cc
  reason_parts-built (a ∷ b ∷ c ∷ []) id secret e h =
      let version : a ≡ codes "da1" = text_eq_sound a (codes "da1") (ground arith) in
      let known : b ≡ id = ground arith in
      let valid : is_snowflake b ≡ true = ground arith in
      let signed : c ≡ mac digest (codes "reason") (a · b) secret =
        text_eq_sound c (mac digest (codes "reason") (a · b) secret) (ground arith) in
      rw (← known, valid, e)
        (ap some (
          dot_assoc (codes "da1") b (mac digest (codes "reason") (codes "da1" · b) secret)
          ∙ rw (signed, version)))
  reason_parts-built (a ∷ b ∷ c ∷ d ∷ parts) id secret e h = cc

  -- The converse: what the builder gives is split into its parts, and accepted.
  reason-parsed :
      (id secret : Text)
      → is_snowflake id ≡ true
      → parse_discord_admin_reason_custom_id digest
          ((codes "da1" · id) · mac digest (codes "reason") (codes "da1" · id) secret)
          secret
        ≡ some id
  unfolding parse_discord_admin_reason_custom_id
  reason-parsed id secret valid =
      let signature = mac digest (codes "reason") (codes "da1" · id) secret in
      rw (
        split-three (codes "da1") id signature refl (snowflake-plain id valid)
            (mac-plain digest dotless (codes "reason") (codes "da1" · id) secret),
        valid,
        text_eq_refl (codes "da1"),
        text_eq_refl signature,
      )

  select_parts-built :
      (parts : List Text) (secret : Text)
      → is_empty secret ≡ false
      → is_select_parts digest parts secret ≡ true
      → build_discord_admin_student_select_custom_id digest secret ≡ some (join parts)
  unfolding build_discord_admin_student_select_custom_id
  select_parts-built [] secret e h = cc
  select_parts-built (a ∷ []) secret e h = cc
  select_parts-built (a ∷ b ∷ []) secret e h = cc
  select_parts-built (a ∷ b ∷ c ∷ []) secret e h =
      let version : a ≡ codes "ds1" = text_eq_sound a (codes "ds1") (ground arith) in
      let action : b ≡ codes "student" = text_eq_sound b (codes "student") (ground arith) in
      let signed : c ≡ mac digest (codes "student") (a · b) secret =
        text_eq_sound c (mac digest (codes "student") (a · b) secret) (ground arith) in
      rw e (ap some (rw (signed, version, action)))
  select_parts-built (a ∷ b ∷ c ∷ d ∷ parts) secret e h = cc

  select-parsed :
      (secret : Text)
      → is_discord_admin_student_select_custom_id digest
          (codes "ds1.student" · mac digest (codes "student") (codes "ds1.student") secret)
          secret
        ≡ true
  unfolding is_discord_admin_student_select_custom_id
  select-parsed secret =
      let signature = mac digest (codes "student") (codes "ds1.student") secret in
      rw (
        split-three (codes "ds1") (codes "student") signature refl refl
            (mac-plain digest dotless (codes "student") (codes "ds1.student") secret),
        text_eq_refl (codes "ds1"),
        text_eq_refl (codes "student"),
        text_eq_refl signature,
      )

  built-parsed :
      (custom_id id secret : Text)
      → build_discord_admin_reason_custom_id digest secret id ≡ some custom_id
      → parse_discord_admin_reason_custom_id digest custom_id secret ≡ some id
  unfolding build_discord_admin_reason_custom_id
  built-parsed custom_id id secret h = elim (Bool-cases (is_snowflake id)) [
    | inr no_id ↦ absurd (ground arith)
    | inl valid ↦
        let same : (codes "da1" · id) · mac digest (codes "reason") (codes "da1" · id) secret
            ≡ custom_id =
          ground arith in
        rw (← same) (reason-parsed id secret valid)
  ]

  built-selected :
      (custom_id secret : Text)
      → build_discord_admin_student_select_custom_id digest secret ≡ some custom_id
      → is_discord_admin_student_select_custom_id digest custom_id secret ≡ true
  unfolding build_discord_admin_student_select_custom_id
  built-selected custom_id secret h =
      let same : codes "ds1.student" · mac digest (codes "student") (codes "ds1.student") secret
          ≡ custom_id =
        ground arith in
      rw (← same) (select-parsed secret)

-- Under a secret that is not empty, a text is accepted as the identifier of a reason form for an
-- interaction exactly when it is the one that is built for it.
pub parse_discord_admin_reason_custom_id_iff :
    (digest : Text → Text → Text)
    → ((secret message : Text) → has_dot (digest secret message) ≡ false)
    → (custom_id id secret : Text) → is_empty secret ≡ false
    → (parse_discord_admin_reason_custom_id digest custom_id secret ≡ some id)
      ↔ (build_discord_admin_reason_custom_id digest secret id ≡ some custom_id)
parse_discord_admin_reason_custom_id_iff digest dotless custom_id id secret e = (
  λ h.
      reason_parts-built digest dotless (split 46 custom_id) id secret e
        (unfold parse_discord_admin_reason_custom_id in h)
      ∙ ap some (join-split custom_id),
  built-parsed digest dotless custom_id id secret,
)

-- Under a secret that is not empty, a text is accepted as the identifier of the student menu exactly
-- when it is the one that is built.
pub is_discord_admin_student_select_custom_id_iff :
    (digest : Text → Text → Text)
    → ((secret message : Text) → has_dot (digest secret message) ≡ false)
    → (custom_id secret : Text) → is_empty secret ≡ false
    → (is_discord_admin_student_select_custom_id digest custom_id secret ≡ true)
      ↔ (build_discord_admin_student_select_custom_id digest secret ≡ some custom_id)
is_discord_admin_student_select_custom_id_iff digest dotless custom_id secret e = (
  λ h.
      select_parts-built digest dotless (split 46 custom_id) secret e
        (unfold is_discord_admin_student_select_custom_id in h)
      ∙ ap some (join-split custom_id),
  built-selected digest dotless custom_id secret,
)
