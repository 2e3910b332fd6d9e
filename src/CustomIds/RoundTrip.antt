-- ===== src/CustomIds/RoundTrip.antt =====
-- The identifiers of board buttons.
use info_room_reservation_si.Prelude.{
  ℕ, ◌≤◌, ◌≡◌, refl, ap, true, false, some, [], ◌∷◌, Text, codes, text_eq, text_eq_refl, length,
  length-append, leb, ltb, arith,
}
use info_room_reservation_si.CustomIds.{
  BoardAction, backlog, refresh, roster_eighth, roster_first, max_safe_integer, split, is_digit36,
  text36, board_action_code, board_action, ◌·◌, is_empty, mac, board_body,
  build_discord_operations_board_custom_id, parse_board_parts,
  parse_discord_operations_board_custom_id,
}
use info_room_reservation_si.CustomIds.Split.{has_dot, split-dot, has_dot-all_of}
use info_room_reservation_si.CustomIds.Base36.{
  value36-text36, all_of-text36, is_numeral36-text36, length-text36,
}
use info_room_reservation_si.CustomIds.Parts.{dot_assoc, mac-plain, length-mac, split-three}

board_action-board_action_code :
    (action : BoardAction) → board_action (board_action_code action) ≡ some action
unfolding board_action board_action_code text_eq
board_action-board_action_code backlog = refl
board_action-board_action_code refresh = refl
board_action-board_action_code roster_eighth = refl
board_action-board_action_code roster_first = refl

board_action_code-plain :
    (action : BoardAction)
    → (has_dot (board_action_code action) ≡ false) × (length (board_action_code action) ≡ 1)
unfolding board_action_code
board_action_code-plain backlog = (refl, refl)
board_action_code-plain refresh = (refl, refl)
board_action_code-plain roster_eighth = (refl, refl)
board_action_code-plain roster_first = (refl, refl)

text36-plain : (n : ℕ) → has_dot (text36 n) ≡ false
text36-plain n = has_dot-all_of is_digit36 (λ c h. ground arith) (text36 n) (all_of-text36 n)

-- Base64url has no dots.
module _ (digest : Text → Text → Text)
    (dotless : (secret message : Text) → has_dot (digest secret message) ≡ false) where
  abbrev signature : BoardAction → ℕ → Text → Text
  signature action revision secret =
      mac digest (codes "board") (board_body digest action revision) secret

  split-board :
      (action : BoardAction) (revision : ℕ) (secret : Text)
      → split 46 (board_body digest action revision · signature action revision secret)
        ≡ codes "db1"
          ∷ board_action_code action
          ∷ text36 revision
          ∷ signature action revision secret
          ∷ []
  split-board action revision secret =
      rw
        (
          dot_assoc (codes "db1") (board_action_code action · text36 revision)
              (signature action revision secret),
          split-dot (codes "db1")
              ((board_action_code action · text36 revision) · signature action revision secret)
              refl,
        )
        (ap (λ parts. codes "db1" ∷ parts)
          (split-three (board_action_code action) (text36 revision)
            (signature action revision secret) (board_action_code-plain action).0
            (text36-plain revision)
            (mac-plain digest dotless (codes "board") (board_body digest action revision) secret)))

  length-board :
      (action : BoardAction) (revision : ℕ) (secret : Text)
      → revision ≤ max_safe_integer
      → length (board_body digest action revision · signature action revision secret) ≤ 100
  length-board action revision secret h =
      rw
        (
          length-append (board_body digest action revision) (46 ∷ signature action revision secret),
          length-append (codes "db1") (46 ∷ (board_action_code action · text36 revision)),
          length-append (board_action_code action) (46 ∷ text36 revision),
          (board_action_code-plain action).1,
        )
        (omega (
          arith,
          length-text36 revision h,
          length-mac digest dotless (codes "board") (board_body digest action revision) secret,
        ))

  board_parts :
      (action : BoardAction) (revision : ℕ) (secret : Text)
      → leb revision max_safe_integer ≡ true
      → parse_board_parts digest
          (codes "db1"
            ∷ board_action_code action
            ∷ text36 revision
            ∷ signature action revision secret
            ∷ [])
          secret
        ≡ some (action, revision)
  board_parts action revision secret h = rw (
    text_eq_refl (codes "db1"),
    is_numeral36-text36 revision,
    board_action-board_action_code action,
    value36-text36 revision,
    h,
    text_eq_refl (signature action revision secret),
  )

-- For a revision up to the largest safe integer and a secret that is not empty, the identifier of a
-- board button is built, and parsing it under the same secret gives the action and the revision back.
pub parse-build_discord_operations_board_custom_id :
    (digest : Text → Text → Text)
    → ((secret message : Text) → has_dot (digest secret message) ≡ false)
    → (action : BoardAction) (revision : ℕ) (secret : Text) → revision ≤ max_safe_integer
    → is_empty secret ≡ false
    → (custom_id : Text) × (build_discord_operations_board_custom_id digest action revision secret
        ≡ some custom_id)
      × (parse_discord_operations_board_custom_id digest custom_id secret ≡ some (action, revision))
unfolding build_discord_operations_board_custom_id parse_discord_operations_board_custom_id
parse-build_discord_operations_board_custom_id digest dotless action revision secret h e =
    let safe : leb revision max_safe_integer ≡ true = ground arith in
    let fits = length-board digest dotless action revision secret h in
    let short : ltb 100 (
          length
            (board_body digest action revision · signature digest dotless action revision secret))
        ≡ false =
      ground arith in
    (
      board_body digest action revision · signature digest dotless action revision secret,
      rw (safe, e, short),
      rw (split-board digest dotless action revision secret)
          (board_parts digest dotless action revision secret safe),
    )
