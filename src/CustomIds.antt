-- ===== src/CustomIds.antt =====
-- The signed identifiers of buttons and forms: src/lib/discord-admin-custom-ids.ts. The base64url text
-- of an HMAC-SHA256 is a parameter.
pub mod Split
pub mod Base36
pub mod Parts
pub mod RoundTrip
pub mod Signed
use info_room_reservation_si.Prelude.{
  ℕ, zero, suc, ◌+◌, ◌-◌, ◌*◌, ◌/◌, ◌%◌, ◌<◌, Bool, true, false, ◌&&◌, ◌||◌, not, Option, none,
  some, List, [], ◌∷◌, ◌++◌, Text, codes, text_eq, leb, ltb, ◌==◌, length, take, if◌then◌else◌,
}

pub data BoardAction : Type 0 where
  backlog refresh roster_eighth roster_first : BoardAction

abbrev pub custom_id_max_length : ℕ
custom_id_max_length = 100

-- `Number.MAX_SAFE_INTEGER`
abbrev pub max_safe_integer : ℕ
max_safe_integer = 9007199254740991

-- `String.prototype.split` at a code unit
abbrev pub prepend : ℕ → List Text → List Text
prepend x [] = (x ∷ []) ∷ []
prepend x (part ∷ parts) = (x ∷ part) ∷ parts

unfoldable pub split : ℕ → Text → List Text
split c [] = [] ∷ []
split c (x ∷ xs) = let rest = split c xs in if x == c then [] ∷ rest else prepend x rest

abbrev pub is_digit : ℕ → Bool
is_digit c = leb 48 c && leb c 57

abbrev pub all_of : (ℕ → Bool) → Text → Bool
all_of p [] = true
all_of p (c ∷ s) = p c && all_of p s

-- `/^\d{17,20}$/`
unfoldable pub is_snowflake : Text → Bool
is_snowflake id = all_of is_digit id && (leb 17 (length id) && leb (length id) 20)

-- `/^[0-9a-z]+$/`
abbrev pub is_digit36 : ℕ → Bool
is_digit36 c = is_digit c || (leb 97 c && leb c 122)

unfoldable pub is_numeral36 : Text → Bool
is_numeral36 [] = false
is_numeral36 (c ∷ s) = all_of is_digit36 (c ∷ s)

-- `toString(36)`; the fuel is one more than the number.
abbrev pub digit36 : ℕ → ℕ
digit36 d = if ltb d 10 then 48 + d else 87 + d

unfoldable pub digits36 : ℕ → ℕ → Text
digits36 zero n = []
digits36 (suc fuel) n =
    let rest = digits36 fuel (n / 36) ++ digit36 (n % 36) ∷ [] in
    if ltb n 36 then digit36 n ∷ [] else rest

unfoldable pub text36 : ℕ → Text
unfolding digits36
text36 n = digits36 (suc n) n

-- `Number.parseInt(text, 36)` of a numeral
abbrev pub value_of_digit36 : ℕ → ℕ
value_of_digit36 c = if leb c 57 then c - 48 else c - 87

unfoldable pub value36 : ℕ → Text → ℕ
value36 acc [] = acc
value36 acc (c ∷ s) = value36 (acc * 36 + value_of_digit36 c) s

unfoldable pub board_action_code : BoardAction → Text
board_action_code refresh = codes "r"
board_action_code roster_eighth = codes "8"
board_action_code roster_first = codes "1"
board_action_code backlog = codes "b"

unfoldable pub board_action : Text → Option BoardAction
board_action code =
    if text_eq code (codes "r")
    then some refresh
    else if text_eq code (codes "8")
    then some roster_eighth
    else if text_eq code (codes "1")
    then some roster_first
    else if text_eq code (codes "b")
    then some backlog
    else none

-- A dot between two texts, as in the templates.
infixr 66 ◌·◌
abbrev pub ◌·◌ : Text → Text → Text
a · b = a ++ 46 ∷ b

abbrev pub is_empty : Text → Bool
is_empty [] = true
is_empty (c ∷ s) = false

-- The code unit 0 stands between the domain and the body.
abbrev pub mac_message : Text → Text → Text
mac_message context body = codes "discord-admin-" ++ context ++ codes ":v1" ++ 0 ∷ body

-- The digest of a text under a secret.
module _ (digest : Text → Text → Text) where
  unfoldable pub mac : Text → Text → Text → Text
  mac context body secret = take 22 (digest secret (mac_message context body))

  -- `none` for InvalidDiscordAdminCustomIdError
  unfoldable pub build_discord_admin_reason_custom_id : Text → Text → Option Text
  build_discord_admin_reason_custom_id secret id =
      if not (is_snowflake id) || is_empty secret
      then none
      else some ((codes "da1" · id) · mac (codes "reason") (codes "da1" · id) secret)

  abbrev pub parse_reason_parts : List Text → Text → Option Text
  parse_reason_parts (version ∷ id ∷ signature ∷ []) secret =
      if text_eq version (codes "da1")
        && (is_snowflake id && text_eq signature (mac (codes "reason") (version · id) secret))
      then some id
      else none
  parse_reason_parts _ secret = none

  unfoldable pub parse_discord_admin_reason_custom_id : Text → Text → Option Text
  parse_discord_admin_reason_custom_id custom_id secret =
      parse_reason_parts (split 46 custom_id) secret

  unfoldable pub build_discord_admin_student_select_custom_id : Text → Option Text
  build_discord_admin_student_select_custom_id secret =
      if is_empty secret
      then none
      else some (codes "ds1.student" · mac (codes "student") (codes "ds1.student") secret)

  abbrev pub is_select_parts : List Text → Text → Bool
  is_select_parts (version ∷ action ∷ signature ∷ []) secret =
      text_eq version (codes "ds1")
      && (text_eq action (codes "student")
          && text_eq signature (mac (codes "student") (version · action) secret))
  is_select_parts _ secret = false

  unfoldable pub is_discord_admin_student_select_custom_id : Text → Text → Bool
  is_discord_admin_student_select_custom_id custom_id secret =
      is_select_parts (split 46 custom_id) secret

  abbrev pub board_body : BoardAction → ℕ → Text
  board_body action revision = codes "db1" · board_action_code action · text36 revision

  abbrev pub within_length : Text → Option Text
  within_length custom_id =
      if ltb custom_id_max_length (length custom_id) then none else some custom_id

  unfoldable pub build_discord_operations_board_custom_id : BoardAction → ℕ → Text → Option Text
  build_discord_operations_board_custom_id action revision secret =
      if not (leb revision max_safe_integer) || is_empty secret
      then none
      else within_length
          (board_body action revision · mac (codes "board") (board_body action revision) secret)

  abbrev pub board_of : Option BoardAction → ℕ → Bool → Option (BoardAction × ℕ)
  board_of none revision valid = none
  board_of (some action) revision valid =
      if leb revision max_safe_integer && valid then some (action, revision) else none

  abbrev pub parse_board_parts : List Text → Text → Option (BoardAction × ℕ)
  parse_board_parts (version ∷ code ∷ revision ∷ signature ∷ []) secret =
      if text_eq version (codes "db1") && is_numeral36 revision
      then board_of (board_action code) (value36 0 revision)
          (text_eq signature (mac (codes "board") (version · code · revision) secret))
      else none
  parse_board_parts _ secret = none

  unfoldable pub parse_discord_operations_board_custom_id : Text → Text → Option (BoardAction × ℕ)
  parse_discord_operations_board_custom_id custom_id secret =
      parse_board_parts (split 46 custom_id) secret
