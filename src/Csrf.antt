-- ===== src/Csrf.antt =====
-- Tokens against cross-site requests: src/lib/csrf.ts, and the store in memory of
-- src/lib/csrf-token-store.ts. The random token and the hash are parameters.
pub mod Records
pub mod Tokens
pub mod Limit
use info_room_reservation_si.Prelude.{
  ℕ, ◌+◌, ◌-◌, ◌*◌, Bool, not, Option, none, some, List, [], ◌∷◌, Text, text_eq, filter, map, take,
  length, leb, if◌then◌else◌,
}
use info_room_reservation_si.MemoryStore.{lookup}
use info_room_reservation_si.RateLimit.{assign}

pub data CsrfErrorReason : Type 0 where
  csrf_expired csrf_invalid csrf_missing : CsrfErrorReason

pub record CsrfTokenRecord : Type 0 where
  pub expires_at : ℕ
  pub session_id : Text
  pub token_hash : Text

pub data CsrfValidationResult : Type 0 where
  ok : CsrfValidationResult
  error : CsrfErrorReason → CsrfValidationResult

abbrev pub csrf_ttl_ms : ℕ
csrf_ttl_ms = 3 * 60 * 60 * 1000

abbrev pub max_csrf_tokens_per_session : ℕ
max_csrf_tokens_per_session = 4

-- The records by their hashes, in the order of insertion.
abbrev pub Records : Type 0
Records = List (Text × CsrfTokenRecord)

abbrev pub is_of_session : Text → Text × CsrfTokenRecord → Bool
is_of_session session_id entry = text_eq entry.1.session_id session_id

-- `slice(0, -n)`
abbrev pub drop_last {ℓ} : {A : Type ℓ} → ℕ → List A → List A
drop_last n xs = take (length xs - n) xs

-- `Map.delete`
unfoldable pub delete {ℓ} : {A : Type ℓ} → Text → List (Text × A) → List (Text × A)
delete key [] = []
delete key ((k, a) ∷ m) = if text_eq k key then m else (k, a) ∷ delete key m

unfoldable pub delete_all {ℓ} : {A : Type ℓ} → List Text → List (Text × A) → List (Text × A)
unfolding delete
delete_all [] m = m
delete_all (key ∷ keys) m = delete_all keys (delete key m)

-- The record is stored, and of its session's records the oldest beyond the limit are deleted.
unfoldable pub create : CsrfTokenRecord → Records → Records
unfolding delete_all
create record' records =
    let stored = assign record'.token_hash record' records in
    let hashes = map (λ entry. entry.0) (filter (is_of_session record'.session_id) stored) in
    delete_all (drop_last max_csrf_tokens_per_session hashes) stored

unfoldable pub find_by_hash : Text → Records → Option CsrfTokenRecord
find_by_hash token_hash records = lookup token_hash records

module _ (hash_csrf_token : Text → Text) where
  unfoldable pub mint_csrf_token : Text → ℕ → Text → Records → Text × Records
  unfolding create
  mint_csrf_token token now session_id records = (
    token,
    create
        (record {
          expires_at = now + csrf_ttl_ms;
          session_id = session_id;
          token_hash = hash_csrf_token token;
        })
        records,
  )

  abbrev pub judge : Option CsrfTokenRecord → ℕ → Text → CsrfValidationResult
  judge none now session_id = error csrf_invalid
  judge (some found) now session_id =
      if not (text_eq found.session_id session_id)
      then error csrf_invalid
      else if leb found.expires_at now
      then error csrf_expired
      else ok

  abbrev pub validate_text : Text → ℕ → Text → Records → CsrfValidationResult
  validate_text [] now session_id records = error csrf_missing
  validate_text (c ∷ token) now session_id records =
      judge (find_by_hash (hash_csrf_token (c ∷ token)) records) now session_id

  -- An absent token and an empty one are both missing.
  unfoldable pub validate_csrf_token : Option Text → ℕ → Text → Records → CsrfValidationResult
  unfolding find_by_hash
  validate_csrf_token none now session_id records = error csrf_missing
  validate_csrf_token (some token) now session_id records =
      validate_text token now session_id records
