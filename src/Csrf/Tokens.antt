-- ===== src/Csrf/Tokens.antt =====
-- Which tokens are accepted.
use info_room_reservation_si.Prelude.{
  ℕ, ◌+◌, ◌≡◌, ◌∙◌, none, some, [], ◌∷◌, ◌++◌, Text, text_eq, text_eq_refl, leb, arith,
  if◌then◌else◌, filter,
}
use info_room_reservation_si.MemoryStore.{lookup}
use info_room_reservation_si.Csrf.{
  csrf_expired, csrf_invalid, CsrfTokenRecord, ok, error, csrf_ttl_ms, Records, is_of_session,
  drop_last, create, find_by_hash, mint_csrf_token, validate_csrf_token,
}
use info_room_reservation_si.Csrf.Records.{
  keys_of, Avoids-keys, assign-fresh, lookup-delete_all, Avoids-drop_last, lookup-last,
}

-- A new record is found after it is stored, for it is the newest of its session.
pub lookup-create :
    (a : CsrfTokenRecord) (records : Records)
    → lookup a.token_hash records ≡ none
    → lookup a.token_hash (create a records) ≡ some a
unfolding create
lookup-create a records fresh = rw (assign-fresh a.token_hash a records fresh) (
    lookup-delete_all a.token_hash
      (drop_last 4
        (keys_of (filter (is_of_session a.session_id) (records ++ (a.token_hash, a) ∷ []))))
      (records ++ (a.token_hash, a) ∷ [])
      (Avoids-drop_last (is_of_session a.session_id) 3 a.token_hash a records
        (text_eq_refl a.session_id) (Avoids-keys a.token_hash records fresh))
    ∙ lookup-last a.token_hash a records fresh)

-- A token that was just minted, and whose hash is new, is accepted for its own session until it
-- expires three hours later; after that it is expired, and for any other session it is invalid.
pub validate_csrf_token-mint_csrf_token :
    (hash_csrf_token : Text → Text) (c : ℕ) (token : Text) (now later : ℕ) (session_id other : Text)
    (records : Records)
    → lookup (hash_csrf_token (c ∷ token)) records ≡ none
    → validate_csrf_token hash_csrf_token
        (some (c ∷ token))
        later
        other
        (mint_csrf_token hash_csrf_token (c ∷ token) now session_id records).1
      ≡ (if text_eq session_id other
          then if leb (now + csrf_ttl_ms) later then error csrf_expired else ok
          else error csrf_invalid)
unfolding validate_csrf_token mint_csrf_token
validate_csrf_token-mint_csrf_token hash_csrf_token c token now later session_id other records
      fresh =
    let found =
      lookup-create
        (record {
          expires_at = now + csrf_ttl_ms;
          session_id = session_id;
          token_hash = hash_csrf_token (c ∷ token);
        })
        records fresh in
    unfold find_by_hash in rw found (ground arith)
