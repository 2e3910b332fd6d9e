-- ===== src/Examples/Limits.antt =====
-- Rate limits and tokens.
use info_room_reservation_si.Prelude.{◌≡◌, refl, some, [], ◌∷◌, codes, arith, inr, Text, text_eq}
use info_room_reservation_si.MemoryStore.{lookup}
use info_room_reservation_si.RateLimit.{RateLimitRule, Buckets, opened, increment, prisma_increment}
use info_room_reservation_si.RateLimit.Limits.{serve, serve_window, prisma_increment-increment}
use info_room_reservation_si.Csrf.{CsrfTokenRecord, ok, mint_csrf_token, validate_csrf_token}
use info_room_reservation_si.Csrf.Tokens.{validate_csrf_token-mint_csrf_token}

abbrev key : Text
key = codes "login"

abbrev buckets : Buckets
buckets = (key, opened key 100 60) ∷ []

prisma_increment-increment_example :
    prisma_increment key 130 60 buckets ≡ increment key 130 60 buckets
prisma_increment-increment_example = prisma_increment-increment key 130 60 buckets (refl, tt)

abbrev rule : RateLimitRule
rule = record { key = key; limit = 2; window_ms = 60 }

-- Of four calls in a window two are allowed.
serve_window_example : serve rule (200 ∷ 210 ∷ 220 ∷ 259 ∷ []) buckets ≡ 2
serve_window_example =
    serve_window rule 200 (210 ∷ 220 ∷ 259 ∷ []) buckets
      (inr (opened key 100 60, unfold lookup text_eq in refl, omega arith))
      (omega arith, (omega arith, (omega arith, tt)))

abbrev session : Text
session = codes "s1"

-- The hash of the test is the identity.
abbrev same_text : Text → Text
same_text token = token

validate_csrf_token-mint_csrf_token_example :
    validate_csrf_token same_text
      (some (codes "t"))
      1000
      session
      (mint_csrf_token same_text (codes "t") 10 session []).1
    ≡ ok
unfolding text_eq
validate_csrf_token-mint_csrf_token_example =
    validate_csrf_token-mint_csrf_token same_text b't' [] 10 1000 session session []
      (unfold lookup in refl)

abbrev token_of : Text → CsrfTokenRecord
token_of hash = record { expires_at = 5; session_id = session; token_hash = hash }
