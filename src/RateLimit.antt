-- ===== src/RateLimit.antt =====
-- Rate limits over fixed windows: src/lib/rate-limit.ts, src/lib/memory-rate-limit-store.ts and the
-- statement of src/lib/prisma-rate-limit-store.ts.
pub mod Limits
use info_room_reservation_si.Prelude.{
  ℕ, ◌+◌, ◌-◌, Bool, true, false, Option, none, some, List, [], ◌∷◌, Text, text_eq, min, ltb, leb,
  if◌then◌else◌,
}
use info_room_reservation_si.MemoryStore.{lookup}

pub record RateLimitRule : Type 0 where
  pub key : Text
  pub limit : ℕ
  pub window_ms : ℕ

pub record RateLimitBucketRecord : Type 0 where
  pub count : ℕ
  pub expires_at : ℕ
  pub key : Text
  pub window_start : ℕ

-- The buckets by their keys.
abbrev pub Buckets : Type 0
Buckets = List (Text × RateLimitBucketRecord)

pub data RateLimitResult : Type 0 where
  -- what is left, and the reset time
  allowed : ℕ → ℕ → RateLimitResult
  -- the limit, and the reset time
  blocked : ℕ → ℕ → RateLimitResult

-- `Map.set`
unfoldable pub assign {ℓ} : {A : Type ℓ} → Text → A → List (Text × A) → List (Text × A)
assign key a [] = (key, a) ∷ []
assign key a ((k, b) ∷ m) = if text_eq k key then (k, a) ∷ m else (k, b) ∷ assign key a m

abbrev pub opened : Text → ℕ → ℕ → RateLimitBucketRecord
opened key now window_ms = record {
  count = 1;
  expires_at = now + window_ms;
  key = key;
  window_start = now;
}

-- A missing or expired bucket opens a new window, any other counts on.
abbrev pub next_bucket : Option RateLimitBucketRecord → Text → ℕ → ℕ → RateLimitBucketRecord
next_bucket none key now window_ms = opened key now window_ms
next_bucket (some current) key now window_ms =
    if leb current.expires_at now
    then opened key now window_ms
    else record current { count = current.count + 1 }

unfoldable pub increment : Text → ℕ → ℕ → Buckets → RateLimitBucketRecord × Buckets
increment key now window_ms buckets =
    let next = next_bucket (lookup key buckets) key now window_ms in (next, assign key next buckets)

-- The row after the upsert of the database store: each column has its own CASE.
abbrev pub upserted : Option RateLimitBucketRecord → Text → ℕ → ℕ → RateLimitBucketRecord
upserted none key now window_ms = record {
  count = 1;
  expires_at = now + window_ms;
  key = key;
  window_start = now;
}
upserted (some row) key now window_ms = record {
  count = if leb row.expires_at now then 1 else row.count + 1;
  expires_at = if leb row.expires_at now then now + window_ms else row.expires_at;
  key = row.key;
  window_start = if leb row.expires_at now then now else row.window_start;
}

unfoldable pub prisma_increment : Text → ℕ → ℕ → Buckets → RateLimitBucketRecord × Buckets
prisma_increment key now window_ms buckets =
    let row = upserted (lookup key buckets) key now window_ms in (row, assign key row buckets)

abbrev pub max_safe_integer : ℕ
max_safe_integer = 9007199254740991

abbrev pub earliest_reset : Option ℕ → ℕ → ℕ
earliest_reset none candidate = candidate
earliest_reset (some current) candidate = if ltb candidate current then candidate else current

abbrev pub or_now : Option ℕ → ℕ → ℕ
or_now none now = now
or_now (some t) now = t

module _ (now : ℕ) where
  -- The loop of `checkRateLimit`, with what remains and the earliest reset so far.
  unfoldable pub check_rules :
      List RateLimitRule → ℕ → Option ℕ → Buckets → RateLimitResult × Buckets
  check_rules [] remaining reset_at buckets = (allowed remaining (or_now reset_at now), buckets)
  check_rules (rule ∷ rules) remaining reset_at buckets =
      let (bucket, buckets') = increment rule.key now rule.window_ms buckets in
      let rest =
        check_rules rules (min remaining (rule.limit - bucket.count))
          (some (earliest_reset reset_at bucket.expires_at)) buckets' in
      if ltb rule.limit bucket.count then (blocked rule.limit bucket.expires_at, buckets') else rest

  unfoldable pub check_rate_limit : List RateLimitRule → Buckets → RateLimitResult × Buckets
  unfolding check_rules
  check_rate_limit rules buckets = check_rules rules max_safe_integer none buckets
