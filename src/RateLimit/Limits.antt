-- ===== src/RateLimit/Limits.antt =====
-- What the limits guarantee.
use info_room_reservation_si.Prelude.{
  ℕ, suc, ◌+◌, ◌-◌, ◌≤◌, ◌<◌, ◌≡◌, refl, ap, ◌∙◌, ◌⊎◌, Bool, true, false, Option, none, some, List,
  [], ◌∷◌, Text, text_eq, text_eq_sound, text_eq_refl, min, leb, arith, if◌then◌else◌, inl, inr,
  All, length,
}
use info_room_reservation_si.MemoryStore.{lookup}
use info_room_reservation_si.RateLimit.{
  RateLimitRule, RateLimitBucketRecord, Buckets, RateLimitResult, allowed, blocked, assign, opened,
  next_bucket, increment, upserted, prisma_increment, check_rate_limit,
}

-- Reading a map after a write.
pub lookup-assign {ℓ} :
    {A : Type ℓ} (j key : Text) (a : A) (m : List (Text × A))
    → lookup j (assign key a m) ≡ (if text_eq key j then some a else lookup j m)
unfolding lookup assign
lookup-assign j key a [] = refl
lookup-assign j key a ((k, b) ∷ m) = ground (
  arith,
  text_eq_sound k key,
  text_eq_sound key j,
  text_eq_sound k j,
  text_eq_refl k,
  text_eq_refl j,
  lookup-assign j key a m,
)

-- The bucket that is found under a key carries that key.
abbrev pub IsKeyed : Buckets → Type 0
IsKeyed = All (λ b. b.1.key ≡ b.0)

lookup-IsKeyed :
    (key : Text) (buckets : Buckets) (b : RateLimitBucketRecord)
    → IsKeyed buckets
    → lookup key buckets ≡ some b
    → b.key ≡ key
unfolding lookup
lookup-IsKeyed key [] b v h = ground arith
lookup-IsKeyed key ((k, c) ∷ m) b v h =
    ground (arith, text_eq_sound k key, lookup-IsKeyed key m b v.1)

upserted-next_bucket :
    (o : Option RateLimitBucketRecord) (key : Text) (now window_ms : ℕ)
    → ((b : RateLimitBucketRecord) → o ≡ some b → b.key ≡ key)
    → upserted o key now window_ms ≡ next_bucket o key now window_ms
upserted-next_bucket none key now window_ms h = refl
upserted-next_bucket (some b) key now window_ms h = ground (arith, h b refl)

-- The upsert of the database store, column by column, has the effect of the store in memory, where
-- every bucket lies under its own key.
pub prisma_increment-increment :
    (key : Text) (now window_ms : ℕ) (buckets : Buckets)
    → IsKeyed buckets
    → prisma_increment key now window_ms buckets ≡ increment key now window_ms buckets
unfolding prisma_increment increment
prisma_increment-increment key now window_ms buckets v = rw (
    upserted-next_bucket (lookup key buckets) key now window_ms
      (λ b h. lookup-IsKeyed key buckets b v h))

abbrev pub is_allowed : RateLimitResult → Bool
is_allowed (allowed remaining reset_at) = true
is_allowed (blocked limit reset_at) = false

-- How many of the calls at the given times one rule allows.
pub serve : RateLimitRule → List ℕ → Buckets → ℕ
serve rule [] buckets = 0
serve rule (now ∷ times) buckets =
    let (result, buckets') = check_rate_limit now (rule ∷ []) buckets in
    let rest = serve rule times buckets' in if is_allowed result then suc rest else rest

-- One call of one rule.
check_one :
    (now : ℕ) (rule : RateLimitRule) (buckets : Buckets)
    → let bucket = next_bucket (lookup rule.key buckets) rule.key now rule.window_ms in
      (is_allowed (check_rate_limit now (rule ∷ []) buckets).0 ≡ leb bucket.count rule.limit)
      × (lookup rule.key (check_rate_limit now (rule ∷ []) buckets).1 ≡ some bucket)
unfolding check_rate_limit increment
check_one now rule buckets = ground (
  arith,
  lookup-assign rule.key rule.key
      (next_bucket (lookup rule.key buckets) rule.key now rule.window_ms) buckets,
  text_eq_refl rule.key,
)

-- Within a window that is open until `end` the calls count on.
serve_within :
    (rule : RateLimitRule) (times : List ℕ) (end : ℕ) (buckets : Buckets)
    (b : RateLimitBucketRecord)
    → lookup rule.key buckets ≡ some b
    → b.expires_at ≡ end
    → All (λ now. now < end) times
    → serve rule times buckets ≡ min (rule.limit - b.count) (length times)
unfolding serve
serve_within rule [] end buckets b found open_until early = omega arith
serve_within rule (now ∷ times) end buckets b found open_until early =
    let (answer, kept) = check_one now rule buckets in
    let same : next_bucket (lookup rule.key buckets) rule.key now rule.window_ms
        ≡ record b { count = b.count + 1 } =
      rw found (ground arith) in
    let ih =
      serve_within rule times end (check_rate_limit now (rule ∷ []) buckets).1
        (record b { count = b.count + 1 }) (kept ∙ ap some same) open_until early.1 in
    rw (answer, ih, same) (ground arith)

opens :
    (o : Option RateLimitBucketRecord) (key : Text) (start window_ms : ℕ)
    → (o ≡ none) ⊎ ((b : RateLimitBucketRecord) × (o ≡ some b) × (b.expires_at ≤ start))
    → next_bucket o key start window_ms ≡ opened key start window_ms
opens none key start window_ms h = refl
opens (some b) key start window_ms (inl e) = ground arith
opens (some b) key start window_ms (inr (c, e, l)) = ground arith

-- From the first call of a window, which finds no bucket or an expired one, to the window's end, exactly the first calls up to the limit are allowed,
-- however many come.
pub serve_window :
    (rule : RateLimitRule) (start : ℕ) (times : List ℕ) (buckets : Buckets)
    → (lookup rule.key buckets ≡ none)
      ⊎ ((b : RateLimitBucketRecord) × (lookup rule.key buckets ≡ some b) × (b.expires_at ≤ start))
    → All (λ now. now < start + rule.window_ms) times
    → serve rule (start ∷ times) buckets ≡ min rule.limit (suc (length times))
unfolding serve
serve_window rule start times buckets fresh early =
    let (answer, kept) = check_one start rule buckets in
    let same = opens (lookup rule.key buckets) rule.key start rule.window_ms fresh in
    let within =
      serve_within rule times (start + rule.window_ms)
        (check_rate_limit start (rule ∷ []) buckets).1 (opened rule.key start rule.window_ms)
        (kept ∙ ap some same) refl early in
    rw (answer, within, same) (ground arith)
