-- ===== src/Worker/Retry.antt =====
-- internal/worker/errors.go: when a failed task is tried again, and which errors count as failures.
-- A duration is an int64 of nanoseconds, kept as its 64 bits; an error's wait is in milliseconds.
use native.Mathlib.Nat.{pow-le-pow_right}
use native.Mathlib.Decide.{dec_le}
use discord_support_hub.Prelude.{
  ◌∙◌, ℕ, ◌*◌, ◌%◌, ◌^◌, ◌≤◌, ◌<◌, min, Bool, true, false, not, ◌||◌, ◌&&◌, ◌≡◌, refl, arith, ltb,
  leb, if◌then◌else◌,
}
use discord_support_hub.Store.Db.{Error, rate_limit, skip_retry}

abbrev pub second : ℕ
second = 1000000000

abbrev pub max_delay : ℕ
max_delay = 600 * second

-- ratelimit.go: `errors.As` finds the error under a wrapping one.
unfoldable pub extract_retry_after : Error → ℕ
extract_retry_after (rate_limit after bucket) = after * 1000000
extract_retry_after (skip_retry e) = extract_retry_after e
extract_retry_after _ = 0

unfoldable pub is_rate_limit_error : Error → Bool
is_rate_limit_error (rate_limit after bucket) = true
is_rate_limit_error (skip_retry e) = is_rate_limit_error e
is_rate_limit_error _ = false

abbrev pub is_negative : ℕ → Bool
is_negative d = leb (2 ^ 63) d

-- `base << min(uint(n), 10)`, with what the shift loses.
abbrev pub shifted : ℕ → ℕ
shifted n = (second * 2 ^ min n 10) % 2 ^ 64

abbrev pub backoff : ℕ → ℕ
backoff n =
    if (not (is_negative (shifted n)) && ltb max_delay (shifted n)) || is_negative (shifted n)
    then max_delay
    else shifted n

unfoldable pub retry_delay : ℕ → Error → ℕ
retry_delay n e = if ltb 0 (extract_retry_after e) then extract_retry_after e else backoff n

unfoldable pub is_failure : Error → Bool
is_failure e = not (is_rate_limit_error e)

unfoldable pub skip_retry_error : Error → Error
skip_retry_error = skip_retry

clamp_low : (n : ℕ) → n ≤ 9 → min n 10 ≡ n
clamp_low n h = omega arith

clamp_high : (n : ℕ) → 10 ≤ n → min n 10 ≡ 10
clamp_high n h = omega arith

backoff-small : (n : ℕ) → n ≤ 9 → backoff n ≡ second * 2 ^ n
backoff-small n h =
    let bound : 2 ^ n ≤ 2 ^ 9 = pow-le-pow_right (omega arith) h in
    rw (clamp_low n h) (ground (arith, bound))

backoff-big : (n : ℕ) → 10 ≤ n → backoff n ≡ max_delay
backoff-big n h = rw (clamp_high n h) refl

-- The delay that the exponential rule means, on numbers without a width.
abbrev pub doubling : ℕ → ℕ
doubling n = min (second * 2 ^ n) max_delay

backoff-doubling : (n : ℕ) → backoff n ≡ doubling n
backoff-doubling n = elim (dec_le n 9) [
  | yes small ↦
      let bound : 2 ^ n ≤ 2 ^ 9 = pow-le-pow_right (omega arith) small in
      backoff-small n small ∙ omega (arith, bound)
  | no big ↦
      let bound : 2 ^ 10 ≤ 2 ^ n = pow-le-pow_right (omega arith) {i = 10} (omega arith) in
      backoff-big n (omega arith) ∙ omega (arith, bound)
]

-- For every retry count and error, the delay is the error's own wait where it is a rate limit with
-- a positive wait, also inside an error that skips the retry; and else it is the smaller of
-- 2 to the retry count seconds and ten minutes: neither the shift nor its bound of 10 loses
-- anything in 64 bits.
pub retry_delay-exact :
    (n : ℕ) (e : Error)
    → retry_delay n e
      ≡ (if ltb 0 (extract_retry_after e) then extract_retry_after e else doubling n)
unfolding retry_delay
retry_delay-exact n e = rw (backoff-doubling n) refl

doubling_mono : (m n : ℕ) → m ≤ n → doubling m ≤ doubling n
doubling_mono m n h =
    let grows : 2 ^ m ≤ 2 ^ n = pow-le-pow_right (omega arith) h in omega (arith, grows)

doubling_positive : (n : ℕ) → 0 < doubling n
doubling_positive n =
    let one : 2 ^ 0 ≤ 2 ^ n = pow-le-pow_right (omega arith) {i = 0} (omega arith) in
    omega (arith, one)

-- A task that failed more often with the same error never waits less; the wait is positive, and is
-- at most the wait of a rate limit, or ten minutes for an error that has none.
pub retry_delay-ordered :
    (m n : ℕ) (e : Error)
    → m ≤ n
    → (0 < retry_delay m e)
      × (retry_delay m e ≤ retry_delay n e)
      × (retry_delay n e
          ≤ (if ltb 0 (extract_retry_after e) then extract_retry_after e else max_delay))
retry_delay-ordered m n e h =
    rw (retry_delay-exact m e)
      (rw (retry_delay-exact n e) (ground (arith, doubling_mono m n h, doubling_positive m)))
