-- ===== src/Ratelimit.antt =====
-- internal/ratelimit/ratelimit.go: the token buckets that the workers share, in hashes of Valkey.
pub mod Doubles
pub mod Hashes
pub mod Waits
use discord_support_hub.Prelude.{
  ℕ, ◌+◌, ◌-◌, ◌*◌, ◌/◌, String, ◌<>◌, ◌&&◌, Option, none, some, List, [], ◌∷◌, ltb, leb,
  if◌then◌else◌,
}
use discord_support_hub.Store.Db.{Reply, ok, err, rate_limit}
use discord_support_hub.Ratelimit.Doubles.{Numbers}
use discord_support_hub.Ratelimit.Hashes.{HashStore, Cell, live}

-- The rate is a number of the script, tokens per second.
pub record Config (N : Type 0) : Type 0 where
  pub global_refill_rate : N
  pub global_capacity : ℕ
  pub default_route_capacity : ℕ
  pub key_prefix : String

abbrev pub default_config : {N : Type 0} → Numbers N → Config N
default_config ns = record {
  global_refill_rate = ns.of 45;
  global_capacity = 45;
  default_route_capacity = 5;
  key_prefix = "rl:";
}

-- The clock is in nanoseconds, and UnixMilli drops what is less than a millisecond.
abbrev pub millis : ℕ → ℕ
millis t = t / 1000000

abbrev pub at_most : ℕ → ℕ → ℕ
at_most cap x = if ltb cap x then cap else x

-- 5 minutes, in nanoseconds.
abbrev pub max_penalty_duration : ℕ
max_penalty_duration = 300000000000

-- The script's answer: {1, remaining, 0} or {0, 0, wait in milliseconds}.
pub record Taken : Type 0 where
  pub allowed : ℕ
  pub remaining : ℕ
  pub wait_ms : ℕ

module _ {N : Type 0} (ns : Numbers N) where
  -- Tokens proportional to the time that has elapsed, negative where `last_ms` lies ahead.
  abbrev pub refilled : N → ℕ → Cell N → N
  refilled rate now c =
      ns.add c.bucket.tokens
        (ns.mul (ns.div (ns.sub (ns.of now) (ns.of c.bucket.last_ms)) (ns.of 1000)) rate)

  -- A key that holds nothing is a full bucket.
  abbrev pub available : ℕ → N → ℕ → Option (Cell N) → N
  available capacity rate now none = ns.of capacity
  available capacity rate now (some c) = ns.min (ns.of capacity) (refilled rate now c)

  -- Five seconds more than an empty bucket takes to fill.
  abbrev pub idle_ttl : ℕ → N → ℕ
  idle_ttl capacity rate = ns.ceil (ns.mul (ns.div (ns.of capacity) rate) (ns.of 1000)) + 5000

module _ {N V : Type 0} (ns : Numbers N) (api : HashStore N V) (cfg : Config N) where
  abbrev pub global_key : String
  global_key = cfg.key_prefix <> "global"

  abbrev pub route_key : String → String
  route_key route = cfg.key_prefix <> ("route:" <> route)

  abbrev pub spend : ℕ → N → ℕ → String → N → V → Taken × V
  spend capacity rate now key tokens v =
      let left = ns.sub tokens (ns.of 1) in
      (
        record { allowed = 1; remaining = ns.floor left; wait_ms = 0 },
        api.pexpire now key (idle_ttl ns capacity rate) (api.hset now key left now none v),
      )

  -- A refusal writes nothing.
  abbrev pub refuse : N → N → V → Taken × V
  refuse rate tokens v =
      let need = ns.div (ns.sub (ns.of 1) tokens) rate in
      (record { allowed = 0; remaining = 0; wait_ms = ns.ceil (ns.mul need (ns.of 1000)) }, v)

  unfoldable pub take_script : ℕ → N → ℕ → String → V → Taken × V
  take_script capacity rate now key v =
      let tokens = available ns capacity rate now (live now (api.cell key v)) in
      if ns.le (ns.of 1) tokens then spend capacity rate now key tokens v else refuse rate tokens v

  -- At least a millisecond; in milliseconds, as the error carries it.
  abbrev pub retry_after : ℕ → ℕ
  retry_after wait = if ltb wait 1 then 1 else wait

  abbrev pub verdict : String → Reply Taken → Reply (Unit {0})
  verdict key (err e) = err e
  verdict key (ok t) =
      if leb t.allowed 1 && leb 1 t.allowed
      then ok tt
      else err (rate_limit (retry_after t.wait_ms) key)

  unfoldable pub take : ℕ → N → ℕ → String → V → Reply (Unit {0}) × V
  take capacity rate now key v =
      let answer = api.run (take_script capacity rate (millis now) key) v in
      (verdict key answer.0, answer.1)

  unfoldable pub take_global : ℕ → V → Reply (Unit {0}) × V
  take_global now = take cfg.global_capacity cfg.global_refill_rate now global_key

  unfoldable pub take_route : ℕ → String → V → Reply (Unit {0}) × V
  take_route now route =
      take cfg.default_route_capacity (ns.of cfg.default_route_capacity) now (route_key route)

  -- The time to the reset and five seconds, at least five seconds where that is over, and no more
  -- than the longest penalty.
  abbrev pub header_ttl : ℕ → ℕ → ℕ
  header_ttl now reset_at =
      let ttl =
        if leb (reset_at + 5000000000) now then 5000000000 else reset_at + 5000000000 - now in
      at_most max_penalty_duration ttl

  -- `remaining` is what the header says, 0 where that is negative.
  unfoldable pub update_from_headers : ℕ → String → ℕ → ℕ → ℕ → V → Reply (Unit {0}) × V
  update_from_headers now route limit remaining reset_at =
      let key = route_key route in
      api.exec (
        api.hset (millis now) key (ns.of remaining) (millis now) (some limit)
        ∷ api.pexpire (millis now) key (millis (header_ttl now reset_at))
        ∷ [])

  abbrev pub freeze : ℕ → ℕ → String → List (V → V) → List (V → V)
  freeze now retry key later =
      api.hset (millis now) key (ns.of 0) (millis (now + retry)) none
      ∷ api.pexpire (millis now) key (millis (retry + 10000000000))
      ∷ later

  -- A delay of 0 stands for any that is not positive.
  unfoldable pub penalize_until : ℕ → String → ℕ → V → Reply (Unit {0}) × V
  penalize_until now route retry v =
      if leb retry 0
      then (ok tt, v)
      else let capped = at_most max_penalty_duration retry in
        api.exec (freeze now capped global_key (freeze now capped (route_key route) [])) v
