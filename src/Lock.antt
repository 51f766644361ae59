-- ===== src/Lock.antt =====
-- internal/lock/lock.go: the locks of spaces and merchants, over an interface for Valkey, which is
-- no code of the repository. The random tokens are an argument too.
pub mod Exclusive
use discord_support_hub.Prelude.{
  ℕ, suc, ◌+◌, ◌≤◌, String, Bool, true, false, ◌==◌, ◌<>◌, Option, none, some, ◌≡◌, ◌≢◌, ◌⊎◌, ltb,
  if◌then◌else◌,
}
use discord_support_hub.Store.Db.{Reply, ok, err, infrastructure}
use discord_support_hub.Valkey.{Valkey}
use discord_support_hub.Effects.{Locker}

-- What the release script answers: 1, 0 and -1.
pub data Outcome : Type 0 where
  released mismatch absent : Outcome

abbrev pub default_ttl : ℕ
default_ttl = 30000

-- The lock's side of a worker: Valkey, the time, and the tokens that `rand` gives, `none` where it
-- fails.
pub record LockState (V : Type 0) : Type 0 where
  pub valkey : V
  pub now : ℕ
  pub tokens : ℕ → Option String
  pub drawn : ℕ

module _ {V : Type 0} (api : Valkey V) where
  unfoldable pub release_script : ℕ → String → String → V → Outcome × V
  release_script now key token v = elim (api.get now key v) [
    | none ↦ (absent, v)
    | some x ↦ if x == token then (released, api.del key v) else (mismatch, v)
  ]

  abbrev pub granted : String → Reply Bool → Reply (Option String)
  granted token (ok true) = ok (some token)
  granted token (ok false) = ok none
  granted token (err e) = err e

  unfoldable pub set_token : ℕ → String → Option String → ℕ → V → Reply (Option String) × V
  set_token ttl key none now v = (err infrastructure, v)
  set_token ttl key (some token) now v =
      (granted token (api.set_nx now key token ttl v).0, (api.set_nx now key token ttl v).1)

  unfoldable pub acquire : ℕ → String → LockState V → Reply (Option String) × LockState V
  acquire ttl key s = (
    (set_token ttl key (s.tokens s.drawn) s.now s.valkey).0,
    record s {
      valkey = (set_token ttl key (s.tokens s.drawn) s.now s.valkey).1;
      drawn = suc s.drawn;
    },
  )

  abbrev pub without_outcome : Reply Outcome → Reply (Unit {0})
  without_outcome (ok o) = ok tt
  without_outcome (err e) = err e

  unfoldable pub release : String → String → LockState V → Reply (Unit {0}) × LockState V
  release key token s = (
    without_outcome (api.run (release_script s.now key token) s.valkey).0,
    record s { valkey = (api.run (release_script s.now key token) s.valkey).1 },
  )

  -- `ValKeyLocker`, as the handlers take it.
  unfoldable pub valkey_locker : ℕ → Locker (LockState V)
  valkey_locker ttl = record {
    acquire_space = λ id. acquire ttl ("lock:space:" <> id);
    release_space = λ id. release ("lock:space:" <> id);
    acquire_merchant = λ id. acquire ttl ("lock:merchant:" <> id);
    release_merchant = λ id. release ("lock:merchant:" <> id);
  }
