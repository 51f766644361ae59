-- ===== src/Ratelimit/Hashes.antt =====
-- Hashes of Valkey, which is no code of the repository: the rate limiter stands on them.
use discord_support_hub.Prelude.{
  ℕ, ◌+◌, zero, suc, String, ◌==◌, Option, none, some, List, [], ◌∷◌, ◌≡◌, ◌⊎◌, ltb, coalesce,
  if◌then◌else◌,
}
use discord_support_hub.Store.Db.{Reply, ok, err, infrastructure}

-- The fields of a hash that the limiter writes; `N` is the numbers of the script. A number that is
-- written is read back as the same.
pub record Bucket (N : Type 0) : Type 0 where
  pub tokens : N
  pub last_ms : ℕ
  pub capacity : Option ℕ

-- A hash and the time at which it expires, if it does.
pub record Cell (N : Type 0) : Type 0 where
  pub bucket : Bucket N
  pub expires : Option ℕ

abbrev pub unexpired : {N : Type 0} → ℕ → Cell N → Option ℕ → Option (Cell N)
unexpired t c none = some c
unexpired t c (some x) = if ltb t x then some c else none

-- What a key holds at a time.
abbrev pub live : {N : Type 0} → ℕ → Option (Cell N) → Option (Cell N)
live t none = none
live t (some c) = unexpired t c c.expires

abbrev pub capacity_of : {N : Type 0} → Option (Cell N) → Option ℕ
capacity_of none = none
capacity_of (some c) = c.bucket.capacity

abbrev pub expiry_of : {N : Type 0} → Option (Cell N) → Option ℕ
expiry_of none = none
expiry_of (some c) = c.expires

-- HSET of `tokens`, `last_ms` and perhaps `capacity` leaves the other fields and the expiry.
abbrev pub put : {N : Type 0} → N → ℕ → Option ℕ → Option (Cell N) → Option (Cell N)
put tokens last_ms capacity before = some (record {
  bucket = record {
    tokens = tokens;
    last_ms = last_ms;
    capacity = coalesce capacity (capacity_of before);
  };
  expires = expiry_of before;
})

-- PEXPIRE does nothing to a key that holds nothing.
abbrev pub expire_at : {N : Type 0} → ℕ → Option (Cell N) → Option (Cell N)
expire_at x none = none
expire_at x (some c) = some (record c { expires = some x })

-- `cell` is what a key was last given, and its expiry. `hset` and `pexpire` are commands at a
-- time, `run` is EVAL of a script, and `exec` sends a pipeline.
pub record HashStore (N V : Type 0) : Type 1 where
  pub cell : String → V → Option (Cell N)
  pub hset : ℕ → String → N → ℕ → Option ℕ → V → V
  pub pexpire : ℕ → String → ℕ → V → V
  pub run : {A : Type 0} → (V → A × V) → V → Reply A × V
  pub exec : List (V → V) → V → Reply (Unit {0}) × V

-- So many of the commands, in order.
abbrev pub apply_first : {V : Type 0} → ℕ → List (V → V) → V → V
apply_first zero cs v = v
apply_first (suc n) [] v = v
apply_first (suc n) (c ∷ cs) v = apply_first n cs (c v)

abbrev pub apply_all : {V : Type 0} → List (V → V) → V → V
apply_all [] v = v
apply_all (c ∷ cs) v = apply_all cs (c v)

-- The documented behaviour: a script runs whole or not at all, also where its answer is lost; a
-- pipeline that fails has run some of its commands.
pub record IsHashStore {N V : Type 0} (api : HashStore N V) : Type 1 where
  pub hset_cell :
      (now : ℕ) (key : String) (tokens : N) (last : ℕ) (capacity : Option ℕ) (v : V) (k : String)
      → api.cell k (api.hset now key tokens last capacity v)
        ≡ (if k == key then put tokens last capacity (live now (api.cell k v)) else api.cell k v)
  pub pexpire_cell :
      (now : ℕ) (key : String) (ttl : ℕ) (v : V) (k : String)
      → api.cell k (api.pexpire now key ttl v)
        ≡ (if k == key then expire_at (now + ttl) (live now (api.cell k v)) else api.cell k v)
  pub ran :
      {A : Type 0} (f : V → A × V) (v : V)
      → (api.run f v ≡ (ok (f v).0, (f v).1))
        ⊎ (api.run f v ≡ (err infrastructure, (f v).1))
        ⊎ (api.run f v ≡ (err infrastructure, v))
  pub executed :
      (cs : List (V → V)) (v : V)
      → (api.exec cs v ≡ (ok tt, apply_all cs v))
        ⊎ ((n : ℕ) × (api.exec cs v ≡ (err infrastructure, apply_first n cs v)))
