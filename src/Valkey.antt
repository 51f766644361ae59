-- ===== src/Valkey.antt =====
-- The interface of Valkey, which is no code of the repository: the locks and the nonces stand on it.
use discord_support_hub.Prelude.{
  ℕ, ◌+◌, ◌≤◌, String, Bool, true, false, ◌==◌, Option, none, some, ◌≡◌, ◌≢◌, ◌⊎◌, ltb,
  if◌then◌else◌,
}
use discord_support_hub.Store.Db.{Reply, ok, err, infrastructure}

-- Valkey over some state: `get` is what a key holds at a time. `set_nx` is SET key value NX PX ttl,
-- `set` is SET key value PX ttl, and `run` is EVAL of a script, whose commands are `get` and `del`.
pub record Valkey (V : Type 0) : Type 1 where
  pub get : ℕ → String → V → Option String
  pub set_nx : ℕ → String → String → ℕ → V → Reply Bool × V
  pub set : ℕ → String → String → ℕ → V → Reply (Unit {0}) × V
  pub del : String → V → V
  pub run : {A : Type 0} → (V → A × V) → V → Reply A × V

-- What a key holds after it was written.
abbrev pub written : String → String → ℕ → ℕ → String → Option String → Option String
written key val expires t k before =
    if k == key then (if ltb t expires then some val else none) else before

abbrev pub cleared : String → String → Option String → Option String
cleared key k before = if k == key then none else before

-- The documented behaviour of Valkey: a key expires at its time and at no other, NX writes only a
-- key that holds nothing, and a script runs whole or not at all, also where its answer is lost.
pub record IsValkey {V : Type 0} (api : Valkey V) : Type 1 where
  pub expired : (s t : ℕ) (k : String) (v : V) → s ≤ t → api.get s k v ≡ none → api.get t k v ≡ none
  pub held :
      (s t : ℕ) (k x : String) (v : V) → s ≤ t → api.get t k v ≡ some x → api.get s k v ≡ some x
  pub set_free :
      (now : ℕ) (key val : String) (ttl : ℕ) (v : V)
      → (api.set_nx now key val ttl v).0 ≡ ok true
      → (api.get now key v ≡ none)
        × ((t : ℕ) (k : String)
            → now ≤ t
            → api.get t k (api.set_nx now key val ttl v).1
              ≡ written key val (now + ttl) t k (api.get t k v))
  pub set_held :
      (now : ℕ) (key val : String) (ttl : ℕ) (v : V) (x : String)
      → api.get now key v ≡ some x
      → ((api.set_nx now key val ttl v).0 ≢ ok true)
        × ((t : ℕ) (k : String) → api.get t k (api.set_nx now key val ttl v).1 ≡ api.get t k v)
  pub set_other :
      (now : ℕ) (key val : String) (ttl : ℕ) (v : V) (t : ℕ) (k : String)
      → (k == key) ≡ false
      → api.get t k (api.set_nx now key val ttl v).1 ≡ api.get t k v
  pub set_ok :
      (now : ℕ) (key val : String) (ttl : ℕ) (v : V)
      → (api.set now key val ttl v).0 ≡ ok tt
      → (t : ℕ) (k : String) → now ≤ t
      → api.get t k (api.set now key val ttl v).1 ≡ written key val (now + ttl) t k (api.get t k v)
  pub deleted :
      (key : String) (v : V) (t : ℕ) (k : String)
      → api.get t k (api.del key v) ≡ cleared key k (api.get t k v)
  pub ran :
      {A : Type 0} (f : V → A × V) (v : V)
      → (api.run f v ≡ (ok (f v).0, (f v).1))
        ⊎ (api.run f v ≡ (err infrastructure, (f v).1))
        ⊎ (api.run f v ≡ (err infrastructure, v))
