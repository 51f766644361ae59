-- ===== src/Oauth/Nonces.antt =====
-- internal/oauth/nonce_store.go: the interface of the nonce stores, and the store in memory.
use discord_support_hub.Prelude.{
  ℕ, ◌+◌, ◌<◌, ◌≤◌, String, ◌==◌, ◌<>◌, Option, none, some, List, [], ◌∷◌, ◌≡◌, ltb, if◌then◌else◌,
  refl, arith, ◌∙◌, lookup, insert, lookup-insert, eq_refl,
}
use discord_support_hub.Store.Db.{Reply, ok}
use discord_support_hub.Valkey.{Valkey, IsValkey}

-- `bound` is the user that a nonce stands for at a time; the other fields are the calls.
pub record NonceStore (N : Type 0) : Type 0 where
  pub bound : ℕ → String → N → Option String
  pub set_nonce : ℕ → String → String → ℕ → N → Reply (Unit {0}) × N
  pub consume_nonce : ℕ → String → N → Reply (Option String) × N

-- What a state manager relies on: a nonce that was set stands for its user until its time is over,
-- and one that was consumed stands for none.
pub record IsNonceStore {N : Type 0} (api : NonceStore N) : Type 0 where
  pub sets :
      (now : ℕ) (n u : String) (ttl t : ℕ) (s : N)
      → (api.set_nonce now n u ttl s).0 ≡ ok tt
      → now ≤ t
      → t < now + ttl
      → api.bound t n (api.set_nonce now n u ttl s).1 ≡ some u
  pub finds :
      (now : ℕ) (n : String) (o : Option String) (s : N)
      → (api.consume_nonce now n s).0 ≡ ok o
      → api.bound now n s ≡ o
  pub consumes :
      (now t : ℕ) (n u : String) (s : N)
      → (api.consume_nonce now n s).0 ≡ ok (some u)
      → api.bound t n (api.consume_nonce now n s).1 ≡ none

pub record NonceEntry : Type 0 where
  pub user_id : String
  pub expires_at : ℕ

abbrev pub MemNonces : Type 0
MemNonces = List (String × NonceEntry)

unfoldable pub delete : String → MemNonces → MemNonces
delete n [] = []
delete n ((k, e) ∷ rest) = let later = delete n rest in if k == n then later else (k, e) ∷ later

-- `time.Now().After(e.expiresAt)` is false.
abbrev pub live_user : ℕ → Option NonceEntry → Option String
live_user now none = none
live_user now (some e) = if ltb e.expires_at now then none else some e.user_id

unfoldable pub mem_set_nonce : ℕ → String → String → ℕ → MemNonces → Reply (Unit {0}) × MemNonces
mem_set_nonce now n u ttl s = (ok tt, insert n (record { user_id = u; expires_at = now + ttl }) s)

-- The entry is deleted in both cases.
unfoldable pub mem_consume_nonce : ℕ → String → MemNonces → Reply (Option String) × MemNonces
mem_consume_nonce now n s = (ok (live_user now (lookup n s)), delete n s)

unfoldable pub mem_nonce_store : NonceStore MemNonces
mem_nonce_store = record {
  bound = λ t n s. live_user t (lookup n s);
  set_nonce = mem_set_nonce;
  consume_nonce = mem_consume_nonce;
}

lookup-delete : (n : String) (s : MemNonces) → lookup n (delete n s) ≡ none
unfolding lookup delete
lookup-delete n [] = refl
lookup-delete n ((k, e) ∷ rest) = ground (arith, lookup-delete n rest)

-- The store in memory keeps what a state manager relies on.
pub mem_nonce_store-IsNonceStore : IsNonceStore mem_nonce_store
unfolding mem_nonce_store mem_set_nonce mem_consume_nonce
mem_nonce_store-IsNonceStore = record {
  sets = λ now n u ttl t s h after early.
      rw (lookup-insert n n (record { user_id = u; expires_at = now + ttl }) s)
        (ground (arith, early, eq_refl n));
  finds = λ now n o s h. ground (arith, h);
  consumes = λ now t n u s h. rw (lookup-delete n s) refl;
}

module _ {V : Type 0} (api : Valkey V) where
  abbrev pub nonce_key : String → String
  nonce_key n = "oauth:nonce:" <> n

  -- The script reads the key and deletes it, in one.
  unfoldable pub getdel_script : ℕ → String → V → Option String × V
  getdel_script now key v = elim (api.get now key v) [
    | none ↦ (none, v)
    | some u ↦ (some u, api.del key v)
  ]

  unfoldable pub valkey_set_nonce : ℕ → String → String → ℕ → V → Reply (Unit {0}) × V
  valkey_set_nonce now n u ttl v = api.set now (nonce_key n) u ttl v

  unfoldable pub valkey_consume_nonce : ℕ → String → V → Reply (Option String) × V
  valkey_consume_nonce now n v = api.run (getdel_script now (nonce_key n)) v

  unfoldable pub valkey_nonce_store : NonceStore V
  valkey_nonce_store = record {
    bound = λ t n v. api.get t (nonce_key n) v;
    set_nonce = valkey_set_nonce;
    consume_nonce = valkey_consume_nonce;
  }

  module _ (laws : IsValkey api) where
    consumed_clean :
        (now : ℕ) (n u : String) (v : V)
        → (valkey_consume_nonce now n v).0 ≡ ok (some u)
        → (valkey_consume_nonce now n v).1 ≡ api.del (nonce_key n) v
    unfolding valkey_consume_nonce getdel_script
    consumed_clean now n u v h = ground (arith, h, laws.ran (getdel_script now (nonce_key n)) v)

    found_clean :
        (now : ℕ) (n : String) (o : Option String) (v : V)
        → (valkey_consume_nonce now n v).0 ≡ ok o
        → api.get now (nonce_key n) v ≡ o
    unfolding valkey_consume_nonce getdel_script
    found_clean now n o v h = ground (arith, h, laws.ran (getdel_script now (nonce_key n)) v)

    -- Over a Valkey that meets its laws, the store in Valkey keeps what a state manager relies on.
    pub valkey_nonce_store-IsNonceStore : IsNonceStore valkey_nonce_store
    unfolding valkey_nonce_store valkey_set_nonce
    valkey_nonce_store-IsNonceStore = record {
      sets = λ now n u ttl t s h after early.
          laws.set_ok now (nonce_key n) u ttl s h t (nonce_key n) after
          ∙ ground (arith, early, eq_refl (nonce_key n));
      finds = λ now n o s h. found_clean now n o s h;
      consumes = λ now t n u s h. rw (consumed_clean now n u s h) (
          rw (laws.deleted (nonce_key n) s t (nonce_key n))
            (ground (arith, eq_refl (nonce_key n))));
    }
