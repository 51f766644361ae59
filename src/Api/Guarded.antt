-- ===== src/Api/Guarded.antt =====
-- A request that passes has an active key behind it, and none once the key is revoked.
use discord_support_hub.Prelude.{
  ℕ, String, true, false, ◌==◌, none, some, List, [], ◌∷◌, ◌≡◌, ◌≢◌, inl, inr, refl, arith, find,
  update_where, update_where-none, eq_iff, Option-cases, Bool-cases, AllDistinct, sym, ◌∙◌, ap,
}
use discord_support_hub.Domain.{ApiKey}
use discord_support_hub.Store.Db.{Db, Reply, ok, err}
use discord_support_hub.Store.ApiKeys.{
  active_with_hash, active_with_id, revoke, revoke_api_key, lookup_active_api_key_by_hash,
}
use discord_support_hub.Store.Unique.{IsUnique, same_hash}
use discord_support_hub.Effects.{Env, query}
use discord_support_hub.Api.Bearer.{extract_bearer}
use discord_support_hub.Api.Auth.{
  on_lookup, require_admin, admitted, auth, require_control_plane, Principal, service_principal,
  scope_backoffice,
}

module _ {D L : Type 0} (hash : String → String) where
  admitted_key :
      (r : Reply ApiKey) (e : Env D L) (p : Principal)
      → (on_lookup hash r e).0 ≡ ok (admitted p)
      → (k : ApiKey) × (r ≡ ok k) × (p ≡ service_principal k)
  unfolding query
  admitted_key (ok k) e p h = (k, refl, ground (arith, h))
  admitted_key (err x) e p h = absurd (ground (arith, h))

  looked_up :
      (h : String) (e : Env D L) (k : ApiKey)
      → (query (lookup_active_api_key_by_hash h) e).0 ≡ ok k
      → find (active_with_hash h) e.db.api_keys ≡ some k
  unfolding query lookup_active_api_key_by_hash
  looked_up h e k found = ground (arith, found)

  -- A request that is let in carries a key whose hash an unrevoked row has, and its principal has
  -- that row's id and scope. It has control-plane authority exactly where the row's scope is
  -- "backoffice", and is no administrator. Any database call may fail.
  pub auth-IsAuthentic :
      (header : String) (e : Env D L) (p : Principal)
      → (auth hash header e).0 ≡ ok (admitted p)
      → (raw : String) × (k : ApiKey) × (extract_bearer header ≡ some raw)
        × (find (active_with_hash (hash raw)) e.db.api_keys ≡ some k)
        × (p.key_id ≡ k.id)
        × (require_control_plane (some p) ≡ (k.scope == scope_backoffice))
        × (require_admin (some p) ≡ false)
  unfolding auth require_control_plane require_admin
  auth-IsAuthentic header e p h = elim (Option-cases (extract_bearer header)) [
    | inl nothing ↦ absurd (ground (arith, nothing, h))
    | inr (raw, given) ↦
        let look = query (lookup_active_api_key_by_hash (hash raw)) e in
        let found = admitted_key look.0 look.1 p (ground (arith, given, h)) in
        let (k, answer, same) = found in
        (
          raw,
          k,
          given,
          looked_up (hash raw) e k answer,
          ap (λ q. q.key_id) same,
          rw same (ground arith),
          rw same refl,
        )
  ]

module _ (now : ℕ) (h i : String) where
  none_left :
      (x : ApiKey) (xs : List ApiKey)
      → (x.key_hash == h) ≡ true
      → find (same_hash x) xs ≡ none
      → find (active_with_hash h) (update_where (active_with_id i) (revoke now) xs) ≡ none
  unfolding find update_where
  none_left x [] e free = refl
  none_left x (y ∷ xs) e free = ground (
    arith,
    none_left x xs e,
    eq_iff x.key_hash h,
    eq_iff x.key_hash y.key_hash,
    eq_iff y.key_hash h,
  )

  revoked_hides :
      (k : ApiKey) (xs : List ApiKey)
      → k.id ≡ i
      → AllDistinct same_hash xs
      → find (active_with_hash h) xs ≡ some k
      → find (active_with_hash h) (update_where (active_with_id i) (revoke now) xs) ≡ none
  unfolding find update_where AllDistinct
  revoked_hides k [] same distinct found = absurd (ground (arith, found))
  revoked_hides k (x ∷ xs) same (here, later) found = elim (Bool-cases (active_with_hash h x)) [
    | inl yes_here ↦ ground (arith, yes_here, none_left x xs, eq_iff x.id i)
    | inr elsewhere ↦ ground (arith, elsewhere, revoked_hides k xs same later)
  ]

revoke_updates :
    (i : String) (now : ℕ) (db : Db)
    → (revoke_api_key i now db).1.api_keys
      ≡ update_where (active_with_id i) (revoke now) db.api_keys
unfolding revoke_api_key
revoke_updates i now db =
    ground (arith, update_where-none (active_with_id i) (revoke now) db.api_keys)

-- In a database where no two keys share a hash: once the key that a header carries is revoked, the
-- header is no longer let in, at any later time and whatever database calls fail.
pub revoke_api_key-IsFinal :
    {D L : Type 0} (hash : String → String) (header raw : String) (e : Env D L) (k : ApiKey)
    (now : ℕ) (p : Principal)
    → IsUnique e.db
    → extract_bearer header ≡ some raw
    → find (active_with_hash (hash raw)) e.db.api_keys ≡ some k
    → (auth hash header (record e { db = (revoke_api_key k.id now e.db).1 })).0 ≢ ok (admitted p)
revoke_api_key-IsFinal hash header raw e k now p u given found let_in =
    let after = record e { db = (revoke_api_key k.id now e.db).1 } in
    let (other, key, carried, there, _, _, _) = auth-IsAuthentic hash header after p let_in in
    let same : some other ≡ some raw = sym carried ∙ given in
    let gone = revoked_hides now (hash raw) k.id k e.db.api_keys refl u.api_keys found in
    ground (arith, same, there, revoke_updates k.id now e.db, gone)
