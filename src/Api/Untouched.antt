-- ===== src/Api/Untouched.antt =====
-- What the two middlewares leave alone: all but the API keys and the idempotency keys.
use discord_support_hub.Prelude.{
  ℕ, String, ◌==◌, Option, none, some, ◌≡◌, refl, ap, ◌∙◌, arith, inl, inr, Bool-cases,
}
use discord_support_hub.Domain.{ApiKey, IdempotencyKey}
use discord_support_hub.Store.Db.{Db, Reply, ok, err, not_found, Statement}
use discord_support_hub.Store.ApiKeys.{lookup_active_api_key_by_hash, touch_api_key_last_used}
use discord_support_hub.Store.Tokens.{get_idempotency_key, insert_idempotency_key}
use discord_support_hub.Effects.{Env, query, run_statement, Fault, clean, lost, late, next_fault}
use discord_support_hub.Api.Bearer.{extract_bearer}
use discord_support_hub.Api.Auth.{auth, on_bearer, on_lookup}
use discord_support_hub.Api.Idempotency.{
  Request, idempotency, with_body, on_existing, register, hash_request,
}

abbrev pub IsSame : Db → Db → Type 0
IsSame before after =
    after ≡ record before { api_keys = after.api_keys; idempotency_keys = after.idempotency_keys }

-- The tables other than those of the two kinds of keys, and all else, are as before.
abbrev pub Untouched : {D L : Type 0} → Env D L → Env D L → Type 0
Untouched before after =
    (after.discord ≡ before.discord) × (after.locks ≡ before.locks) × IsSame before.db after.db

module _ {D L : Type 0} where
  run-Untouched :
      {A : Type 0} (st : Statement A) (f : Fault) (e : Env D L)
      → ((n : ℕ) (db : Db) → IsSame db (st n db).1)
      → Untouched e (run_statement st f e).1
  run-Untouched st clean e keeps = (refl, refl, keeps e.now e.db)
  run-Untouched st lost e keeps = (refl, refl, refl)
  run-Untouched st late e keeps = (refl, refl, keeps e.now e.db)

  query-Untouched :
      {A : Type 0} (st : Statement A) (e : Env D L)
      → ((n : ℕ) (db : Db) → IsSame db (st n db).1)
      → Untouched e (query st e).1
  unfolding query
  query-Untouched st e keeps = run-Untouched st (next_fault e.faults) _ keeps

  pub then-Untouched :
      (e mid after : Env D L) → Untouched e mid → Untouched mid after → Untouched e after
  then-Untouched e mid after (d, l, t) (d2, l2, t2) = (
    d2 ∙ d,
    l2 ∙ l,
    t2
        ∙ ap
            (λ (x : Db). record x {
              api_keys = after.db.api_keys;
              idempotency_keys = after.db.idempotency_keys;
            })
            t,
  )

  module _ (hash : String → String) where
    lookup-Untouched : (found : Reply ApiKey) (e : Env D L) → Untouched e (on_lookup hash found e).1
    unfolding touch_api_key_last_used
    lookup-Untouched (ok k) e = query-Untouched (touch_api_key_last_used k.id) e (λ n db. refl)
    lookup-Untouched (err not_found) e = (refl, refl, refl)
    lookup-Untouched (err x) e = (refl, refl, refl)

    bearer-Untouched : (o : Option String) (e : Env D L) → Untouched e (on_bearer hash o e).1
    unfolding lookup_active_api_key_by_hash
    bearer-Untouched none e = (refl, refl, refl)
    bearer-Untouched (some raw) e =
        let look = query (lookup_active_api_key_by_hash (hash raw)) e in
        then-Untouched e look.1 (on_lookup hash look.0 look.1).1
          (query-Untouched (lookup_active_api_key_by_hash (hash raw)) e (λ n db. refl))
          (lookup-Untouched look.0 look.1)

    pub auth-Untouched : (header : String) (e : Env D L) → Untouched e (auth hash header e).1
    unfolding auth
    auth-Untouched header e = bearer-Untouched (extract_bearer header) e

  module _ (digest : String → String) where
    register-Untouched :
        (key hash : String) (e : Env D L) → Untouched e (register digest key hash e).1
    unfolding insert_idempotency_key
    register-Untouched key hash e = query-Untouched _ e (λ n db. ground arith)

    existing-Untouched :
        (key hash : String) (found : Reply IdempotencyKey) (e : Env D L)
        → Untouched e (on_existing digest key hash found e).1
    existing-Untouched key hash (err not_found) e = register-Untouched key hash e
    existing-Untouched key hash (err x) e = (refl, refl, refl)
    existing-Untouched key hash (ok row) e = elim (Bool-cases (row.request_hash == hash)) [
      | inl same ↦ simp same (refl, refl, refl)
      | inr other ↦ simp other (refl, refl, refl)
    ]

    body-Untouched :
        (r : Request) (body : Option String) (e : Env D L)
        → Untouched e (with_body digest r body e).1
    unfolding get_idempotency_key
    body-Untouched r none e = (refl, refl, refl)
    body-Untouched r (some body) e =
        let look = query (get_idempotency_key r.idempotency_key) e in
        let request = hash_request digest r.method r.full_path body in
        then-Untouched e look.1 (on_existing digest r.idempotency_key request look.0 look.1).1
          (query-Untouched (get_idempotency_key r.idempotency_key) e (λ n db. refl))
          (existing-Untouched r.idempotency_key request look.0 look.1)

    pub idempotency-Untouched : (r : Request) (e : Env D L) → Untouched e (idempotency digest r e).1
    unfolding idempotency
    idempotency-Untouched r e = elim (Bool-cases (r.idempotency_key == "")) [
      | inl none_given ↦ simp none_given (refl, refl, refl)
      | inr given ↦ simp given (body-Untouched r r.body e)
    ]
