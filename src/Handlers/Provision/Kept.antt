-- ===== src/Handlers/Provision/Kept.antt =====
-- What provisioning does after its transaction keeps what the transaction recorded.
use mathlib.Core.Option
use discord_support_hub.Prelude.{
  ℕ, String, ◌==◌, Option, none, some, ◌≡◌, refl, arith, ◌∙◌, ap, find, is_some, revise, is_none,
  ◌&&◌, find-update_where, inl, inr, Bool-cases,
}
use discord_support_hub.Domain.{OutboxRow, Fields}
use discord_support_hub.Store.Db.{Db, Reply, ok, err, Statement}
use discord_support_hub.Effects.{
  Env, M, query, locking, continue, clean, lost, late, next_fault, later_faults, run_statement,
}
use discord_support_hub.Store.Jobs.{CreateJobParams, create_job}
use discord_support_hub.Store.Outbox.{update_outbox_payload, has_outbox_key, set_payload}
use discord_support_hub.Store.Tokens.{
  update_idempotency_key_response, UpdateIdempotencyKeyResponseParams,
}
use discord_support_hub.Api.Idempotency.{store_idempotency_response, response_status}

-- Nothing that was recorded is lost.
abbrev pub Kept : Db → Db → Type 0
Kept before after =
    (after.spaces ≡ before.spaces)
    × ((k : String) → has_outbox_key k after ≡ has_outbox_key k before)

pub Kept-trans : (a b c : Db) → Kept a b → Kept b c → Kept a c
Kept-trans a b c (s, o) (s', o') = (s' ∙ s, λ k. o' k ∙ o k)

is_some-map : {A B : Type 0} (f : A → B) (o : Option A) → is_some (Option.map f o) ≡ is_some o
is_some-map f none = refl
is_some-map f (some a) = refl

pub payload-Kept :
    (k : String) (f : Fields) (now : ℕ) (db : Db) → Kept db (update_outbox_payload k f now db).1
unfolding update_outbox_payload
payload-Kept k f now db = (
  refl,
  λ j.
      let mine = (λ (o : OutboxRow). o.idempotency_key == k && is_none o.enqueued_at) in
      ap is_some
        (find-update_where (λ o. o.idempotency_key == j) mine (set_payload f) db.outbox (λ o. refl))
      ∙ is_some-map (revise mine (set_payload f)) (find (λ o. o.idempotency_key == j) db.outbox),
)

pub job-Kept :
    (id : String) (p : CreateJobParams) (now : ℕ) (db : Db) → Kept db (create_job id p now db).1
unfolding create_job
job-Kept id p now db = (ground arith, λ j. ground arith)

response_row-Kept :
    (p : UpdateIdempotencyKeyResponseParams) (now : ℕ) (db : Db)
    → Kept db (update_idempotency_key_response p now db).1
unfolding update_idempotency_key_response
response_row-Kept p now db = (ground arith, λ j. ground arith)

module _ {Q L : Type 0} where
  pub query-Kept :
      {A : Type 0} (st : Statement A)
      → ((now : ℕ) (db : Db) → Kept db (st now db).1)
      → (e : Env Q L) → Kept e.db (query st e).1.db
  unfolding query
  query-Kept st h e =
      elim (next_fault e.faults)
        as (λ x.
          Kept e.db (run_statement st x (record e { faults = later_faults e.faults })).1.db) [
            | clean ↦ h e.now e.db
            | lost ↦ (refl, λ k. refl)
            | late ↦ h e.now e.db
          ]

  pub continue-Kept :
      {A B : Type 0} (before : Db) (q : Reply A × Env Q L) (f : A → M (Env Q L) B)
      → Kept before q.1.db
      → ((a : A) (e : Env Q L) → Kept e.db (f a e).1.db)
      → Kept before (continue q f).1.db
  continue-Kept before (ok a, e) f first rest = Kept-trans before e.db (f a e).1.db first (rest a e)
  continue-Kept before (err x, e) f first rest = first

  pub locking-Kept : {A : Type 0} (f : L → Reply A × L) (e : Env Q L) → Kept e.db (locking f e).1.db
  unfolding locking
  locking-Kept f e = (refl, λ k. refl)

  pub response-Kept :
      (k : String) (code : ℕ) (b : Option Fields) (j : Option String) (e : Env Q L)
      → ((store_idempotency_response k code b j e).0 ≡ ok tt)
        × Kept e.db (store_idempotency_response k code b j e).1.db
  unfolding store_idempotency_response
  response-Kept k code b j e = elim (Bool-cases (k == "")) [
    | inl empty ↦ rw empty (refl, (refl, λ i. refl))
    | inr given ↦ rw given (
      refl,
      query-Kept
          (update_idempotency_key_response (record {
            key = k;
            status = response_status code;
            response_code = code;
            response_body = b;
            job_id = j;
          }))
          (response_row-Kept (record {
            key = k;
            status = response_status code;
            response_code = code;
            response_body = b;
            job_id = j;
          }))
          e,
    )
  ]
