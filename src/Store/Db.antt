-- ===== src/Store/Db.antt =====
-- The tables (migrations/0001_init.sql), the errors of the program, and statements: what one
-- statement of internal/store/postgres/postgres.go answers and what it leaves in the tables.
use discord_support_hub.Prelude.{
  ℕ, String, Bool, Option, none, some, List, find, ◌≡◌, refl, ◌⊎◌, inl, inr,
}
use discord_support_hub.Domain.{
  User, Space, SpaceMember, Job, OutboxRow, AuditEntry, Merchant, ApiKey, OauthToken,
  IdempotencyKey,
}

-- What `errors.Is` and `errors.As` tell apart; `fmt.Errorf` with %w keeps it, so a wrapped error
-- is the error that it wraps. `retry_later` stands for errors that have no sentinel.
pub data Error : Type 0 where
  not_found : Error
  conflict : Error
  database : Error
  rest_error : (status retry_after : ℕ) → Error
  rate_limit : (retry_after : ℕ) (bucket : String) → Error
  infrastructure : Error
  retry_later : Error
  skip_retry : Error → Error
  malformed : Error

pub data Reply {ℓ} (A : Type ℓ) : Type ℓ where
  ok : A → Reply A
  err : Error → Reply A

pub record Db : Type 0 where
  pub merchants : List Merchant
  pub users : List User
  pub spaces : List Space
  pub members : List SpaceMember
  pub jobs : List Job
  pub outbox : List OutboxRow
  pub audit : List AuditEntry
  pub api_keys : List ApiKey
  pub oauth_tokens : List OauthToken
  pub idempotency_keys : List IdempotencyKey

-- A statement at the time `now()`.
abbrev pub Statement : Type 0 → Type 0
Statement A = ℕ → Db → Reply A × Db

-- `pgx.ErrNoRows` is `store.ErrNotFound`.
abbrev pub scan : {A : Type 0} → Option A → Reply A
scan none = err not_found
scan (some r) = ok r

-- UPDATE … SET f WHERE p RETURNING …, on one table.
abbrev pub returning : {A : Type 0} → (A → Bool) → (A → A) → List A → Reply A
returning p f rows = elim (find p rows) [ none ↦ err not_found | some r ↦ ok (f r) ]

pub Reply-cases : {A : Type 0} (r : Reply A) → ((a : A) × (r ≡ ok a)) ⊎ ((e : Error) × (r ≡ err e))
Reply-cases (ok a) = inl (a, refl)
Reply-cases (err e) = inr (e, refl)
