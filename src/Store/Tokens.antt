-- ===== src/Store/Tokens.antt =====
-- The statements on `oauth_tokens` and `idempotency_keys`.
use discord_support_hub.Prelude.{
  ℕ, String, Bool, true, ◌&&◌, Option, none, some, [], ◌∷◌, ◌++◌, ◌==◌, ltb, find, update_where,
  is_some, coalesce, if◌then◌else◌,
}
use discord_support_hub.Domain.{OauthToken, IdempotencyKey, JobStatus, Fields}
use discord_support_hub.Store.Db.{Db, ok, err, conflict, database, Statement, scan, returning}
use discord_support_hub.Store.Spaces.{user_by_id}
use discord_support_hub.Store.Jobs.{job_by_id}

pub record UpsertOauthTokenParams : Type 0 where
  pub user_id : String
  pub access_token_cipher : String
  pub access_token_nonce : String
  pub refresh_token_cipher : Option String
  pub refresh_token_nonce : Option String
  pub encryption_key_version : ℕ
  pub scopes : String
  pub expires_at : Option ℕ

abbrev pub new_token : String → UpsertOauthTokenParams → ℕ → OauthToken
new_token id p now = record {
  id = id;
  user_id = p.user_id;
  access_token_cipher = p.access_token_cipher;
  access_token_nonce = p.access_token_nonce;
  refresh_token_cipher = p.refresh_token_cipher;
  refresh_token_nonce = p.refresh_token_nonce;
  encryption_key_version = p.encryption_key_version;
  scopes = p.scopes;
  expires_at = p.expires_at;
  created_at = now;
  updated_at = now;
}

abbrev pub renew : UpsertOauthTokenParams → ℕ → OauthToken → OauthToken
renew p now t = record t {
  access_token_cipher = p.access_token_cipher;
  access_token_nonce = p.access_token_nonce;
  refresh_token_cipher = p.refresh_token_cipher;
  refresh_token_nonce = p.refresh_token_nonce;
  encryption_key_version = p.encryption_key_version;
  scopes = p.scopes;
  expires_at = p.expires_at;
  updated_at = now;
}

abbrev pub token_of : String → OauthToken → Bool
token_of u t = t.user_id == u

-- INSERT … ON CONFLICT (user_id) DO UPDATE; a row that is there has its user.
unfoldable pub upsert_oauth_token : String → UpsertOauthTokenParams → Statement OauthToken
upsert_oauth_token id p now db =
    if is_some (find (token_of p.user_id) db.oauth_tokens)
    then (
      returning (token_of p.user_id) (renew p now) db.oauth_tokens,
      record db { oauth_tokens = update_where (token_of p.user_id) (renew p now) db.oauth_tokens },
    )
    else if is_some (find (user_by_id p.user_id) db.users)
    then (
      ok (new_token id p now),
      record db { oauth_tokens = db.oauth_tokens ++ new_token id p now ∷ [] },
    )
    else (err database, db)

unfoldable pub get_oauth_token_by_user_id : String → Statement OauthToken
get_oauth_token_by_user_id u now db = (scan (find (token_of u) db.oauth_tokens), db)

pub record InsertIdempotencyKeyParams : Type 0 where
  pub key : String
  pub request_hash : String
  pub job_id : Option String
  pub expires_at : ℕ

abbrev pub new_idempotency_key : InsertIdempotencyKeyParams → ℕ → IdempotencyKey
new_idempotency_key p now = record {
  key = p.key;
  request_hash = p.request_hash;
  status = JobStatus.pending;
  response_code = none;
  response_body = none;
  job_id = p.job_id;
  created_at = now;
  expires_at = p.expires_at;
}

abbrev pub with_key : String → IdempotencyKey → Bool
with_key k r = r.key == k

abbrev pub job_known : Option String → Db → Bool
job_known none db = true
job_known (some j) db = is_some (find (job_by_id j) db.jobs)

-- The primary key of the table, which counts expired rows too.
abbrev pub key_taken : String → Db → Bool
key_taken k db = is_some (find (with_key k) db.idempotency_keys)

unfoldable pub insert_idempotency_key : InsertIdempotencyKeyParams → Statement IdempotencyKey
insert_idempotency_key p now db =
    if key_taken p.key db
    then (err conflict, db)
    else if job_known p.job_id db
    then (
      ok (new_idempotency_key p now),
      record db { idempotency_keys = db.idempotency_keys ++ new_idempotency_key p now ∷ [] },
    )
    else (err database, db)

unfoldable pub get_idempotency_key : String → Statement IdempotencyKey
get_idempotency_key k now db =
    (scan (find (λ r. with_key k r && ltb now r.expires_at) db.idempotency_keys), db)

pub record UpdateIdempotencyKeyResponseParams : Type 0 where
  pub key : String
  pub status : JobStatus
  pub response_code : ℕ
  pub response_body : Option Fields
  pub job_id : Option String

abbrev pub record_response : UpdateIdempotencyKeyResponseParams → IdempotencyKey → IdempotencyKey
record_response p r = record r {
  status = p.status;
  response_code = some p.response_code;
  response_body = p.response_body;
  job_id = coalesce p.job_id r.job_id;
}

-- An UPDATE with no RETURNING: no row is no error, an unknown job is.
unfoldable pub update_idempotency_key_response :
    UpdateIdempotencyKeyResponseParams → Statement (Unit {0})
update_idempotency_key_response p now db =
    if key_taken p.key db
    then (if job_known p.job_id db
        then (
          ok tt,
          record db {
            idempotency_keys =
                update_where (with_key p.key) (record_response p) db.idempotency_keys;
          },
        )
        else (err database, db))
    else (ok tt, db)
