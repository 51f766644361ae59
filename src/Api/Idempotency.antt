-- ===== src/Api/Idempotency.antt =====
-- internal/api/middleware/idempotency.go: a request that repeats an Idempotency-Key. The digest is
-- SHA-256 of the texts one after the other, an argument here.
use discord_support_hub.Prelude.{ℕ, ◌+◌, String, ◌==◌, ◌<>◌, Option, none, some, leb, if◌then◌else◌}
use discord_support_hub.Domain.{IdempotencyKey, JobStatus, Fields}
use discord_support_hub.Store.Db.{Reply, ok, err, not_found, conflict}
use discord_support_hub.Store.Tokens.{
  get_idempotency_key, insert_idempotency_key, update_idempotency_key_response,
}
use discord_support_hub.Effects.{Env, M, ◌>>=◌, return, try, ignore, query}

-- `full_path` is the pattern of the route, `path` what the request asked for, and the body is none
-- where it cannot be read.
pub record Request : Type 0 where
  pub method : String
  pub full_path : String
  pub path : String
  pub idempotency_key : String
  pub body : Option String

-- The handler runs under a key, or not at all.
pub data Gate : Type 0 where
  pass : (key : String) → Gate
  abort : (status : ℕ) → Gate
  replay : (code : ℕ) (body : Fields) → Gate

-- 24 hours in the unit of the database's times, which is a second.
abbrev pub idempotency_ttl : ℕ
idempotency_ttl = 86400

unfoldable pub hash_request : (String → String) → String → String → String → String
hash_request digest method path body = digest (method <> path <> body)

abbrev pub stored_response : Option ℕ → Option Fields → String → Gate
stored_response (some code) (some body) key = replay code body
stored_response none body key = pass key
stored_response (some code) none key = pass key

abbrev pub on_insert : Reply IdempotencyKey → String → Gate
on_insert (ok row) key = pass key
on_insert (err conflict) key = pass key
on_insert (err e) key = abort 500

module _ {D L : Type 0} (digest : String → String) where
  abbrev pub register : String → String → M (Env D L) Gate
  register key hash e =
      (do
        done ← try (
            query (λ now.
              insert_idempotency_key
                (record {
                  key = key;
                  request_hash = hash;
                  job_id = none;
                  expires_at = now + idempotency_ttl;
                })
                now))
        return (on_insert done key))
        e

  abbrev pub on_existing : String → String → Reply IdempotencyKey → M (Env D L) Gate
  on_existing key hash (err not_found) = register key hash
  on_existing key hash (err e) = return (abort 500)
  on_existing key hash (ok row) =
      if row.request_hash == hash
      then return (stored_response row.response_code row.response_body key)
      else return (abort 409)

  abbrev pub with_body : Request → Option String → M (Env D L) Gate
  with_body r none = return (abort 400)
  with_body r (some body) = do
    existing ← try (query (get_idempotency_key r.idempotency_key))
    on_existing r.idempotency_key (hash_request digest r.method r.full_path body) existing

  unfoldable pub idempotency : Request → M (Env D L) Gate
  idempotency r = if r.idempotency_key == "" then return (pass "") else with_body r r.body

abbrev pub response_status : ℕ → JobStatus
response_status code = if leb 400 code then JobStatus.archived else JobStatus.pending

module _ {D L : Type 0} where
  unfoldable pub store_idempotency_response :
      String → ℕ → Option Fields → Option String → M (Env D L) (Unit {0})
  store_idempotency_response key code body job =
      if key == ""
      then return tt
      else ignore (
          query (
            update_idempotency_key_response (record {
              key = key;
              status = response_status code;
              response_code = code;
              response_body = body;
              job_id = job;
            })))
