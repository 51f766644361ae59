-- ===== src/Examples/Edge.antt =====
-- The requests, the tables, the locks and the retries at concrete inputs.
use discord_support_hub.Prelude.{
  ℕ, String, false, ◌==◌, none, some, [], ◌∷◌, ◌≡◌, ◌≢◌, ◌≤◌, ◌<◌, refl, arith, inr, find, concat,
  AllDistinct, split_first, if◌then◌else◌, ◌⊎◌,
}
use discord_support_hub.Domain.{ApiKey, IdempotencyKey, JobStatus}
use discord_support_hub.Store.Db.{Db, ok, rate_limit}
use discord_support_hub.Effects.{Env, calm, query}
use discord_support_hub.Store.Unique.{IsUnique}
use discord_support_hub.Api.Bearer.{
  trim_space, equal_fold, trim_left, trim_right, extract_bearer, extract_bearer-roundtrip,
}
use discord_support_hub.Api.Auth.{
  auth, admitted, service_principal, require_control_plane, require_admin, scope_backoffice,
}
use discord_support_hub.Api.Guarded.{auth-IsAuthentic, revoke_api_key-IsFinal}
use discord_support_hub.Store.ApiKeys.{
  lookup_active_api_key_by_hash, revoke_api_key, active_with_hash,
}
use discord_support_hub.Api.Idempotency.{
  Request, Gate, idempotency, store_idempotency_response, hash_request,
}
use discord_support_hub.Api.Replays.{idempotency-replays, idempotency-forgets}
use discord_support_hub.Worker.Retry.{
  retry_delay, extract_retry_after, retry_delay-exact, retry_delay-ordered, max_delay,
}
use discord_support_hub.Lock.{LockState, set_token, acquire, release}
use discord_support_hub.Lock.Exclusive.{Call, perform_all, acquire-IsExclusive, release-IsFenced}
use discord_support_hub.Examples.MemoryValkey.{Keys, memory_valkey, memory_valkey-IsValkey, no_keys}
use discord_support_hub.Examples.Hub.{hub_db}
use discord_support_hub.Store.Tokens.{
  get_idempotency_key, update_idempotency_key_response, insert_idempotency_key,
}

retry_delay-exact_example : retry_delay 3 (rate_limit 0 "r") ≡ 8000000000
unfolding extract_retry_after
retry_delay-exact_example = retry_delay-exact 3 (rate_limit 0 "r")

retry_delay-ordered_example :
    (0 < retry_delay 3 (rate_limit 0 "r"))
    × (retry_delay 3 (rate_limit 0 "r") ≤ retry_delay 12 (rate_limit 0 "r"))
    × (retry_delay 12 (rate_limit 0 "r") ≤ max_delay)
unfolding extract_retry_after
retry_delay-ordered_example = retry_delay-ordered 3 12 (rate_limit 0 "r") (omega arith)

-- The hash is the key itself.
abbrev pub key : ApiKey
key = record {
  id = "k1";
  name = "backoffice";
  key_hash = "secret";
  scope = "backoffice";
  created_at = 1;
  last_used_at = none;
  revoked_at = none;
}

abbrev pub edge_db : Db
edge_db = record (hub_db none) { api_keys = key ∷ [] }

abbrev edge : Env (Unit {0}) (Unit {0})
edge = record { db = edge_db; faults = []; now = 9; discord = tt; locks = tt }

extract_bearer-roundtrip_example : extract_bearer (concat "Bearer " "secret") ≡ some "secret"
unfolding trim_left trim_right
extract_bearer-roundtrip_example = extract_bearer-roundtrip "secret" refl refl refl

abbrev pub identity : String → String
identity s = s

abbrev pub header : String
header = "Bearer secret"

auth-IsAuthentic_example :
    (raw : String) × (k : ApiKey) × (extract_bearer header ≡ some raw)
    × (find (active_with_hash raw) (key ∷ []) ≡ some k)
    × ("k1" ≡ k.id)
    × (require_control_plane (some (service_principal key)) ≡ (k.scope == scope_backoffice))
    × (require_admin (some (service_principal key)) ≡ false)
unfolding auth extract_bearer trim_space trim_right trim_left split_first equal_fold query
    lookup_active_api_key_by_hash find
auth-IsAuthentic_example = auth-IsAuthentic identity header edge (service_principal key) refl

edge_db-IsUnique : IsUnique edge_db
unfolding AllDistinct find
edge_db-IsUnique = record {
  merchants = (refl, tt);
  users = (refl, tt);
  discords = (refl, tt);
  spaces = (refl, tt);
  owners = (refl, tt);
  channels = (refl, tt);
  members = (refl, tt);
  jobs = tt;
  outbox = tt;
  api_keys = (refl, tt);
  oauth_tokens = tt;
  idempotency_keys = tt;
}

revoke_api_key-IsFinal_example :
    (auth identity header (record edge { db = (revoke_api_key "k1" 10 edge_db).1 })).0
    ≢ ok (admitted (service_principal key))
unfolding extract_bearer trim_space split_first equal_fold find trim_left trim_right
revoke_api_key-IsFinal_example =
    revoke_api_key-IsFinal identity header "secret" edge key 10 (service_principal key)
      edge_db-IsUnique refl refl

abbrev request : String → Request
request b = record {
  method = "POST";
  full_path = "/v1/merchants";
  path = "/v1/merchants";
  idempotency_key = "i1";
  body = some b;
}

-- After the first request, and after its response.
handled : Env (Unit {0}) (Unit {0})
handled = (idempotency identity (request "a") (calm edge)).1

answered : Env (Unit {0}) (Unit {0})
answered =
    record (store_idempotency_response "i1" 202 (some (("id", "m9") ∷ [])) none (calm handled)).1 {
      now = 60;
    }

idempotency-replays_example :
    ((idempotency identity (request "a") (calm edge)).0 ≡ ok (Gate.pass "i1"))
    × ((idempotency identity (request "b") (calm answered)).0
        ≡ ok (
            if hash_request identity "POST" "/v1/merchants" "a"
              == hash_request identity "POST" "/v1/merchants" "b"
            then Gate.replay 202 (("id", "m9") ∷ [])
            else Gate.abort 409))
unfolding handled answered find
idempotency-replays_example =
    idempotency-replays identity (request "a") (request "b") "a" "b" edge handled answered 202
      (("id", "m9") ∷ []) none refl refl refl refl refl refl (omega arith) refl refl

abbrev old_row : IdempotencyKey
old_row = record {
  key = "i1";
  request_hash = "h";
  status = JobStatus.pending;
  response_code = none;
  response_body = none;
  job_id = none;
  created_at = 1;
  expires_at = 5;
}

abbrev old_edge : Env (Unit {0}) (Unit {0})
old_edge = record edge { db = record edge_db { idempotency_keys = old_row ∷ [] } }

old_answered : Env (Unit {0}) (Unit {0})
old_answered =
    (store_idempotency_response "i1" 202 (some []) none
      (calm (idempotency identity (request "a") (calm old_edge)).1)).1

idempotency-forgets_example :
    ((idempotency identity (request "a") (calm old_edge)).0 ≡ ok (Gate.pass "i1"))
    × ((idempotency identity (request "a") (calm old_answered)).0 ≡ ok (Gate.pass "i1"))
unfolding old_answered find idempotency query get_idempotency_key store_idempotency_response
    update_idempotency_key_response insert_idempotency_key
idempotency-forgets_example =
    idempotency-forgets identity (request "a") (request "a") "a" "a" old_edge
      (idempotency identity (request "a") (calm old_edge)).1 old_answered old_row 202 [] none refl
      refl refl refl refl refl refl (omega arith) refl refl

-- A worker that takes and gives back the lock of a space, at a time.
abbrev locks_at : ℕ → LockState Keys
locks_at now = record { valkey = no_keys; now = now; tokens = λ n. some "t1"; drawn = 0 }

acquire-IsExclusive_example :
    (acquire memory_valkey 30 "lock:space:s1"
      (record (perform_all memory_valkey 30
        ((5, Call.give_back "lock:space:s1" "t0") ∷ [])
        (acquire memory_valkey 30 "lock:space:s1" (locks_at 4)).1) { now = 33 })).0
    ≢ ok (some "t1")
unfolding acquire set_token memory_valkey
acquire-IsExclusive_example =
    acquire-IsExclusive memory_valkey memory_valkey-IsValkey 30 (locks_at 4) "lock:space:s1" "t1"
      "t1" ((5, Call.give_back "lock:space:s1" "t0") ∷ []) 33 refl ((omega arith, inr refl), tt)
      (omega arith) (omega arith)

-- The lock is held under its token.
held_lock : LockState Keys
held_lock = (acquire memory_valkey 30 "k" (locks_at 4)).1

release-IsFenced_example :
    (memory_valkey.get 6 "k" (release memory_valkey "k" "t1" held_lock).1.valkey
      ≡ memory_valkey.get 6 "k" held_lock.valkey)
    ⊎ ((◌≡◌ {A = String} "k" "k")
        × (memory_valkey.get held_lock.now "k" held_lock.valkey ≡ some "t1")
        × (memory_valkey.get 6 "k" (release memory_valkey "k" "t1" held_lock).1.valkey ≡ none))
release-IsFenced_example =
    release-IsFenced memory_valkey memory_valkey-IsValkey held_lock "k" "t1" "k" 6
