-- ===== src/Handlers/Common.antt =====
-- What the handlers share: responses, the control-plane guard, and the calls of the queue.
use discord_support_hub.Prelude.{String, Option, [], ◌∷◌, ◌==◌, ℕ, if◌then◌else◌}
use discord_support_hub.Domain.{Job, Fields}
use discord_support_hub.Store.Db.{Reply, ok, err, not_found}
use discord_support_hub.Effects.{Env, M, ◌>>=◌, return, try, query, call}
use discord_support_hub.Store.Jobs.{CreateJobParams, create_job}
use discord_support_hub.Worker.Relay.{TaskQueue}
use discord_support_hub.Api.Auth.{Principal, require_control_plane}

-- A status and the fields of the body, a nested object's fields among them. Texts for people and
-- times are left out.
abbrev pub Response : Type 0
Response = ℕ × Fields

abbrev pub problem : {S : Type 0} → ℕ → String → M S Response
problem status code = return (status, ("code", code) ∷ [])

abbrev pub if_control_plane : {S : Type 0} → Option Principal → M S Response → M S Response
if_control_plane p body = if require_control_plane p then body else problem 403 "forbidden"

abbrev pub if_given : {S : Type 0} → String → M S Response → M S Response
if_given param body = if param == "" then problem 400 "validation_error" else body

-- What a handler does with a row that it loads.
abbrev pub on_loaded : {S A : Type 0} → Reply A → (A → M S Response) → M S Response
on_loaded (err not_found) k = problem 404 "not_found"
on_loaded (err e) k = problem 500 "internal_error"
on_loaded (ok a) k = k a

-- The middleware's key, or one that the handler makes.
abbrev pub key_or : String → String → String
key_or key made = if key == "" then made else key

-- The job's row, or the id that stands for it where it could not be made.
abbrev pub job_id_or : Reply Job → String → String
job_id_or (ok j) id = j.id
job_id_or (err e) id = id

-- What the surroundings draw for a request: the ids of new rows, and the handler's own `uuid.New`.
pub record Ids : Type 0 where
  pub merchant : String
  pub space : String
  pub outbox : String
  pub user : String
  pub member : String
  pub job : String
  pub synthetic : String

module _ {Q L : Type 0} where
  abbrev pub create_job_or : Ids → CreateJobParams → M (Env Q L) String
  create_job_or ids p = do
    made ← try (query (create_job ids.job p))
    return (job_id_or made ids.synthetic)

module _ {Q L : Type 0} (api : TaskQueue Q) where
  -- The answer of the queue is dropped.
  abbrev pub enqueue : String → String → Fields → String → M (Env Q L) (Unit {0})
  enqueue kind name payload id = call (λ q. (ok tt, (api.enqueue kind name payload id q).1))
