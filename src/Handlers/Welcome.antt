-- ===== src/Handlers/Welcome.antt =====
-- internal/api/handlers/spaces.go: SyncWelcome.
use Prim.Native.String.{len}
use discord_support_hub.Prelude.{
  String, Bool, false, ◌<>◌, Option, none, some, [], ◌∷◌, ltb, if◌then◌else◌,
}
use discord_support_hub.Domain.{Space, Fields}
use discord_support_hub.Effects.{Env, M, ◌>>=◌, ◌>>◌, return, try, query}
use discord_support_hub.Store.Spaces.{get_space_by_id}
use discord_support_hub.Worker.Relay.{TaskQueue}
use discord_support_hub.Api.Auth.{Principal}
use discord_support_hub.Api.Idempotency.{store_idempotency_response}
use discord_support_hub.Handlers.Common.{
  Response, problem, if_control_plane, if_given, on_loaded, key_or, Ids, create_job_or, enqueue,
}
use discord_support_hub.Handlers.Provision.{or_empty}

-- `message` is what the bind leaves in the field, whether or not it succeeds.
pub record WelcomeRequest : Type 0 where
  pub principal : Option Principal
  pub space_id : String
  pub message : Option String
  pub idempotency_key : String
  pub ids : Ids

-- The limit is on the bytes.
abbrev pub too_long : Option String → Bool
too_long none = false
too_long (some m) = ltb 2000 (len m)

abbrev pub welcome_key : WelcomeRequest → String
welcome_key r = key_or r.idempotency_key ("welcome:sync:" <> r.space_id)

abbrev pub welcome_body : String → String → Fields
welcome_body job space =
    ("id", job) ∷ ("kind", "space:sync_welcome") ∷ ("status", "pending") ∷ ("space_id", space) ∷ []

module _ {Q L : Type 0} (api : TaskQueue Q) where
  abbrev pub accept_welcome : WelcomeRequest → Space → M (Env Q L) Response
  accept_welcome r sp = do
    job ← create_job_or r.ids (record {
      task_id = welcome_key r;
      kind = "space:sync_welcome";
      queue = "provision";
      merchant_id = none;
      space_id = some r.space_id;
      user_id = none;
      payload = ("space_id", r.space_id) ∷ ("message", or_empty r.message) ∷ [];
    })
    enqueue api "space:sync_welcome" "provision"
        (("space_id", r.space_id) ∷ ("message", or_empty r.message) ∷ []) (welcome_key r)
    store_idempotency_response (welcome_key r) 202 (some (welcome_body job r.space_id)) (some job)
    return (202, welcome_body job r.space_id)

  abbrev pub welcome_loaded : WelcomeRequest → M (Env Q L) Response
  welcome_loaded r = do
    found ← try (query (get_space_by_id r.space_id))
    on_loaded found (accept_welcome r)

  unfoldable pub sync_welcome : WelcomeRequest → M (Env Q L) Response
  sync_welcome r = if_control_plane r.principal (
      if_given r.space_id
        (if too_long r.message then problem 400 "validation_error" else welcome_loaded r))
