-- ===== src/Handlers/Expel.antt =====
-- internal/api/handlers/collaborators.go: ExpelCollaborator.
use discord_support_hub.Prelude.{
  String, ◌==◌, ◌||◌, ◌<>◌, Option, none, some, [], ◌∷◌, if◌then◌else◌,
}
use discord_support_hub.Domain.{Fields}
use discord_support_hub.Effects.{Env, M, ◌>>=◌, ◌>>◌, return, try, query}
use discord_support_hub.Store.Spaces.{get_space_by_id, get_user_by_id}
use discord_support_hub.Store.Jobs.{CreateJobParams}
use discord_support_hub.Worker.Relay.{TaskQueue}
use discord_support_hub.Api.Auth.{Principal}
use discord_support_hub.Handlers.Common.{
  Response, problem, if_control_plane, if_given, on_loaded, key_or, Ids, create_job_or, enqueue,
}

-- `scope` is what DefaultQuery gives.
pub record ExpelRequest : Type 0 where
  pub principal : Option Principal
  pub space_id : String
  pub user_id : String
  pub scope : String
  pub idempotency_key : String
  pub ids : Ids

abbrev pub expel_payload : ExpelRequest → Fields
expel_payload r = ("space_id", r.space_id) ∷ ("user_id", r.user_id) ∷ ("scope", r.scope) ∷ []

abbrev pub expel_key : ExpelRequest → String
expel_key r =
    key_or r.idempotency_key ("expel:" <> r.space_id <> ":" <> r.user_id <> ":" <> r.scope)

abbrev pub expel_job : ExpelRequest → CreateJobParams
expel_job r = record {
  task_id = expel_key r;
  kind = "membership:expel_collaborator";
  queue = "membership";
  merchant_id = none;
  space_id = some r.space_id;
  user_id = some r.user_id;
  payload = expel_payload r;
}

abbrev pub expel_response : ExpelRequest → String → Fields
expel_response r job =
    ("id", job)
    ∷ ("kind", "membership:expel_collaborator")
    ∷ ("status", "pending")
    ∷ ("space_id", r.space_id)
    ∷ ("user_id", r.user_id)
    ∷ ("retry_count", "0")
    ∷ []

module _ {Q L : Type 0} (api : TaskQueue Q) where
  abbrev pub accept_expel : ExpelRequest → M (Env Q L) Response
  accept_expel r = do
    job ← create_job_or r.ids (expel_job r)
    enqueue api "membership:expel_collaborator" "membership" (expel_payload r) (expel_key r)
    return (202, expel_response r job)

  abbrev pub expel_scoped : ExpelRequest → M (Env Q L) Response
  expel_scoped r = do
    space ← try (query (get_space_by_id r.space_id))
    on_loaded space (λ sp. do
      user ← try (query (get_user_by_id r.user_id))
      on_loaded user (λ u. accept_expel r))

  unfoldable pub expel_collaborator : ExpelRequest → M (Env Q L) Response
  expel_collaborator r = if_control_plane r.principal (
      if_given r.space_id (
        if_given r.user_id (
          if r.scope == "channel" || r.scope == "server"
          then expel_scoped r
          else problem 400 "validation_error")))
