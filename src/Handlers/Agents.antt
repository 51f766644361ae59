-- ===== src/Handlers/Agents.antt =====
-- internal/api/handlers/agents.go: AddAgent and RemoveAgent.
pub mod Connect
use discord_support_hub.Prelude.{
  ℕ, String, Bool, true, false, not, ◌<>◌, Option, none, some, List, [], ◌∷◌, if◌then◌else◌,
}
use discord_support_hub.Domain.{User, UserType, is_agent, Fields}
use discord_support_hub.Store.Db.{Reply, ok, err, conflict}
use discord_support_hub.Effects.{Env, M, ◌>>=◌, ◌>>◌, return, try, query, call}
use discord_support_hub.Store.Spaces.{get_user_by_id}
use discord_support_hub.Store.Users.{CreateUserParams, create_user, deactivate_user, list_agents}
use discord_support_hub.Worker.Relay.{
  TaskQueue, Enqueued, accepted, task_id_conflict, duplicate_task, refused,
}
use discord_support_hub.Api.Auth.{Principal}
use discord_support_hub.Handlers.Common.{
  Response, problem, if_control_plane, if_given, on_loaded, Ids, enqueue,
}
use discord_support_hub.Handlers.Invite.{safe_name}

-- A body that binds has an e-mail address.
pub record AgentBody : Type 0 where
  pub email : String
  pub display_name : Option String
  pub discord_user_id : Option String
  pub is_admin : Bool

pub record AgentRequest : Type 0 where
  pub principal : Option Principal
  pub body : Option AgentBody
  pub ids : Ids

abbrev pub agent_params : AgentBody → CreateUserParams
agent_params b = record {
  kind = UserType.agent;
  is_admin = b.is_admin;
  discord_user_id = b.discord_user_id;
  email = some b.email;
  display_name = b.display_name;
}

abbrev pub bool_text : Bool → String
bool_text true = "true"
bool_text false = "false"

abbrev pub role_payload : String → Bool → Fields
role_payload user add = ("user_id", user) ∷ ("add", bool_text add) ∷ []

-- The task id of a role task that was accepted; the warning of the others is a log.
abbrev pub task_of : Enqueued → String → String
task_of accepted id = id
task_of task_id_conflict id = ""
task_of duplicate_task id = ""
task_of refused id = ""

module _ {Q L : Type 0} (is_format : ℕ → Bool) (api : TaskQueue Q) where
  -- `status` and the id; the connect URL holds the id as its state.
  abbrev pub on_agent_created : Reply User → M (Env Q L) Response
  on_agent_created (err conflict) = problem 409 "conflict"
  on_agent_created (err e) = problem 500 "internal_error"
  on_agent_created (ok u) = do
    enqueue api "membership:project_agent_role" "membership" (role_payload u.id true)
        ("project_agent_role:" <> u.id <> ":add")
    return (201, ("id", u.id) ∷ ("connect_state", u.id) ∷ [])

  abbrev pub on_agent_body : AgentRequest → Option AgentBody → M (Env Q L) Response
  on_agent_body r none = problem 400 "validation_error"
  on_agent_body r (some b) =
      if safe_name is_format b.display_name
      then (do made ← try (query (create_user r.ids.user (agent_params b))); on_agent_created made)
      else problem 400 "validation_error"

  unfoldable pub add_agent : AgentRequest → M (Env Q L) Response
  add_agent r = if_control_plane r.principal (on_agent_body r r.body)

module _ {Q L : Type 0} (api : TaskQueue Q) where
  abbrev pub remove_role : String → M (Env Q L) Response
  remove_role user = do
    task ← call (λ q. (
      ok (
          task_of
            (api.enqueue "membership:project_agent_role" "membership" (role_payload user false)
              ("project_agent_role:" <> user <> ":remove") q).0
            ("project_agent_role:" <> user <> ":remove")),
      (api.enqueue "membership:project_agent_role" "membership" (role_payload user false)
          ("project_agent_role:" <> user <> ":remove") q).1,
    ))
    return
        (202, ("id", task) ∷ ("kind", "membership:project_agent_role") ∷ ("status", "pending") ∷ [])

  abbrev pub on_deactivated : String → Reply User → M (Env Q L) Response
  on_deactivated user (err e) = problem 500 "internal_error"
  on_deactivated user (ok u) = remove_role user

  abbrev pub remove_if_agent : String → User → M (Env Q L) Response
  remove_if_agent user u =
      if is_agent u.kind
      then (do gone ← try (query (deactivate_user user)); on_deactivated user gone)
      else problem 404 "not_found"

  abbrev pub remove_user : String → M (Env Q L) Response
  remove_user user = do
    found ← try (query (get_user_by_id user))
    on_loaded found (remove_if_agent user)

  unfoldable pub remove_agent : Option Principal → String → M (Env Q L) Response
  remove_agent p user = if_control_plane p (if_given user (remove_user user))
