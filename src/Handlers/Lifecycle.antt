-- ===== src/Handlers/Lifecycle.antt =====
-- internal/api/handlers/spaces.go: ChangeSpaceLifecycle.
pub mod Allowed
use discord_support_hub.Prelude.{
  String, Bool, true, false, not, ◌==◌, ◌<>◌, Option, none, some, List, [], ◌∷◌, if◌then◌else◌,
}
use discord_support_hub.Domain.{
  Space, SpaceLifecycleState, active, resolved, archived, same_lifecycle, state_text, Fields,
}
use discord_support_hub.Store.Db.{Reply}
use discord_support_hub.Effects.{Env, M, ◌>>=◌, ◌>>◌, return, try, ignore, query}
use discord_support_hub.Store.Spaces.{get_space_by_id}
use discord_support_hub.Store.Members.{insert_audit_entry}
use discord_support_hub.Worker.Relay.{TaskQueue}
use discord_support_hub.Api.Auth.{Principal}
use discord_support_hub.Api.Idempotency.{store_idempotency_response}
use discord_support_hub.Handlers.Common.{
  Response, problem, if_control_plane, if_given, on_loaded, key_or, Ids, create_job_or, enqueue,
}

-- The keys of the map are the states from which a space may go to the second state.
unfoldable pub lifecycle_transitions : SpaceLifecycleState → SpaceLifecycleState → Bool
lifecycle_transitions active resolved = true
lifecycle_transitions active archived = true
lifecycle_transitions resolved active = true
lifecycle_transitions resolved archived = true
lifecycle_transitions archived active = true
lifecycle_transitions _ _ = false

unfoldable pub action_to_lifecycle_state : String → Option SpaceLifecycleState
action_to_lifecycle_state a =
    if a == "open"
    then some active
    else if a == "resolve"
    then some resolved
    else if a == "archive"
    then some archived
    else if a == "reopen"
    then some active
    else none

-- `action` is none where the body does not bind.
pub record LifecycleRequest : Type 0 where
  pub principal : Option Principal
  pub space_id : String
  pub action : Option String
  pub idempotency_key : String
  pub ids : Ids

abbrev pub lifecycle_key : LifecycleRequest → String → String
lifecycle_key r a = key_or r.idempotency_key ("lifecycle:" <> r.space_id <> ":" <> a)

abbrev pub lifecycle_body : String → String → Fields
lifecycle_body job space =
    ("id", job)
    ∷ ("kind", "space:change_lifecycle")
    ∷ ("status", "pending")
    ∷ ("space_id", space)
    ∷ []

module _ {Q L : Type 0} (api : TaskQueue Q) where
  abbrev pub accept_lifecycle :
      LifecycleRequest → String → SpaceLifecycleState → Space → M (Env Q L) Response
  accept_lifecycle r a target sp = do
    job ← create_job_or r.ids (record {
      task_id = lifecycle_key r a;
      kind = "space:change_lifecycle";
      queue = "provision";
      merchant_id = none;
      space_id = some r.space_id;
      user_id = none;
      payload = ("space_id", r.space_id) ∷ ("action", a) ∷ [];
    })
    enqueue api "space:change_lifecycle" "provision" (("space_id", r.space_id) ∷ ("action", a) ∷ [])
        (lifecycle_key r a)
    ignore (
        query (
          insert_audit_entry (record {
            actor_api_key = none;
            actor_user_id = none;
            action = "space.lifecycle." <> a;
            merchant_id = none;
            space_id = some r.space_id;
            target_user_id = none;
            scope = none;
            detail =
                ("from", state_text sp.lifecycle_state)
                ∷ ("to", state_text target)
                ∷ ("action", a)
                ∷ [];
          })))
    store_idempotency_response (lifecycle_key r a) 202 (some (lifecycle_body job r.space_id))
        (some job)
    return (202, lifecycle_body job r.space_id)

  abbrev pub check_transition :
      LifecycleRequest → String → SpaceLifecycleState → Space → M (Env Q L) Response
  check_transition r a target sp =
      if not (lifecycle_transitions sp.lifecycle_state target)
      then problem 409 "invalid_transition"
      else if same_lifecycle sp.lifecycle_state target
      then problem 409 "already_in_state"
      else accept_lifecycle r a target sp

  abbrev pub on_target :
      LifecycleRequest → String → Option SpaceLifecycleState → M (Env Q L) Response
  on_target r a none = problem 400 "validation_error"
  on_target r a (some target) = do
    found ← try (query (get_space_by_id r.space_id))
    on_loaded found (check_transition r a target)

  abbrev pub on_action : LifecycleRequest → Option String → M (Env Q L) Response
  on_action r none = problem 400 "validation_error"
  on_action r (some a) = on_target r a (action_to_lifecycle_state a)

  unfoldable pub change_space_lifecycle : LifecycleRequest → M (Env Q L) Response
  change_space_lifecycle r =
      if_control_plane r.principal (if_given r.space_id (on_action r r.action))
