-- ===== src/Handlers/Invite.antt =====
-- internal/api/handlers/collaborators.go: InviteCollaborator. The state manager's
-- nonces are the Valkey side here.
use discord_support_hub.Prelude.{
  ℕ, String, Bool, true, false, not, ◌==◌, ◌&&◌, ◌||◌, ◌<>◌, Option, none, some, [], ◌∷◌,
  if◌then◌else◌,
}
use discord_support_hub.Domain.{User, UserType, SpaceMember, Fields}
use discord_support_hub.Store.Db.{Reply, ok, err, not_found, conflict}
use discord_support_hub.Effects.{Env, M, ◌>>=◌, ◌>>◌, return, try, query, locking}
use discord_support_hub.Store.Spaces.{get_space_by_id, get_user_by_id, get_user_by_discord_id}
use discord_support_hub.Store.Users.{CreateUserParams, create_user, get_user_by_email}
use discord_support_hub.Store.Members.{CreateSpaceMemberParams, create_space_member}
use discord_support_hub.Store.Jobs.{CreateJobParams}
use discord_support_hub.Worker.Relay.{TaskQueue}
use discord_support_hub.Api.Auth.{Principal}
use discord_support_hub.Handlers.Common.{
  Response, problem, if_control_plane, if_given, on_loaded, key_or, Ids, create_job_or, enqueue,
}
use discord_support_hub.Handlers.Validation.{has_unsafe_rune, is_numeric_snowflake, is_email}

pub record InviteBody : Type 0 where
  pub user_id : String
  pub discord_user_id : String
  pub email : String
  pub display_name : Option String

-- `body` is none where it does not bind; `principal_user` is the principal's user id.
pub record InviteRequest : Type 0 where
  pub principal : Option Principal
  pub space_id : String
  pub body : Option InviteBody
  pub idempotency_key : String
  pub ids : Ids

abbrev pub empty_or : (String → Bool) → String → Bool
empty_or valid s = s == "" || valid s

abbrev pub safe_name : (ℕ → Bool) → Option String → Bool
safe_name is_format none = true
safe_name is_format (some s) = not (has_unsafe_rune is_format s)

abbrev pub validate_invite_inputs : (ℕ → Bool) → InviteBody → Bool
validate_invite_inputs is_format b =
    empty_or (is_email is_format) b.email
    && empty_or is_numeric_snowflake b.discord_user_id
    && safe_name is_format b.display_name

abbrev pub has_no_identifier : InviteBody → Bool
has_no_identifier b = b.user_id == "" && b.discord_user_id == "" && b.email == ""

abbrev pub nil_unless : String → Option String
nil_unless s = if s == "" then none else some s

abbrev pub user_of : Option Principal → String
user_of none = ""
user_of (some p) = p.user_id

-- The status of a failure, or the user.
pub data Resolved : Type 0 where
  failed : (status : ℕ) → Resolved
  resolved : User → Resolved

abbrev pub by_discord_params : InviteBody → CreateUserParams
by_discord_params b = record {
  kind = UserType.collaborator;
  is_admin = false;
  discord_user_id = some b.discord_user_id;
  email = nil_unless b.email;
  display_name = b.display_name;
}

abbrev pub by_email_params : InviteBody → CreateUserParams
by_email_params b = record {
  kind = UserType.collaborator;
  is_admin = false;
  discord_user_id = none;
  email = some b.email;
  display_name = b.display_name;
}

abbrev pub of_user_lookup : Reply User → Resolved
of_user_lookup (ok u) = resolved u
of_user_lookup (err not_found) = failed 404
of_user_lookup (err e) = failed 500

abbrev pub of_refetch : Reply User → Resolved
of_refetch (ok u) = resolved u
of_refetch (err e) = failed 500

module _ {Q L : Type 0} where
  abbrev pub resolve_by_user_id : String → M (Env Q L) Resolved
  resolve_by_user_id id = do found ← try (query (get_user_by_id id)); return (of_user_lookup found)

  -- A conflict is another request's row, which is fetched again.
  abbrev pub on_user_created : M (Env Q L) User → Reply User → M (Env Q L) Resolved
  on_user_created fetch (ok u) = return (resolved u)
  on_user_created fetch (err conflict) = do found ← try fetch; return (of_refetch found)
  on_user_created fetch (err e) = return (failed 500)

  abbrev pub on_user_found :
      Ids → M (Env Q L) User → CreateUserParams → Reply User → M (Env Q L) Resolved
  on_user_found ids fetch p (ok u) = return (resolved u)
  on_user_found ids fetch p (err not_found) = do
    made ← try (query (create_user ids.user p))
    on_user_created fetch made
  on_user_found ids fetch p (err e) = return (failed 500)

  abbrev pub resolve_or_create : Ids → M (Env Q L) User → CreateUserParams → M (Env Q L) Resolved
  resolve_or_create ids fetch p = do found ← try fetch; on_user_found ids fetch p found

  unfoldable pub resolve_or_create_collaborator : Ids → InviteBody → M (Env Q L) Resolved
  resolve_or_create_collaborator ids b =
      if not (b.user_id == "")
      then resolve_by_user_id b.user_id
      else if not (b.discord_user_id == "")
      then resolve_or_create ids (query (get_user_by_discord_id b.discord_user_id))
          (by_discord_params b)
      else resolve_or_create ids (query (get_user_by_email b.email)) (by_email_params b)

abbrev pub invite_payload : InviteRequest → User → Fields
invite_payload r u =
    ("space_id", r.space_id) ∷ ("user_id", u.id) ∷ ("invited_by", user_of r.principal) ∷ []

abbrev pub invite_key : InviteRequest → User → String
invite_key r u = key_or r.idempotency_key ("invite:" <> r.space_id <> ":" <> u.id)

abbrev pub invite_job : InviteRequest → User → CreateJobParams
invite_job r u = record {
  task_id = invite_key r u;
  kind = "membership:invite_collaborator";
  queue = "membership";
  merchant_id = none;
  space_id = some r.space_id;
  user_id = some u.id;
  payload = invite_payload r u;
}

abbrev pub member_params : InviteRequest → User → CreateSpaceMemberParams
member_params r u = record {
  space_id = r.space_id;
  user_id = u.id;
  invited_by = nil_unless (user_of r.principal);
}

-- The job's fields, and the URL's state where the user has to connect.
abbrev pub connect_fields : Option (Reply String) → Fields
connect_fields none = []
connect_fields (some (err e)) = []
connect_fields (some (ok state)) = ("connect_state", state) ∷ []

abbrev pub invite_response : InviteRequest → User → String → Option (Reply String) → Fields
invite_response r u job state =
    ("id", job)
    ∷ ("kind", "membership:invite_collaborator")
    ∷ ("status", "pending")
    ∷ ("space_id", r.space_id)
    ∷ ("user_id", u.id)
    ∷ ("retry_count", "0")
    ∷ connect_fields state

-- `issue_state` is the state manager's Issue.
module _ {Q L : Type 0} (is_format : ℕ → Bool) (api : TaskQueue Q)
    (issue_state : String → L → Reply String × L) where
  abbrev pub state_for : User → Option String → M (Env Q L) (Option (Reply String))
  state_for u (some d) = return none
  state_for u none = do state ← try (locking (issue_state u.id)); return (some state)

  abbrev pub accept_invite : InviteRequest → User → M (Env Q L) Response
  accept_invite r u = do
    state ← state_for u u.discord_user_id
    job ← create_job_or r.ids (invite_job r u)
    enqueue api "membership:invite_collaborator" "membership" (invite_payload r u) (invite_key r u)
    return (202, invite_response r u job state)

  -- A row that is there already, revoked or not, is no error.
  abbrev pub on_member : InviteRequest → User → Reply SpaceMember → M (Env Q L) Response
  on_member r u (ok m) = accept_invite r u
  on_member r u (err conflict) = accept_invite r u
  on_member r u (err e) = problem 500 "internal_error"

  abbrev pub on_resolved : InviteRequest → Resolved → M (Env Q L) Response
  on_resolved r (failed status) = problem status "not_found"
  on_resolved r (resolved u) = do
    made ← try (query (create_space_member r.ids.member (member_params r u)))
    on_member r u made

  abbrev pub invite_body : InviteRequest → InviteBody → M (Env Q L) Response
  invite_body r b = do
    found ← try (query (get_space_by_id r.space_id))
    on_loaded found (λ sp. do user ← resolve_or_create_collaborator r.ids b; on_resolved r user)

  abbrev pub on_invite_body : InviteRequest → Option InviteBody → M (Env Q L) Response
  on_invite_body r none = problem 400 "validation_error"
  on_invite_body r (some b) =
      if has_no_identifier b
      then problem 400 "validation_error"
      else if validate_invite_inputs is_format b
      then invite_body r b
      else problem 400 "validation_error"

  unfoldable pub invite_collaborator : InviteRequest → M (Env Q L) Response
  invite_collaborator r =
      if_control_plane r.principal (if_given r.space_id (on_invite_body r r.body))
