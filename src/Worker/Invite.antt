-- ===== src/Worker/Invite.antt =====
-- internal/worker/invite_collaborator.go: `handle` of inviteCollaboratorHandler.
pub mod Grants
pub mod Converse
use discord_support_hub.Prelude.{
  String, Bool, true, false, ◌==◌, ◌||◌, not, ◌&&◌, Option, none, some, [], ◌∷◌, is_none,
  if◌then◌else◌,
}
use discord_support_hub.Domain.{Space, User, SpaceMember, is_applied}
use discord_support_hub.Store.Db.{
  Reply, ok, err, skip_retry, malformed, retry_later, not_found, Error,
}
use discord_support_hub.Store.Spaces.{get_space_by_id, get_user_by_id}
use discord_support_hub.Store.Members.{
  get_space_member_by_space_and_user, set_space_member_overwrite_applied, insert_audit_entry,
  InsertAuditEntryParams,
}
use discord_support_hub.Discord.{DiscordApi, set_collaborator_overwrite, add_guild_member}
use discord_support_hub.Effects.{
  Env, Locker, M, ◌>>=◌, ◌>>◌, return, fail, try, ignore, query, call,
}
use discord_support_hub.Worker.Locks.{with_space_lock}

pub record InviteCollaboratorPayload : Type 0 where
  pub space_id : String
  pub user_id : String
  pub invited_by : String

-- `tokens` is `LoadAccessToken` of the token store, where one is configured.
pub record InviteConfig : Type 0 where
  pub guild_id : String
  pub tokens : Option (String → Reply String)

abbrev pub nil_if_empty : String → Option String
nil_if_empty s = if s == "" then none else some s

-- An error of a lookup: a missing row is not retried.
abbrev pub skip_if_not_found : Error → Error
skip_if_not_found not_found = skip_retry not_found
skip_if_not_found e = e

-- `DiscordUserID == nil || *DiscordUserID == ""`.
abbrev pub connected : Option String → Option String
connected none = none
connected (some d) = if d == "" then none else some d

abbrev pub ready_channel : Space → Option String
ready_channel s = if is_applied s.acl_state then s.discord_channel_id else none

module _ {D L : Type 0} (api : DiscordApi D) (locker : Locker L) (cfg : InviteConfig) where
  pub join_with : String → Reply String → M (Env D L) (Unit {0})
  join_with d (ok token) =
      if token == "" then return tt else ignore (call (add_guild_member api cfg.guild_id d token))
  join_with d (err e) = return tt

  -- The guild is joined if a token is there; a failure is logged only.
  pub join_guild : String → String → Option (String → Reply String) → M (Env D L) (Unit {0})
  join_guild user d none = return tt
  join_guild user d (some tokens) = join_with d (tokens user)

  pub audit_invite : InviteCollaboratorPayload → String → String → InsertAuditEntryParams
  audit_invite p c d = record {
    actor_api_key = none;
    actor_user_id = nil_if_empty p.invited_by;
    action = "collaborator.invite";
    merchant_id = none;
    space_id = some p.space_id;
    target_user_id = some p.user_id;
    scope = none;
    detail = ("discord_user_id", d) ∷ ("channel_id", c) ∷ [];
  }

  unfoldable pub grant :
      InviteCollaboratorPayload → String → String → SpaceMember → M (Env D L) (Unit {0})
  grant p c d sm = do
    join_guild p.user_id d cfg.tokens
    call (set_collaborator_overwrite api c d)
    ignore (query (set_space_member_overwrite_applied sm.id))
    ignore (query (insert_audit_entry (audit_invite p c d)))

  unfoldable pub grant_if_connected :
      InviteCollaboratorPayload → String → User → SpaceMember → M (Env D L) (Unit {0})
  grant_if_connected p c user sm = elim (connected user.discord_user_id) [
    | none ↦ fail retry_later
    | some d ↦ grant p c d sm
  ]

  -- A member row that is gone ends the task, and so does one that is already projected.
  unfoldable pub project_member :
      InviteCollaboratorPayload → String → User → Reply SpaceMember → M (Env D L) (Unit {0})
  project_member p c user (ok sm) =
      if sm.overwrite_applied then return tt else grant_if_connected p c user sm
  project_member p c user (err not_found) = return tt
  project_member p c user (err e) = fail e

  unfoldable pub invite_user :
      InviteCollaboratorPayload → String → Reply User → M (Env D L) (Unit {0})
  invite_user p c (err e) = fail (skip_if_not_found e)
  invite_user p c (ok user) = do
    sm ← try (query (get_space_member_by_space_and_user p.space_id p.user_id))
    project_member p c user sm

  unfoldable pub invite_to : InviteCollaboratorPayload → Option String → M (Env D L) (Unit {0})
  invite_to p none = fail retry_later
  invite_to p (some c) = do user ← try (query (get_user_by_id p.user_id)); invite_user p c user

  unfoldable pub invite_space : InviteCollaboratorPayload → Reply Space → M (Env D L) (Unit {0})
  invite_space p (err e) = fail e
  invite_space p (ok sp) = invite_to p (ready_channel sp)

  unfoldable pub invite_locked : InviteCollaboratorPayload → M (Env D L) (Unit {0})
  invite_locked p = do sp ← try (query (get_space_by_id p.space_id)); invite_space p sp

  -- The task's payload as it is decoded: `none` where the JSON is malformed.
  unfoldable pub handle : Option InviteCollaboratorPayload → M (Env D L) (Unit {0})
  handle none = fail (skip_retry malformed)
  handle (some p) =
      if p.space_id == "" || p.user_id == ""
      then fail (skip_retry malformed)
      else with_space_lock locker p.space_id (invite_locked p)
