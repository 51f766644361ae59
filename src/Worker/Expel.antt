-- ===== src/Worker/Expel.antt =====
-- internal/worker/expel_collaborator.go: `handle` of expelCollaboratorHandler.
pub mod Revokes
use discord_support_hub.Prelude.{
  String, Bool, ◌==◌, ◌||◌, Option, none, some, [], ◌∷◌, is_none, if◌then◌else◌,
}
use discord_support_hub.Domain.{Space, User, SpaceMember}
use discord_support_hub.Store.Db.{Reply, ok, err, skip_retry, malformed, not_found}
use discord_support_hub.Store.Spaces.{get_space_by_id, get_user_by_id}
use discord_support_hub.Store.Members.{
  get_space_member_by_space_and_user, revoke_space_member, insert_audit_entry,
  InsertAuditEntryParams,
}
use discord_support_hub.Discord.{DiscordApi, delete_collaborator_overwrite, remove_guild_member}
use discord_support_hub.Effects.{
  Env, Locker, M, ◌>>=◌, ◌>>◌, return, fail, try, ignore, query, call,
}
use discord_support_hub.Worker.Locks.{with_space_lock}
use discord_support_hub.Worker.Invite.{skip_if_not_found}

pub record ExpelCollaboratorPayload : Type 0 where
  pub space_id : String
  pub user_id : String
  pub scope : String

abbrev pub expulsion_scope : String → String
expulsion_scope s = if s == "" then "channel" else s

pub audit_expel : ExpelCollaboratorPayload → InsertAuditEntryParams
audit_expel p = record {
  actor_api_key = none;
  actor_user_id = none;
  action = "collaborator.expel";
  merchant_id = none;
  space_id = some p.space_id;
  target_user_id = some p.user_id;
  scope = some (expulsion_scope p.scope);
  detail = ("scope", p.scope) ∷ [];
}

module _ {D L : Type 0} (api : DiscordApi D) (guild_id : String) where
  -- Step 1; a failure is logged only.
  unfoldable pub drop_overwrite : Option String → Option String → M (Env D L) (Unit {0})
  drop_overwrite none u = return tt
  drop_overwrite (some c) none = return tt
  drop_overwrite (some c) (some u) = ignore (call (delete_collaborator_overwrite api c u))

  unfoldable pub drop_guild_member : Option String → M (Env D L) (Unit {0})
  drop_guild_member none = return tt
  drop_guild_member (some u) = ignore (call (remove_guild_member api guild_id u))

  -- Step 2; a failure is logged only.
  unfoldable pub leave_guild : String → Option String → M (Env D L) (Unit {0})
  leave_guild scope u = if scope == "server" then drop_guild_member u else return tt

  -- Step 3.
  unfoldable pub soft_delete : SpaceMember → M (Env D L) (Unit {0})
  soft_delete sm =
      if is_none sm.revoked_at
      then (do row ← query (revoke_space_member sm.id); return tt)
      else return tt

  unfoldable pub expel_row :
      ExpelCollaboratorPayload → Space → User → SpaceMember → M (Env D L) (Unit {0})
  expel_row p sp user sm = do
    drop_overwrite sp.discord_channel_id user.discord_user_id
    leave_guild p.scope user.discord_user_id
    soft_delete sm
    ignore (query (insert_audit_entry (audit_expel p)))

  -- A member row that is gone ends the task.
  unfoldable pub expel_member :
      ExpelCollaboratorPayload → Space → User → Reply SpaceMember → M (Env D L) (Unit {0})
  expel_member p sp user (ok sm) = expel_row p sp user sm
  expel_member p sp user (err not_found) = return tt
  expel_member p sp user (err e) = fail e

  unfoldable pub expel_user : ExpelCollaboratorPayload → Space → Reply User → M (Env D L) (Unit {0})
  expel_user p sp (err e) = fail (skip_if_not_found e)
  expel_user p sp (ok user) = do
    sm ← try (query (get_space_member_by_space_and_user p.space_id p.user_id))
    expel_member p sp user sm

  unfoldable pub expel_space : ExpelCollaboratorPayload → Reply Space → M (Env D L) (Unit {0})
  expel_space p (err e) = fail e
  expel_space p (ok sp) = do user ← try (query (get_user_by_id p.user_id)); expel_user p sp user

  unfoldable pub expel_locked : ExpelCollaboratorPayload → M (Env D L) (Unit {0})
  expel_locked p = do sp ← try (query (get_space_by_id p.space_id)); expel_space p sp

  unfoldable pub handle : Locker L → Option ExpelCollaboratorPayload → M (Env D L) (Unit {0})
  handle locker none = fail (skip_retry malformed)
  handle locker (some p) =
      if p.space_id == "" || p.user_id == ""
      then fail (skip_retry malformed)
      else with_space_lock locker p.space_id (expel_locked p)
