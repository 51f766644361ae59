-- ===== src/Worker/AgentRole.antt =====
-- internal/worker/project_agent_role.go: `handle` of projectAgentRoleHandler.
pub mod Agents
use discord_support_hub.Prelude.{String, Bool, ◌==◌, Option, none, some, if◌then◌else◌}
use discord_support_hub.Domain.{User, UserType, agent, collaborator}
use discord_support_hub.Store.Db.{Reply, ok, err, not_found, retry_later, skip_retry, malformed}
use discord_support_hub.Store.Spaces.{get_user_by_id}
use discord_support_hub.Store.Users.{set_user_provisioned_at}
use discord_support_hub.Discord.Guild.{GuildApi, assign_agent_role, remove_agent_role, set_nickname}
use discord_support_hub.Worker.Nickname.{build_nickname, or_empty}
use discord_support_hub.Effects.{M, Env, ◌>>=◌, ◌>>◌, return, fail, try, ignore, query, call}

pub record ProjectAgentRolePayload : Type 0 where
  pub user_id : String
  pub add : Bool

pub record RoleConfig : Type 0 where
  pub guild_id : String
  pub agent_role_id : String
  pub nickname_suffix : String

module _ {D L : Type 0} (api : GuildApi D) (cfg : RoleConfig) where
  abbrev pub mark_agent : User → String → M (Env D L) (Unit {0})
  mark_agent u discord_id =
      if cfg.nickname_suffix == ""
      then return tt
      else ignore (
          call (
            set_nickname api cfg.guild_id discord_id
              (build_nickname (or_empty u.display_name) cfg.nickname_suffix)))

  -- Once the role is assigned, a failure of the stamp or of the nickname is logged only.
  unfoldable pub assign_role : User → String → M (Env D L) (Unit {0})
  assign_role u discord_id = do
    call (assign_agent_role api cfg.guild_id discord_id cfg.agent_role_id)
    ignore (query (set_user_provisioned_at u.id))
    mark_agent u discord_id

  unfoldable pub remove_role : String → M (Env D L) (Unit {0})
  remove_role discord_id = call (remove_agent_role api cfg.guild_id discord_id cfg.agent_role_id)

  abbrev pub project : ProjectAgentRolePayload → User → Option String → M (Env D L) (Unit {0})
  project p u none = fail retry_later
  project p u (some discord_id) =
      if discord_id == ""
      then fail retry_later
      else if p.add
      then assign_role u discord_id
      else remove_role discord_id

  -- Only an agent gets the role.
  abbrev pub if_agent : ProjectAgentRolePayload → User → UserType → M (Env D L) (Unit {0})
  if_agent p u collaborator = return tt
  if_agent p u agent = project p u u.discord_user_id

  abbrev pub on_user : ProjectAgentRolePayload → Reply User → M (Env D L) (Unit {0})
  on_user p (err not_found) = return tt
  on_user p (err x) = fail x
  on_user p (ok u) = if_agent p u u.kind

  unfoldable pub handle : Option ProjectAgentRolePayload → M (Env D L) (Unit {0})
  handle none = fail (skip_retry malformed)
  handle (some p) = do user ← try (query (get_user_by_id p.user_id)); on_user p user
