-- ===== src/Worker/Dispatch.antt =====
-- internal/worker/worker.go: the handler of each kind of task.
use discord_support_hub.Prelude.{String, Option, none, some, List}
use discord_support_hub.Store.Db.{Reply}
use discord_support_hub.Discord.{DiscordApi}
use discord_support_hub.Discord.Guild.{GuildApi}
use discord_support_hub.Effects.{M, Env, Locker, return}
use discord_support_hub.Worker.AgentRole
use discord_support_hub.Worker.Provision
use discord_support_hub.Worker.Invite
use discord_support_hub.Worker.Expel
use discord_support_hub.Worker.Sweep
use discord_support_hub.Worker.Lifecycle
use discord_support_hub.Worker.Welcome
use discord_support_hub.Worker.Nickname
use discord_support_hub.Worker.AgentRole.{ProjectAgentRolePayload}
use discord_support_hub.Worker.Provision.{ProvisionSpacePayload, Limiter}
use discord_support_hub.Worker.Invite.{InviteCollaboratorPayload}
use discord_support_hub.Worker.Expel.{ExpelCollaboratorPayload}
use discord_support_hub.Worker.Sweep.{ReconcileSpacePayload}
use discord_support_hub.Worker.Lifecycle.{ChangeLifecyclePayload}
use discord_support_hub.Worker.Welcome.{SyncWelcomePayload}
use discord_support_hub.Worker.Nickname.{ApplyNicknameSuffixPayload}

-- A task of each kind, with its payload if it can be decoded.
pub data Task : Type 0 where
  project_agent_role : Option ProjectAgentRolePayload → Task
  provision_task : Option ProvisionSpacePayload → Task
  invite_task : Option InviteCollaboratorPayload → Task
  expel_task : Option ExpelCollaboratorPayload → Task
  reconcile_space_task : Option ReconcileSpacePayload → Task
  lifecycle_task : Option ChangeLifecyclePayload → Task
  welcome_task : Option SyncWelcomePayload → Task
  nickname_task : Option ApplyNicknameSuffixPayload → Task
  reconcile_guild_task : Task

-- Store and Discord are there; a locker or limiter that is left out is one that does nothing. The
-- engine of the reconciler is optional, and has a locker of its own.
pub record Config (L : Type 0) : Type 0 where
  pub discord_guild_id : String
  pub agent_role_id : String
  pub everyone_role_id : String
  pub default_category_id : String
  pub agent_nickname_suffix : String
  pub limiter : Limiter L
  pub cache_del : List String → L → Reply (Unit {0}) × L
  pub locker : Locker L
  pub token_store : Option (String → Reply String)
  pub reconcile_engine : Option (Option (Locker L))

module _ {D L : Type 0} (api : DiscordApi D) (guild : GuildApi D) (cfg : Config L) where
  -- Without an engine the task is dropped.
  abbrev pub reconcile_handler :
      Option (Option (Locker L)) → Option ReconcileSpacePayload → M (Env D L) (Unit {0})
  reconcile_handler none p = return tt
  reconcile_handler (some locker) p = Sweep.handle api locker p

  abbrev pub guild_handler : Option (Option (Locker L)) → M (Env D L) (Unit {0})
  guild_handler none = return tt
  guild_handler (some locker) = Sweep.handle_guild api locker

  unfoldable pub handle_task : Task → M (Env D L) (Unit {0})
  handle_task (project_agent_role p) =
      AgentRole.handle guild
        (record {
          guild_id = cfg.discord_guild_id;
          agent_role_id = cfg.agent_role_id;
          nickname_suffix = cfg.agent_nickname_suffix;
        })
        p
  handle_task (provision_task p) =
      Provision.handle api cfg.locker cfg.limiter cfg.cache_del
        (record {
          guild_id = cfg.discord_guild_id;
          everyone_role_id = cfg.everyone_role_id;
          agent_role_id = cfg.agent_role_id;
          default_category = cfg.default_category_id;
        })
        p
  handle_task (invite_task p) =
      Invite.handle api cfg.locker
        (record { guild_id = cfg.discord_guild_id; tokens = cfg.token_store }) p
  handle_task (expel_task p) = Expel.handle api cfg.discord_guild_id cfg.locker p
  handle_task (reconcile_space_task p) = reconcile_handler cfg.reconcile_engine p
  handle_task (lifecycle_task p) = Lifecycle.handle api cfg.everyone_role_id p
  handle_task (welcome_task p) = Welcome.handle guild p
  handle_task (nickname_task p) =
      Nickname.handle guild cfg.discord_guild_id cfg.agent_nickname_suffix p
  handle_task reconcile_guild_task = guild_handler cfg.reconcile_engine
