-- ===== src/Worker/AgentRole/Agents.antt =====
-- The role is given and taken only to agents, at the Discord account of their rows.
use discord_support_hub.Prelude.{String, some, ◌≡◌, ◌⊎◌}
use discord_support_hub.Domain.{User, agent}
use discord_support_hub.Store.Db.{Reply, ok}
use discord_support_hub.Discord.Guild.{GuildApi, assign_agent_role, remove_agent_role, set_nickname}
use discord_support_hub.Worker.Nickname.{build_nickname, or_empty}
use discord_support_hub.Worker.AgentRole.{RoleConfig}

module _ {D : Type 0} (api : GuildApi D) (cfg : RoleConfig) where
  -- What a task makes of the Discord side at an account: nothing, the role taken, the role given,
  -- or the role and the nickname given.
  abbrev pub IsProjected : User → String → D → D → Type 0
  IsProjected u discord_id before after =
      let given = (assign_agent_role api cfg.guild_id discord_id cfg.agent_role_id before).1 in
      (after ≡ before)
      ⊎ (after ≡ (remove_agent_role api cfg.guild_id discord_id cfg.agent_role_id before).1)
      ⊎ (after ≡ given)
      ⊎ (after
          ≡ (set_nickname api cfg.guild_id discord_id
              (build_nickname (or_empty u.display_name) cfg.nickname_suffix) given).1)

  -- A nickname may be set.
  abbrev Marks : User → String → D → D → Type 0
  Marks u discord_id before after =
      (after ≡ before)
      ⊎ (after
          ≡ (set_nickname api cfg.guild_id discord_id
              (build_nickname (or_empty u.display_name) cfg.nickname_suffix) before).1)

  -- What becomes of a user that was looked up.
  abbrev IsHandled : Reply User → D → D → Type 0
  IsHandled found before after =
      (after ≡ before)
      ⊎ ((u : User) × (d : String) × (found ≡ ok u)
          × (u.kind ≡ agent)
          × (u.discord_user_id ≡ some d)
          × IsProjected u d before after)
