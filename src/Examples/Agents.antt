-- ===== src/Examples/Agents.antt =====
-- The tasks about agents and about welcome messages, at concrete inputs. The Discord side is the list of its calls.
use discord_support_hub.Prelude.{
  String, true, false, none, some, List, [], ◌∷◌, ◌≡◌, refl, arith, ◌≤◌,
}
use discord_support_hub.Domain.{User, agent}
use discord_support_hub.Store.Db.{ok}
use discord_support_hub.Effects.{Env, call}
use discord_support_hub.Discord.Guild.{GuildApi}
use discord_support_hub.Worker.Nickname.{runes, has_suffix, build_nickname}
use discord_support_hub.Worker.Nickname.Fits.{build_nickname-IsMarked}
use discord_support_hub.Worker.AgentRole.{RoleConfig, ProjectAgentRolePayload}
use discord_support_hub.Worker.Welcome
use discord_support_hub.Worker.Welcome.{SyncWelcomePayload}
use discord_support_hub.Examples.Hub.{hub_db}

abbrev logged : String → List String → List String
logged call calls = call ∷ calls

abbrev logging : GuildApi (List String)
logging = record {
  guild_member_role_add = λ g u r d. (ok tt, logged "role add" d);
  guild_member_role_remove = λ g u r d. (ok tt, logged "role remove" d);
  guild_member_nickname = λ g u n d. (ok tt, logged "nickname" d);
  channel_edit_topic = λ c t d. (ok tt, logged "topic" d);
  channel_message_pin = λ c m d. (ok tt, logged "pin" d);
  channel_message_edit_complex = λ c m t d. (ok tt, logged "edit" d);
  channel_message_send_complex = λ c t d. (ok "m9", logged "send" d);
}

abbrev roles : RoleConfig
roles = record { guild_id = "g1"; agent_role_id = "r1"; nickname_suffix = "[Agent]" }

abbrev bob : User
bob = record {
  id = "a1";
  kind = agent;
  is_admin = false;
  discord_user_id = some "d1";
  email = none;
  display_name = some "Bob";
  provisioned_at = none;
  is_active = true;
  created_at = 1;
  updated_at = 1;
}

abbrev agents_env : Env (List String) (Unit {0})
agents_env = record {
  db = record (hub_db none) { users = bob ∷ [] };
  faults = [];
  now = 9;
  discord = [];
  locks = tt;
}

abbrev hiring : ProjectAgentRolePayload
hiring = record { user_id = "a1"; add = true }

build_nickname-IsMarked_example :
    (runes (build_nickname "Bob" "[Agent]") ≤ 32)
    × (has_suffix "[Agent]" (build_nickname "Bob" "[Agent]") ≡ true)
    × (build_nickname (build_nickname "Bob" "[Agent]") "[Agent]" ≡ build_nickname "Bob" "[Agent]")
unfolding runes has_suffix
build_nickname-IsMarked_example = build_nickname-IsMarked "Bob" "[Agent]" refl refl (omega arith)

abbrev greeting : SyncWelcomePayload
greeting = record { space_id = "s1"; message = "" }
