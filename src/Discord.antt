-- ===== src/Discord.antt =====
-- internal/discord/discord.go: the calls that the program makes, over an interface for the REST
-- calls of discordgo, which are no code of the repository.
pub mod Laws
pub mod Guild
use discord_support_hub.Prelude.{
  String, Bool, true, false, ◌==◌, Option, none, some, List, [], ◌∷◌, find, ◌≡◌, ◌⊎◌,
}
use discord_support_hub.Store.Db.{Reply}

pub data OverwriteType : Type 0 where
  role member : OverwriteType

-- The two permission bits that the program uses.
pub record Perms : Type 0 where
  pub view_channel : Bool
  pub send_messages : Bool

pub record PermissionOverwrite : Type 0 where
  pub id : String
  pub kind : OverwriteType
  pub allow : Perms
  pub deny : Perms

abbrev pub no_perms : Perms
no_perms = record { view_channel = false; send_messages = false }

abbrev pub view_only : Perms
view_only = record { view_channel = true; send_messages = false }

abbrev pub view_and_send : Perms
view_and_send = record { view_channel = true; send_messages = true }

abbrev pub of_target : String → PermissionOverwrite → Bool
of_target t o = o.id == t

-- discordgo over some state `D` of the Discord side. `overwrite` is what is stored for a channel
-- and a target; the other fields are the calls, each with its answer and the state it leaves.
pub record DiscordApi (D : Type 0) : Type 0 where
  pub overwrite : D → String → String → Option PermissionOverwrite
  pub channel_permission_set :
      String → String → OverwriteType → Perms → Perms → D → Reply (Unit {0}) × D
  pub channel_permission_delete : String → String → D → Reply (Unit {0}) × D
  pub channel : String → D → Reply (List PermissionOverwrite) × D
  pub guild_channel_create_complex :
      String → String → String → List PermissionOverwrite → D → Reply String × D
  pub guild_member_add : String → String → String → D → Reply (Unit {0}) × D
  pub guild_member_delete : String → String → D → Reply (Unit {0}) × D

module _ {D : Type 0} (api : DiscordApi D) where
  unfoldable pub create_channel_denied : String → String → String → String → D → Reply String × D
  create_channel_denied guild name category everyone =
      api.guild_channel_create_complex guild name category
        (record { id = everyone; kind = role; allow = no_perms; deny = view_only } ∷ [])

  unfoldable pub apply_category_agent_allow : String → String → D → Reply (Unit {0}) × D
  apply_category_agent_allow category agent =
      api.channel_permission_set category agent role view_only no_perms

  unfoldable pub set_collaborator_overwrite : String → String → D → Reply (Unit {0}) × D
  set_collaborator_overwrite c u = api.channel_permission_set c u member view_and_send no_perms

  unfoldable pub delete_collaborator_overwrite : String → String → D → Reply (Unit {0}) × D
  delete_collaborator_overwrite c u = api.channel_permission_delete c u

  unfoldable pub add_guild_member : String → String → String → D → Reply (Unit {0}) × D
  add_guild_member guild u token = api.guild_member_add guild u token

  unfoldable pub remove_guild_member : String → String → D → Reply (Unit {0}) × D
  remove_guild_member guild u = api.guild_member_delete guild u

  unfoldable pub get_channel_overwrites : String → D → Reply (List PermissionOverwrite) × D
  get_channel_overwrites c = api.channel c

  unfoldable pub archive_channel : String → String → D → Reply (Unit {0}) × D
  archive_channel c everyone = api.channel_permission_set c everyone role no_perms view_and_send

  unfoldable pub unarchive_channel : String → String → D → Reply (Unit {0}) × D
  unarchive_channel c everyone = api.channel_permission_delete c everyone

  unfoldable pub set_channel_permission_deny :
      String → String → OverwriteType → D → Reply (Unit {0}) × D
  set_channel_permission_deny c t k = api.channel_permission_set c t k no_perms view_only

-- What a collaborator's overwrite is.
abbrev pub collaborator_overwrite : String → PermissionOverwrite
collaborator_overwrite u = record { id = u; kind = member; allow = view_and_send; deny = no_perms }
