-- ===== src/Discord/Guild.antt =====
-- internal/discord/discord.go: the calls on the guild's members and on messages, over an interface
-- for discordgo, which is no code of the repository.
use discord_support_hub.Prelude.{String}
use discord_support_hub.Store.Db.{Reply}

-- The REST calls of discordgo over some state of the Discord side. Messages are sent and edited with
-- an empty list of allowed mentions.
pub record GuildApi (D : Type 0) : Type 0 where
  pub guild_member_role_add : String → String → String → D → Reply (Unit {0}) × D
  pub guild_member_role_remove : String → String → String → D → Reply (Unit {0}) × D
  pub guild_member_nickname : String → String → String → D → Reply (Unit {0}) × D
  pub channel_edit_topic : String → String → D → Reply (Unit {0}) × D
  pub channel_message_pin : String → String → D → Reply (Unit {0}) × D
  pub channel_message_edit_complex : String → String → String → D → Reply (Unit {0}) × D
  pub channel_message_send_complex : String → String → D → Reply String × D

module _ {D : Type 0} (api : GuildApi D) where
  unfoldable pub assign_agent_role : String → String → String → D → Reply (Unit {0}) × D
  assign_agent_role guild user role = api.guild_member_role_add guild user role

  unfoldable pub remove_agent_role : String → String → String → D → Reply (Unit {0}) × D
  remove_agent_role guild user role = api.guild_member_role_remove guild user role

  unfoldable pub set_nickname : String → String → String → D → Reply (Unit {0}) × D
  set_nickname guild user nickname = api.guild_member_nickname guild user nickname

  unfoldable pub set_channel_topic : String → String → D → Reply (Unit {0}) × D
  set_channel_topic channel topic = api.channel_edit_topic channel topic

  unfoldable pub pin_message : String → String → D → Reply (Unit {0}) × D
  pin_message channel message = api.channel_message_pin channel message

  unfoldable pub edit_message : String → String → String → D → Reply (Unit {0}) × D
  edit_message channel message content = api.channel_message_edit_complex channel message content

  unfoldable pub send_message : String → String → D → Reply String × D
  send_message channel content = api.channel_message_send_complex channel content
