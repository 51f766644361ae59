-- ===== src/Worker/Welcome/Pinned.antt =====
-- After a sync without database faults one message carries the text, and the space's row names it.
use discord_support_hub.Prelude.{ℕ, String, Option, some, List, ◌≡◌, find}
use mathlib.Core.Option
use discord_support_hub.Domain.{Space}
use discord_support_hub.Store.Db.{Db, Reply, ok}
use discord_support_hub.Store.Spaces.{by_id, set_welcome}
use discord_support_hub.Discord.Guild.{GuildApi, set_channel_topic}
use discord_support_hub.Effects.{Env}
use discord_support_hub.Worker.Lifecycle.Steps.{At}
use discord_support_hub.Worker.Welcome.{SyncWelcomePayload, message_of, default_channel_topic}
use discord_support_hub.Worker.Welcome.Sent.{IsPinned}

module _ {D L : Type 0} (ss : List Space) (n : ℕ) (d : D) where
  -- The spaces, the time and the Discord side are these.
  abbrev Stands : Env D L → Type 0
  Stands e = At ss n e × (e.discord ≡ d)

-- The channel with its topic and its message, and the row that names the message.
pub record IsSynced {D L : Type 0} (api : GuildApi D) (p : SyncWelcomePayload)
    (before after : Env D L) : Type 0 where
  pub space : Space
  pub found : find (by_id p.space_id) before.db.spaces ≡ some space
  pub channel : String
  pub projected : space.discord_channel_id ≡ some channel
  pub topic_set : (set_channel_topic api channel default_channel_topic before.discord).0 ≡ ok tt
  pub message : String
  pub message_pinned :
      IsPinned api channel
        (message_of p)
        space.welcome_message_id
        message
        (set_channel_topic api channel default_channel_topic before.discord).1
        after.discord
  pub row_named :
      find (by_id p.space_id) after.db.spaces ≡ some (set_welcome message before.now space)

module _ {D L : Type 0} (api : GuildApi D) (p : SyncWelcomePayload) where
  abbrev Done : Env D L → Reply (Unit {0}) × Env D L → Type 0
  Done before r = r.0 ≡ ok tt → IsSynced api p before r.1
