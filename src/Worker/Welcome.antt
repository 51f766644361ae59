-- ===== src/Worker/Welcome.antt =====
-- internal/worker/sync_welcome.go: `handle` of syncWelcomeHandler.
pub mod Pinned
pub mod Sent
use discord_support_hub.Prelude.{String, false, ◌==◌, Option, none, some, [], ◌∷◌, if◌then◌else◌}
use discord_support_hub.Domain.{Space, JobStatus, completed}
use discord_support_hub.Store.Db.{Reply, ok, err, skip_retry, malformed}
use discord_support_hub.Store.Spaces.{get_space_by_id, update_space_welcome_message_id}
use discord_support_hub.Store.Jobs.{get_job_by_space_id_and_kind}
use discord_support_hub.Store.Members.{insert_audit_entry, InsertAuditEntryParams}
use discord_support_hub.Discord.Guild.{
  GuildApi, set_channel_topic, send_message, edit_message, pin_message,
}
use discord_support_hub.Worker.Lifecycle.{update_job}
use discord_support_hub.Effects.{M, Env, ◌>>=◌, ◌>>◌, return, fail, try, ignore, query, call}

pub record SyncWelcomePayload : Type 0 where
  pub space_id : String
  pub message : String

abbrev pub default_welcome_message : String
default_welcome_message =
    "Welcome! This is your dedicated support channel. A team member will assist you shortly."

abbrev pub default_channel_topic : String
default_channel_topic = "Support channel — ask us anything"

abbrev pub message_of : SyncWelcomePayload → String
message_of p = if p.message == "" then default_welcome_message else p.message

abbrev pub audit_welcome : SyncWelcomePayload → String → String → InsertAuditEntryParams
audit_welcome p channel message = record {
  actor_api_key = none;
  actor_user_id = none;
  action = "space.welcome.sync";
  merchant_id = none;
  space_id = some p.space_id;
  target_user_id = none;
  scope = none;
  detail = ("channel_id", channel) ∷ ("message_id", message) ∷ [];
}

module _ {D L : Type 0} (api : GuildApi D) where
  unfoldable pub send_and_pin : String → String → M (Env D L) String
  send_and_pin channel content = do
    message ← call (send_message api channel content)
    call (pin_message api channel message)
    return message

  -- A message that cannot be edited is sent anew.
  abbrev pub on_edited : String → String → String → Reply (Unit {0}) → M (Env D L) String
  on_edited channel content message (ok done) = return message
  on_edited channel content message (err x) = send_and_pin channel content

  unfoldable pub sync_message : String → String → Option String → M (Env D L) String
  sync_message channel content none = send_and_pin channel content
  sync_message channel content (some message) = do
    edited ← try (call (edit_message api channel message content))
    on_edited channel content message edited

  abbrev pub advance_job : String → M (Env D L) (Unit {0})
  advance_job space = do
    job ← try (query (get_job_by_space_id_and_kind space "space:sync_welcome"))
    update_job completed false job

  -- The rows follow the message; a failure is logged only.
  unfoldable pub record_message : SyncWelcomePayload → String → String → M (Env D L) (Unit {0})
  record_message p channel message = do
    ignore (query (update_space_welcome_message_id p.space_id message))
    advance_job p.space_id
    ignore (query (insert_audit_entry (audit_welcome p channel message)))

  abbrev pub on_channel : SyncWelcomePayload → Space → Option String → M (Env D L) (Unit {0})
  on_channel p sp none = fail (skip_retry malformed)
  on_channel p sp (some channel) = do
    call (set_channel_topic api channel default_channel_topic)
    message ← sync_message channel (message_of p) sp.welcome_message_id
    record_message p channel message

  abbrev pub on_space : SyncWelcomePayload → M (Env D L) (Unit {0})
  on_space p = do sp ← query (get_space_by_id p.space_id); on_channel p sp sp.discord_channel_id

  unfoldable pub handle : Option SyncWelcomePayload → M (Env D L) (Unit {0})
  handle none = fail (skip_retry malformed)
  handle (some p) = if p.space_id == "" then fail (skip_retry malformed) else on_space p
