-- ===== src/Worker/Provision.antt =====
-- internal/worker/provision_space.go: `handle` of provisionSpaceHandler. Metrics are left out. The
-- limiter and the cache stand in Valkey, as the locks do.
pub mod Leaves
pub mod FailClosed
pub mod Born
pub mod Applied
use discord_support_hub.Prelude.{
  ℕ, zero, suc, String, Bool, true, false, ◌==◌, ◌&&◌, leb, Option, none, some, List, [], ◌∷◌, ◌<>◌,
  is_some, if◌then◌else◌,
}
use discord_support_hub.Domain.{Space, AclState, JobStatus, is_applied}
use discord_support_hub.Store.Db.{
  Error, Reply, ok, err, rest_error, rate_limit, skip_retry, malformed, retry_later,
}
use discord_support_hub.Store.Spaces.{
  get_space_by_id, update_space_acl_state, update_space_discord_channel,
  UpdateSpaceDiscordChannelParams,
}
use discord_support_hub.Store.Jobs.{get_job_by_space_id_and_kind}
use discord_support_hub.Store.Members.{insert_audit_entry, InsertAuditEntryParams}
use discord_support_hub.Discord.{DiscordApi, create_channel_denied, apply_category_agent_allow}
use discord_support_hub.Effects.{
  Env, Locker, M, ◌>>=◌, ◌>>◌, return, fail, try, ignore, deferring, query, call, locking,
}
use discord_support_hub.Worker.Lifecycle.{update_job}

pub record ProvisionSpacePayload : Type 0 where
  pub space_id : String
  pub merchant_id : String
  pub space_name : String
  pub category_id : String
  pub welcome_message : String

-- The part of `ratelimit.Limiter` that is used; a duration is in milliseconds.
pub record Limiter (L : Type 0) : Type 0 where
  pub take_global : L → Reply (Unit {0}) × L
  pub take_route : String → L → Reply (Unit {0}) × L
  pub penalize_until : String → ℕ → L → Reply (Unit {0}) × L

pub record ProvisionSpaceConfig : Type 0 where
  pub guild_id : String
  pub everyone_role_id : String
  pub agent_role_id : String
  pub default_category : String

abbrev pub kind_provision_space : String
kind_provision_space = "space:provision"

abbrev pub is_rate_limited : ℕ → Bool
is_rate_limited status = leb status 429 && leb 429 status

abbrev pub is_discord_429 : Error → Bool
is_discord_429 (rest_error status after) = is_rate_limited status
is_discord_429 _ = false

-- Zero where the header is absent, malformed or not positive.
abbrev pub extract_discord_429_retry_after : Error → ℕ
extract_discord_429_retry_after (rest_error status after) = after
extract_discord_429_retry_after _ = 0

-- Five seconds where Discord names no delay.
abbrev pub or_default : ℕ → ℕ
or_default zero = 5000
or_default (suc n) = suc n

abbrev pub failed_state : String → AclState
failed_state channel = if channel == "" then AclState.failed else AclState.degraded

abbrev pub acl_text : AclState → String
acl_text AclState.pending = "pending"
acl_text AclState.applied = "applied"
acl_text AclState.degraded = "degraded"
acl_text AclState.failed = "failed"

abbrev pub audit_failed : ProvisionSpacePayload → String → String → InsertAuditEntryParams
audit_failed p channel reason = record {
  actor_api_key = none;
  actor_user_id = none;
  action = "space.provision.failed";
  merchant_id = some p.merchant_id;
  space_id = some p.space_id;
  target_user_id = none;
  scope = none;
  detail = ("reason", reason) ∷ ("acl_state", acl_text (failed_state channel)) ∷ [];
}

abbrev pub audit_provision : ProvisionSpacePayload → String → String → InsertAuditEntryParams
audit_provision p category channel = record {
  actor_api_key = none;
  actor_user_id = none;
  action = "space.provision";
  merchant_id = some p.merchant_id;
  space_id = some p.space_id;
  target_user_id = none;
  scope = none;
  detail = ("discord_channel_id", channel) ∷ ("category_id", category) ∷ [];
}

abbrev pub permissions_route : String → String
permissions_route category = "PUT/channels/" <> (category <> "/permissions")

-- The payload's category, or else the configured one.
abbrev pub category_of : ProvisionSpaceConfig → ProvisionSpacePayload → String
category_of cfg p = if p.category_id == "" then cfg.default_category else p.category_id

abbrev pub applied_params :
    ProvisionSpacePayload → String → String → UpdateSpaceDiscordChannelParams
applied_params p category channel = record {
  space_id = p.space_id;
  discord_channel_id = channel;
  discord_category_id = some category;
  acl_state = AclState.applied;
}

module _ {D L : Type 0} where
  -- A missing job row is no error.
  unfoldable pub transition_job : String → JobStatus → Bool → M (Env D L) (Unit {0})
  transition_job s status cause = do
    job ← try (query (get_job_by_space_id_and_kind s kind_provision_space))
    update_job status cause job

  -- The space is degraded, or failed where no channel was made, and the task is not retried.
  unfoldable pub fail_closed :
      ProvisionSpacePayload → String → String → Error → M (Env D L) (Unit {0})
  fail_closed p channel reason cause = do
    ignore (query (update_space_acl_state p.space_id (failed_state channel)))
    transition_job p.space_id JobStatus.archived true
    ignore (query (insert_audit_entry (audit_failed p channel reason)))
    fail (skip_retry cause)

module _ {D L : Type 0} (limiter : Limiter L) where
  -- One token of the whole budget and one of the route.
  unfoldable pub take_tokens : String → M (Env D L) (Unit {0})
  take_tokens route = do locking limiter.take_global; locking (limiter.take_route route)

  unfoldable pub handle_429 : String → Error → M (Env D L) (Unit {0})
  handle_429 route e =
      let after = or_default (extract_discord_429_retry_after e) in
      (do ignore (locking (limiter.penalize_until route after)); fail (rate_limit after route))

module _ {D L : Type 0} (api : DiscordApi D) (locker : Locker L) (limiter : Limiter L)
    (cache_del : List String → L → Reply (Unit {0}) × L) (cfg : ProvisionSpaceConfig) where
  unfoldable pub invalidate_space_cache : String → M (Env D L) (Unit {0})
  invalidate_space_cache s =
      ignore (locking (cache_del ("spaces:list" ∷ ("spaces:id:" <> s) ∷ "spaces:list:gen" ∷ [])))

  -- Steps 3 and 4.
  unfoldable pub persist : ProvisionSpacePayload → String → String → M (Env D L) (Unit {0})
  persist p category channel = do
    row ← query (update_space_discord_channel (applied_params p category channel))
    transition_job p.space_id JobStatus.completed false
    ignore (query (insert_audit_entry (audit_provision p category channel)))
    invalidate_space_cache p.space_id

  unfoldable pub allowed :
      ProvisionSpacePayload → String → String → Reply (Unit {0}) → M (Env D L) (Unit {0})
  allowed p category channel (ok u) = persist p category channel
  allowed p category channel (err e) =
      if is_discord_429 e
      then handle_429 limiter (permissions_route category) e
      else fail_closed p channel "acl_apply_failed" e

  -- Step 2.
  unfoldable pub allow_agents : ProvisionSpacePayload → String → String → M (Env D L) (Unit {0})
  allow_agents p category channel = do
    take_tokens limiter (permissions_route category)
    answer ← try (call (apply_category_agent_allow api category cfg.agent_role_id))
    allowed p category channel answer

  unfoldable pub created : ProvisionSpacePayload → String → Reply String → M (Env D L) (Unit {0})
  created p category (ok channel) = allow_agents p category channel
  created p category (err e) =
      if is_discord_429 e
      then handle_429 limiter "POST/channels" e
      else fail_closed p "" "channel_create_failed" e

  -- Step 1: the channel is born denied.
  unfoldable pub create_in : ProvisionSpacePayload → String → M (Env D L) (Unit {0})
  create_in p category = do
    take_tokens limiter "POST/channels"
    answer ←
        try
          (call (create_channel_denied api cfg.guild_id p.space_name category cfg.everyone_role_id))
    created p category answer

  unfoldable pub provision_in : ProvisionSpacePayload → String → M (Env D L) (Unit {0})
  provision_in p category =
      if category == ""
      then fail_closed p "" "no_category_for_agent_allow" retry_later
      else create_in p category

  -- A space that is provisioned is skipped.
  unfoldable pub provision : ProvisionSpacePayload → Space → M (Env D L) (Unit {0})
  provision p sp =
      if is_some sp.discord_channel_id && is_applied sp.acl_state
      then return tt
      else provision_in p (category_of cfg p)

  unfoldable pub provision_locked : ProvisionSpacePayload → M (Env D L) (Unit {0})
  provision_locked p = do sp ← query (get_space_by_id p.space_id); provision p sp

  unfoldable pub holding_merchant : ProvisionSpacePayload → Option String → M (Env D L) (Unit {0})
  holding_merchant p none = fail retry_later
  holding_merchant p (some token) =
      deferring (locking (locker.release_merchant p.merchant_id token)) (provision_locked p)

  unfoldable pub handle : Option ProvisionSpacePayload → M (Env D L) (Unit {0})
  handle none = fail (skip_retry malformed)
  handle (some p) = if p.space_id == "" then fail (skip_retry malformed) else (do
    transition_job p.space_id JobStatus.active false
    token ← locking (locker.acquire_merchant p.merchant_id)
    holding_merchant p token)
