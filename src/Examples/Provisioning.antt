-- ===== src/Examples/Provisioning.antt =====
-- The theorems of the provisioning handler, at the hub of `Hub` before its channel is made.
use discord_support_hub.Prelude.{
  String, List, ne_of_eq_false, none, some, [], ◌∷◌, find, update_where, refl,
}
use discord_support_hub.Store.Db.{Reply, ok}
use discord_support_hub.Effects.{Env, locking, query, call}
use discord_support_hub.Worker.View.{view}
use discord_support_hub.Domain.{AclState}
use discord_support_hub.Worker.Provision
use discord_support_hub.Worker.Provision.{ProvisionSpacePayload, ProvisionSpaceConfig, Limiter}
use discord_support_hub.Worker.Provision.{
  transition_job, holding_merchant, provision_locked, provision, provision_in, create_in,
  take_tokens, created, allow_agents, allowed, persist, invalidate_space_cache,
}
use discord_support_hub.Discord.{create_channel_denied, apply_category_agent_allow}
use discord_support_hub.Store.Spaces.{update_space_discord_channel}
use discord_support_hub.Examples.Memory.{is_used}
use discord_support_hub.Worker.Provision.Applied.{IsProvisioned, handle-IsProvisioned}
use discord_support_hub.Worker.Provision.FailClosed.{IsClosed}
use discord_support_hub.Worker.Provision.Born.{IsBorn, handle-IsFailClosed}
use discord_support_hub.Store.Jobs.{get_job_by_space_id_and_kind}
use discord_support_hub.Worker.Lifecycle.{update_job}
use discord_support_hub.Store.Spaces.{get_space_by_id}
use discord_support_hub.Store.Members.{insert_audit_entry}
use discord_support_hub.Examples.Memory.{Memory, memory, memory_laws}
use discord_support_hub.Examples.Hub.{free_locker, hub, hub_db, support}

abbrev provisioning : ProvisionSpacePayload
provisioning = record {
  space_id = "s1";
  merchant_id = "m1";
  space_name = "acme";
  category_id = "";
  welcome_message = "";
}

abbrev provision_config : ProvisionSpaceConfig
provision_config = record {
  guild_id = "g";
  everyone_role_id = "g";
  agent_role_id = "agents";
  default_category = "cat";
}

abbrev open_limiter : Limiter (Unit {0})
open_limiter = record {
  take_global = λ l. (ok tt, l);
  take_route = λ r l. (ok tt, l);
  penalize_until = λ r n l. (ok tt, l);
}

abbrev no_cache : List String → Unit {0} → Reply (Unit {0}) × Unit {0}
no_cache keys l = (ok tt, l)

-- The space's row is not yet applied.
abbrev pending_hub : Env Memory (Unit {0})
pending_hub = record (hub none []) {
  db = record (hub_db none) { spaces = record support { acl_state = AclState.pending } ∷ [] };
}

handle-IsFailClosed_example :
    IsBorn memory memory_laws free_locker open_limiter no_cache provision_config provisioning
      pending_hub.discord
      (Provision.handle memory free_locker open_limiter no_cache provision_config
        (some provisioning)
        pending_hub).1.discord
    × IsClosed memory memory_laws free_locker open_limiter no_cache provision_config provisioning
        "c9" "g"
        (ne_of_eq_false "g" "agents" refl)
        (view memory "c9" "g" pending_hub)
        (view memory "c9" "g"
          (Provision.handle memory free_locker open_limiter no_cache provision_config
            (some provisioning)
            pending_hub).1)
handle-IsFailClosed_example =
    handle-IsFailClosed memory memory_laws free_locker open_limiter no_cache provision_config
      provisioning (ne_of_eq_false "g" "agents" refl) "c9" "g" (ne_of_eq_false "g" "agents" refl)
      pending_hub

handle-IsProvisioned_example :
    IsProvisioned "s1"
      (Provision.handle memory free_locker open_limiter no_cache provision_config
        (some provisioning)
        pending_hub).1.db.spaces
unfolding Provision.handle transition_job update_job holding_merchant provision_locked provision
    provision_in create_in take_tokens created allow_agents allowed persist invalidate_space_cache
    query call locking find get_space_by_id get_job_by_space_id_and_kind create_channel_denied
    apply_category_agent_allow update_space_discord_channel update_where insert_audit_entry is_used
handle-IsProvisioned_example =
    handle-IsProvisioned memory free_locker open_limiter no_cache provision_config provisioning
      pending_hub refl
