-- ===== src/Examples/Requests.antt =====
-- The requests that write, at concrete inputs.
use discord_support_hub.Prelude.{
  ℕ, String, Bool, true, false, Option, none, some, List, [], ◌∷◌, ◌≡◌, refl, find, has_char,
  lookup,
}
use discord_support_hub.Domain.{Space, SpaceLifecycleState, same_lifecycle}
use discord_support_hub.Store.Db.{Reply, ok, err, malformed}
use discord_support_hub.Effects.{Env}
use discord_support_hub.Store.Spaces.{by_id}
use discord_support_hub.Worker.Lifecycle.{action_to_target_state}
use discord_support_hub.Api.Auth.{Principal, service_principal, require_control_plane}
use discord_support_hub.Oauth.Nonces.{mem_nonce_store}
use discord_support_hub.Oauth.State.{validate}
use discord_support_hub.Handlers.Common.{Ids}
use discord_support_hub.Handlers.Lifecycle.{
  LifecycleRequest, change_space_lifecycle, lifecycle_transitions, lifecycle_body,
}
use discord_support_hub.Handlers.Lifecycle.Allowed.{change_space_lifecycle-IsAllowed}
use discord_support_hub.Handlers.Provision.{ProvisionRequest}
use discord_support_hub.Handlers.Agents.{AgentRequest, add_agent}
use discord_support_hub.Handlers.Agents.Connect.{add_agent-IsUnredeemable}
use discord_support_hub.Handlers.Merchants.{
  ParsedUrl, MerchantRequest, MerchantBody, merchant_valid, trimmed, register_merchant,
  to_merchant_response,
}
use discord_support_hub.Handlers.Merchants.Registered.{register_merchant-IsAdded, IsAdded}
use discord_support_hub.Store.Merchants.{create_merchant, new_merchant}
use discord_support_hub.Handlers.Route.{Call, route, IsBacked, route-IsAuthorised}
use discord_support_hub.Api.Idempotency.{Request}
use discord_support_hub.Api.Untouched.{Untouched}
use discord_support_hub.Prelude.{◌⊎◌}
use discord_support_hub.Examples.Codec.{plain_codec}
use discord_support_hub.Examples.Edge.{key, edge_db, header, identity}
use discord_support_hub.Examples.Queue.{ids_queue}
use discord_support_hub.Examples.Hub.{acme, support}
use discord_support_hub.Handlers.Lifecycle.{action_to_lifecycle_state}
use discord_support_hub.Store.Jobs.{create_job}
use discord_support_hub.Store.Users.{create_user}
use discord_support_hub.Store.Spaces.{get_space_by_id}
use discord_support_hub.Handlers.Validation.{has_unsafe_rune}
use discord_support_hub.Api.Bearer.{trim_left}
use discord_support_hub.Api.Bearer.{trim_right}
use discord_support_hub.Api.Bearer.{trim_space}
use discord_support_hub.Effects.{call}
use discord_support_hub.Effects.{query}
use discord_support_hub.Api.Idempotency.{store_idempotency_response}

-- A hub with a second merchant, that has no space yet.
abbrev uuid : String
uuid = "00000000-0000-4000-8000-000000000001"

abbrev hub_env : Env (List String) (Unit {0})
hub_env = record {
  db = record edge_db { merchants = acme ∷ record acme { id = uuid; external_ref = "ref2" } ∷ [] };
  faults = [];
  now = 9;
  discord = [];
  locks = tt;
}

abbrev ids : Ids
ids = record {
  merchant = "m9";
  space = "s9";
  outbox = "o9";
  user = "u9";
  member = "sm9";
  job = "j9";
  synthetic = "x9";
}

abbrev caller : Option Principal
caller = some (service_principal key)

abbrev no_format : ℕ → Bool
no_format c = false

abbrev archive : LifecycleRequest
archive = record {
  principal = caller;
  space_id = "s1";
  action = some "archive";
  idempotency_key = "";
  ids = ids;
}

change_space_lifecycle-IsAllowed_example :
    (a : String) × (target : SpaceLifecycleState) × (sp : Space) × (require_control_plane caller
      ≡ true)
    × (some "archive" ≡ some a)
    × (action_to_target_state a ≡ some target)
    × (find (by_id "s1") (support ∷ []) ≡ some sp)
    × (lifecycle_transitions sp.lifecycle_state target ≡ true)
    × (same_lifecycle sp.lifecycle_state target ≡ false)
unfolding change_space_lifecycle require_control_plane action_to_lifecycle_state query
    get_space_by_id find lifecycle_transitions call store_idempotency_response create_job
change_space_lifecycle-IsAllowed_example =
    change_space_lifecycle-IsAllowed ids_queue archive hub_env (lifecycle_body "j9" "s1") refl

abbrev provisioning : ProvisionRequest
provisioning = record {
  principal = caller;
  merchant_id = uuid;
  body = some (record { name = " beta "; category_id = none });
  idempotency_key = "";
  ids = ids;
}

-- A cache that has nothing.
abbrev no_cache : List String → Unit {0} → Reply (Unit {0}) × Unit {0}
no_cache ks l = (ok tt, l)

abbrev hire : AgentRequest
hire = record {
  principal = caller;
  body =
      some
        (record { email = "a@b.c"; display_name = none; discord_user_id = none; is_admin = false });
  ids = ids;
}

add_agent-IsUnredeemable_example :
    (validate plain_codec mem_nonce_store "secret" 10 "u9" []).0 ≡ err malformed
unfolding add_agent lookup has_char require_control_plane query create_user call
add_agent-IsUnredeemable_example =
    add_agent-IsUnredeemable no_format ids_queue plain_codec mem_nonce_store "secret" hire hub_env
      (("id", "u9") ∷ ("connect_state", "u9") ∷ []) "u9" 10 [] refl refl refl

-- A parser that reads nothing.
abbrev no_parse : String → Option ParsedUrl
no_parse raw = none

abbrev archiving : Request
archiving = record {
  method = "POST";
  full_path = "/v1/channels/:id/lifecycle";
  path = "/v1/channels/s1/lifecycle";
  idempotency_key = "i1";
  body = some "archive";
}

route-IsAuthorised_example :
    IsBacked no_format no_parse ids_queue no_cache
      (λ u l. (ok u, l))
      identity
      identity
      header
      hub_env
    ⊎ Untouched hub_env
        (route no_format no_parse ids_queue no_cache
          (λ u l. (ok u, l))
          identity
          identity
          header
          archiving
          (Call.post_lifecycle archive)
          hub_env).1
route-IsAuthorised_example =
    route-IsAuthorised no_format no_parse ids_queue no_cache (λ u l. (ok u, l)) identity identity
      header archiving (Call.post_lifecycle archive) hub_env

abbrev sign_up : MerchantRequest
sign_up = record {
  principal = caller;
  body = some (record { external_ref = " ref9 "; name = "beta"; help_desk_url = none });
  ids = ids;
}

register_merchant-IsAdded_example :
    (body : MerchantBody) × (require_control_plane caller ≡ true)
    × (sign_up.body ≡ some body)
    × (merchant_valid no_format no_parse (trimmed body) ≡ true)
    × IsAdded "m9"
        (trimmed body)
        9
        hub_env.db
        (register_merchant no_format no_parse sign_up hub_env).1.db
unfolding register_merchant require_control_plane trim_space trim_right trim_left has_unsafe_rune
    query create_merchant find
register_merchant-IsAdded_example =
    register_merchant-IsAdded no_format no_parse sign_up hub_env
      (to_merchant_response (
        new_merchant "m9" (record { external_ref = "ref9"; name = "beta"; help_desk_url = none })
          9))
      refl
