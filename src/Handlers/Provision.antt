-- ===== src/Handlers/Provision.antt =====
-- internal/api/handlers/spaces.go: ProvisionSpace.
pub mod Kept
pub mod Recorded
use discord_support_hub.Prelude.{
  ℕ, String, Bool, ◌<>◌, Option, none, some, List, [], ◌∷◌, if◌then◌else◌,
}
use discord_support_hub.Domain.{Space, OutboxRow, Merchant, Fields}
use discord_support_hub.Store.Db.{Reply, ok, err, conflict}
use discord_support_hub.Effects.{Env, M, ◌>>=◌, ◌>>◌, return, try, ignore, query, locking}
use discord_support_hub.Store.Spaces.{CreateSpaceParams}
use discord_support_hub.Store.Jobs.{CreateJobParams}
use discord_support_hub.Store.Merchants.{get_merchant_by_id}
use discord_support_hub.Store.Outbox.{
  CreateOutboxParams, create_space_with_outbox, update_outbox_payload,
}
use discord_support_hub.Api.Auth.{Principal}
use discord_support_hub.Api.Idempotency.{store_idempotency_response}
use discord_support_hub.Handlers.Common.{
  Response, problem, if_control_plane, on_loaded, key_or, Ids, create_job_or,
}
use discord_support_hub.Handlers.Validation.{is_valid_uuid, validate_provision_request}

-- The body; the welcome message is in no statement's row and in no payload.
pub record ProvisionBody : Type 0 where
  pub name : String
  pub category_id : Option String

-- `body` is none where it does not bind.
pub record ProvisionRequest : Type 0 where
  pub principal : Option Principal
  pub merchant_id : String
  pub body : Option ProvisionBody
  pub idempotency_key : String
  pub ids : Ids

abbrev pub provision_key : ProvisionRequest → String
provision_key r = key_or r.idempotency_key ("provision:" <> r.merchant_id)

abbrev pub space_params : ProvisionRequest → String → Option String → CreateSpaceParams
space_params r name category = record {
  merchant_id = r.merchant_id;
  name = name;
  discord_category_id = category;
}

abbrev pub outbox_params : ProvisionRequest → String → CreateOutboxParams
outbox_params r name = record {
  aggregate = "space";
  aggregate_id = r.merchant_id;
  kind = "space:provision";
  payload = ("merchant_id", r.merchant_id) ∷ ("space_name", name) ∷ [];
  idempotency_key = provision_key r;
}

abbrev pub or_empty : Option String → String
or_empty none = ""
or_empty (some s) = s

abbrev pub full_payload : ProvisionRequest → String → Option String → String → Fields
full_payload r name category space =
    ("merchant_id", r.merchant_id)
    ∷ ("space_id", space)
    ∷ ("space_name", name)
    ∷ ("category_id", or_empty category)
    ∷ []

abbrev pub provision_body : ProvisionRequest → String → String → Fields
provision_body r job space =
    ("id", job)
    ∷ ("kind", "space:provision")
    ∷ ("status", "pending")
    ∷ ("space_id", space)
    ∷ ("merchant_id", r.merchant_id)
    ∷ ("retry_count", "0")
    ∷ []

abbrev pub provision_job : ProvisionRequest → String → Space → CreateJobParams
provision_job r name sp = record {
  task_id = provision_key r;
  kind = "space:provision";
  queue = "provision";
  merchant_id = some r.merchant_id;
  space_id = some sp.id;
  user_id = none;
  payload = ("merchant_id", r.merchant_id) ∷ ("space_id", sp.id) ∷ ("space_name", name) ∷ [];
}

module _ {Q L : Type 0} (is_format : ℕ → Bool)
    (cache_del : List String → L → Reply (Unit {0}) × L) where
  abbrev pub accept_provision :
      ProvisionRequest → String → Option String → Space → M (Env Q L) Response
  accept_provision r name category sp = do
    ignore (query (update_outbox_payload (provision_key r) (full_payload r name category sp.id)))
    job ← create_job_or r.ids (provision_job r name sp)
    store_idempotency_response (provision_key r) 202 (some (provision_body r job sp.id)) (some job)
    ignore (locking (cache_del ("spaces:list" ∷ "spaces:list:gen" ∷ ("spaces:id:" <> sp.id) ∷ [])))
    return (202, provision_body r job sp.id)

  abbrev pub on_created :
      ProvisionRequest → String → Option String → Reply (Space × OutboxRow) → M (Env Q L) Response
  on_created r name category (err conflict) = problem 409 "conflict"
  on_created r name category (err e) = problem 500 "internal_error"
  on_created r name category (ok (sp, row)) = accept_provision r name category sp

  abbrev pub create_desired : ProvisionRequest → String → Option String → M (Env Q L) Response
  create_desired r name category = do
    made ← try (
        query (
          create_space_with_outbox r.ids.space r.ids.outbox (space_params r name category)
            (outbox_params r name)))
    on_created r name category made

  abbrev pub on_name : ProvisionRequest → Option String → Option String → M (Env Q L) Response
  on_name r none category = problem 400 "validation_error"
  on_name r (some name) category = do
    merchant ← try (query (get_merchant_by_id r.merchant_id))
    on_loaded merchant (λ m. create_desired r name category)

  abbrev pub on_body : ProvisionRequest → Option ProvisionBody → M (Env Q L) Response
  on_body r none = problem 400 "validation_error"
  on_body r (some b) =
      on_name r (validate_provision_request is_format b.name b.category_id) b.category_id

  unfoldable pub provision_space : ProvisionRequest → M (Env Q L) Response
  provision_space r =
      if_control_plane r.principal
        (if is_valid_uuid r.merchant_id then on_body r r.body else problem 404 "not_found")
