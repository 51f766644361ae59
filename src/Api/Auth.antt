-- ===== src/Api/Auth.antt =====
-- internal/api/middleware/middleware.go and internal/authz: who a request is, and what that allows.
-- The hash of a key is SHA-256, an argument here.
use discord_support_hub.Prelude.{
  ℕ, String, Bool, true, false, ◌==◌, Option, none, some, if◌then◌else◌,
}
use discord_support_hub.Domain.{ApiKey}
use discord_support_hub.Store.Db.{Reply, ok, err, not_found}
use discord_support_hub.Store.ApiKeys.{lookup_active_api_key_by_hash, touch_api_key_last_used}
use discord_support_hub.Effects.{Env, M, ◌>>=◌, ◌>>◌, return, try, ignore, query}
use discord_support_hub.Api.Bearer.{extract_bearer}

pub data PrincipalType : Type 0 where
  service session : PrincipalType

pub record Principal : Type 0 where
  pub kind : PrincipalType
  pub key_id : String
  pub user_id : String
  pub is_admin : Bool
  pub key_scope : String

abbrev pub scope_backoffice : String
scope_backoffice = "backoffice"

unfoldable pub require_control_plane : Option Principal → Bool
require_control_plane none = false
require_control_plane (some p) = if p.key_scope == scope_backoffice then true else p.is_admin

unfoldable pub require_admin : Option Principal → Bool
require_admin none = false
require_admin (some p) = p.is_admin

unfoldable pub require_authenticated : Option Principal → Bool
require_authenticated none = false
require_authenticated (some p) = true

-- What becomes of the request: a refusal with its status, or the principal that is set.
pub data Admission : Type 0 where
  refused : (status : ℕ) → Admission
  admitted : Principal → Admission

abbrev pub service_principal : ApiKey → Principal
service_principal k = record {
  kind = service;
  key_id = k.id;
  user_id = "";
  is_admin = false;
  key_scope = k.scope;
}

module _ {D L : Type 0} (hash_api_key : String → String) where
  -- The goroutine that touches the key runs at once here.
  abbrev pub on_lookup : Reply ApiKey → M (Env D L) Admission
  on_lookup (err not_found) = return (refused 401)
  on_lookup (err e) = return (refused 500)
  on_lookup (ok k) = do
    ignore (query (touch_api_key_last_used k.id))
    return (admitted (service_principal k))

  abbrev pub on_bearer : Option String → M (Env D L) Admission
  on_bearer none = return (refused 401)
  on_bearer (some raw) = do
    found ← try (query (lookup_active_api_key_by_hash (hash_api_key raw)))
    on_lookup found

  unfoldable pub auth : String → M (Env D L) Admission
  auth header = on_bearer (extract_bearer header)

-- GetPrincipal.
abbrev pub get_principal : Admission → Option Principal
get_principal (refused status) = none
get_principal (admitted p) = some p
