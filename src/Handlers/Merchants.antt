-- ===== src/Handlers/Merchants.antt =====
-- internal/api/handlers/merchants.go: RegisterMerchant. The parser of package net/url is an
-- argument.
pub mod Registered
use discord_support_hub.Prelude.{
  ℕ, String, Bool, true, false, not, ◌==◌, ◌&&◌, ◌||◌, Option, none, some, List, [], ◌∷◌,
  if◌then◌else◌,
}
use discord_support_hub.Domain.{Merchant, Fields}
use discord_support_hub.Store.Db.{Reply, ok, err, conflict}
use discord_support_hub.Store.Merchants.{CreateMerchantParams, create_merchant}
use discord_support_hub.Effects.{Env, M, ◌>>=◌, return, try, query}
use discord_support_hub.Api.Auth.{Principal}
use discord_support_hub.Api.Bearer.{trim_space}
use discord_support_hub.Handlers.Validation.{has_unsafe_rune}
use discord_support_hub.Handlers.Common.{Response, problem, if_control_plane, Ids}

pub record MerchantBody : Type 0 where
  pub external_ref : String
  pub name : String
  pub help_desk_url : Option String

-- `body` is none where it does not bind.
pub record MerchantRequest : Type 0 where
  pub principal : Option Principal
  pub body : Option MerchantBody
  pub ids : Ids

-- What the handler reads of a URL that is parsed.
pub record ParsedUrl : Type 0 where
  pub scheme : String
  pub host : String

abbrev pub link_valid : Option ParsedUrl → Bool
link_valid none = false
link_valid (some u) = (u.scheme == "http" || u.scheme == "https") && not (u.host == "")

abbrev pub help_desk_url_valid : (String → Option ParsedUrl) → Option String → Bool
help_desk_url_valid parse none = true
help_desk_url_valid parse (some raw) = link_valid (parse raw)

abbrev pub trimmed : MerchantBody → CreateMerchantParams
trimmed b = record {
  external_ref = trim_space b.external_ref;
  name = trim_space b.name;
  help_desk_url = b.help_desk_url;
}

abbrev pub merchant_valid : (ℕ → Bool) → (String → Option ParsedUrl) → CreateMerchantParams → Bool
merchant_valid is_format parse p =
    not (p.external_ref == "")
    && not (p.name == "")
    && not (has_unsafe_rune is_format p.external_ref)
    && not (has_unsafe_rune is_format p.name)
    && help_desk_url_valid parse p.help_desk_url

abbrev pub link_fields : Option String → Fields
link_fields none = []
link_fields (some url) = ("help_desk_url", url) ∷ []

abbrev pub to_merchant_response : Merchant → Fields
to_merchant_response m =
    ("id", m.id)
    ∷ ("external_ref", m.external_ref)
    ∷ ("name", m.name)
    ∷ ("is_active", if m.is_active then "true" else "false")
    ∷ link_fields m.help_desk_url

module _ {Q L : Type 0} (is_format : ℕ → Bool) (parse : String → Option ParsedUrl) where
  abbrev pub on_registered : Reply Merchant → M (Env Q L) Response
  on_registered (err conflict) = problem 409 "conflict"
  on_registered (err e) = problem 500 "internal_error"
  on_registered (ok m) = return (201, to_merchant_response m)

  abbrev pub on_merchant_body : MerchantRequest → Option MerchantBody → M (Env Q L) Response
  on_merchant_body r none = problem 400 "validation_error"
  on_merchant_body r (some b) =
      if merchant_valid is_format parse (trimmed b)
      then (do made ← try (query (create_merchant r.ids.merchant (trimmed b))); on_registered made)
      else problem 400 "validation_error"

  unfoldable pub register_merchant : MerchantRequest → M (Env Q L) Response
  register_merchant r = if_control_plane r.principal (on_merchant_body r r.body)
