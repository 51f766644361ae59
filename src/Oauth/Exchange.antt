-- ===== src/Oauth/Exchange.antt =====
-- internal/oauth/oauth.go: the exchange of a code for tokens and the identity behind a token, over
-- interfaces for net/http and encoding/json, which are no code of the repository.
use discord_support_hub.Prelude.{
  ℕ, String, ◌<>◌, ◌&&◌, Option, none, some, [], ◌∷◌, leb, if◌then◌else◌,
}
use discord_support_hub.Domain.{Fields}
use discord_support_hub.Store.Db.{Reply, ok, err, malformed, infrastructure}
use discord_support_hub.Effects.{Env, M, ◌>>=◌, locking}

pub record HttpRequest : Type 0 where
  pub method : String
  pub url : String
  pub headers : Fields
  pub body : Fields

pub record HttpResponse : Type 0 where
  pub status_code : ℕ
  pub body : String

-- The servers that answer are a part of the state.
pub record HttpClient (L : Type 0) : Type 0 where
  pub send : HttpRequest → L → Reply HttpResponse × L

-- `expires_in` is 0 where it is not positive.
pub record TokenResponse : Type 0 where
  pub access_token : String
  pub token_type : String
  pub expires_in : ℕ
  pub refresh_token : String
  pub scope : String

pub record ExchangeConfig : Type 0 where
  pub client_id : String
  pub client_secret : String
  pub redirect_url : String

pub record DiscordUserResponse : Type 0 where
  pub id : String
  pub username : String

-- What json.Decode makes of a body.
pub record Decoders : Type 0 where
  pub token_response : String → Option TokenResponse
  pub discord_user_response : String → Option DiscordUserResponse

abbrev pub token_request : ExchangeConfig → String → HttpRequest
token_request cfg code = record {
  method = "POST";
  url = "https://discord.com/api/oauth2/token";
  headers = ("Content-Type", "application/x-www-form-urlencoded") ∷ [];
  body =
      ("client_id", cfg.client_id)
      ∷ ("client_secret", cfg.client_secret)
      ∷ ("grant_type", "authorization_code")
      ∷ ("code", code)
      ∷ ("redirect_uri", cfg.redirect_url)
      ∷ [];
}

abbrev pub identity_request : String → HttpRequest
identity_request access_token = record {
  method = "GET";
  url = "https://discord.com/api/users/@me";
  headers = ("Authorization", "Bearer " <> access_token) ∷ [];
  body = [];
}

-- A status other than 200 is an error, and so is a body that cannot be decoded.
abbrev pub decoded : {A : Type 0} → Option A → Reply A
decoded none = err malformed
decoded (some a) = ok a

abbrev pub decode_body : {A : Type 0} → (String → Option A) → HttpResponse → Reply A
decode_body decode resp =
    if leb resp.status_code 200 && leb 200 resp.status_code
    then decoded (decode resp.body)
    else err infrastructure

abbrev pub give : {S A : Type 0} → Reply A → M S A
give r s = (r, s)

module _ {D L : Type 0} (http : HttpClient L) (decoders : Decoders) where
  unfoldable pub exchange_code : ExchangeConfig → String → M (Env D L) TokenResponse
  exchange_code cfg code = do
    resp ← locking (http.send (token_request cfg code))
    give (decode_body decoders.token_response resp)

  unfoldable pub fetch_discord_user : String → M (Env D L) DiscordUserResponse
  fetch_discord_user access_token = do
    resp ← locking (http.send (identity_request access_token))
    give (decode_body decoders.discord_user_response resp)
