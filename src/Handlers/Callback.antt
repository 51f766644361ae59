-- ===== src/Handlers/Callback.antt =====
-- internal/api/handlers/transversal.go: OAuthDiscordCallback, where a state manager, a token store
-- and a queue are wired. The nonces and the servers of Discord's OAuth are the Valkey side here.
pub mod Bound
use discord_support_hub.Prelude.{
  ℕ, ◌+◌, String, Bool, ◌==◌, Option, none, some, List, [], ◌∷◌, ltb, if◌then◌else◌,
}
use discord_support_hub.Domain.{SpaceMember, OauthToken, Fields}
use discord_support_hub.Store.Db.{Reply, ok, err, conflict}
use discord_support_hub.Effects.{Env, M, ◌>>=◌, ◌>>◌, return, try, query, locking}
use discord_support_hub.Store.Users.{update_discord_user_id}
use discord_support_hub.Store.Members.{list_collaborator_channels}
use discord_support_hub.Secrets.{Aead, Encrypter}
use discord_support_hub.Oauth.Nonces.{NonceStore}
use discord_support_hub.Oauth.State.{Codec, validate}
use discord_support_hub.Oauth.Tokens.{store_tokens}
use discord_support_hub.Oauth.Exchange.{
  HttpClient, Decoders, ExchangeConfig, TokenResponse, DiscordUserResponse, exchange_code,
  fetch_discord_user,
}
use discord_support_hub.Worker.Relay.{TaskQueue}
use discord_support_hub.Handlers.Common.{Response, problem, enqueue}

-- What the handler reads of the request; `wants_json` is whether Accept contains application/json.
-- `token_id`, `nonce` and `nonce'` are what the database and `rand` draw for the tokens, and
-- `task_id` what asynq draws for the task of a space.
pub record CallbackRequest : Type 0 where
  pub state : String
  pub code : String
  pub wants_json : Bool
  pub token_id : String
  pub nonce : Option String
  pub nonce' : Option String
  pub task_id : String → String

abbrev pub expiry : ℕ → ℕ → Option ℕ
expiry now expires_in = if ltb 0 expires_in then some (now + expires_in) else none

-- What `NewHandlers` is given of the state manager, the HTTP client, the token store and the queue.
pub record Wiring (Q L : Type 0) : Type 0 where
  pub codec : Codec
  pub nonces : NonceStore L
  pub secret : String
  pub http : HttpClient L
  pub decoders : Decoders
  pub exchange : ExchangeConfig
  pub aead : Aead
  pub encrypter : Encrypter
  pub queue : TaskQueue Q

module _ {Q L : Type 0} (w : Wiring Q L) where
  -- A row whose overwrite is applied is passed over, and the answer of the queue is dropped.
  unfoldable pub enqueue_members :
      CallbackRequest → String → List SpaceMember → M (Env Q L) (Unit {0})
  enqueue_members r user [] = return tt
  enqueue_members r user (sm ∷ members) =
      let rest = enqueue_members r user members in
      if sm.overwrite_applied
      then rest
      else enqueue w.queue "membership:invite_collaborator" "membership"
          (("space_id", sm.space_id) ∷ ("user_id", user) ∷ ("invited_by", "") ∷ [])
          (r.task_id sm.space_id)
        >> rest

  abbrev pub enqueue_listed :
      CallbackRequest → String → Reply (List SpaceMember) → M (Env Q L) (Unit {0})
  enqueue_listed r user (err x) = return tt
  enqueue_listed r user (ok members) = enqueue_members r user members

  unfoldable pub enqueue_pending_invites : CallbackRequest → String → M (Env Q L) (Unit {0})
  enqueue_pending_invites r user = do
    members ← try (query (list_collaborator_channels user))
    enqueue_listed r user members

  abbrev pub success : CallbackRequest → DiscordUserResponse → Response
  success r du =
      if r.wants_json
      then (200, ("code", "connected") ∷ ("discord_user_id", du.id) ∷ [])
      else (302, [])

  abbrev pub on_stored :
      CallbackRequest → String → DiscordUserResponse → Reply OauthToken → M (Env Q L) Response
  on_stored r user du (err x) = problem 500 "token_store_failed"
  on_stored r user du (ok row) = enqueue_pending_invites r user >> return (success r du)

  unfoldable pub store_and_enqueue :
      CallbackRequest → String → TokenResponse → DiscordUserResponse → M (Env Q L) Response
  store_and_enqueue r user tr du e =
      let saved =
        store_tokens w.aead w.encrypter r.token_id r.nonce r.nonce' user tr.access_token
          tr.refresh_token tr.scope (expiry e.now tr.expires_in) e in
      on_stored r user du saved.0 saved.1

  -- A failure other than a conflict is logged, and the tokens are stored all the same.
  abbrev pub on_linked :
      CallbackRequest
      → String
      → TokenResponse
      → DiscordUserResponse
      → Reply (Unit {0})
      → M (Env Q L) Response
  on_linked r user tr du (err conflict) = problem 409 "discord_id_conflict"
  on_linked r user tr du linked = store_and_enqueue r user tr du

  abbrev pub on_identity :
      CallbackRequest → String → TokenResponse → Reply DiscordUserResponse → M (Env Q L) Response
  on_identity r user tr (err x) = problem 502 "discord_user_fetch_failed"
  on_identity r user tr (ok du) = do
    linked ← try (query (update_discord_user_id user du.id))
    on_linked r user tr du linked

  abbrev pub on_tokens : CallbackRequest → String → Reply TokenResponse → M (Env Q L) Response
  on_tokens r user (err x) = problem 502 "token_exchange_failed"
  on_tokens r user (ok tr) = do
    identity ← try (fetch_discord_user w.http w.decoders tr.access_token)
    on_identity r user tr identity

  abbrev pub on_state : CallbackRequest → Reply String → M (Env Q L) Response
  on_state r (err x) = problem 400 "invalid_state"
  on_state r (ok user) = if r.code == "" then problem 400 "oauth_error" else (do
    tokens ← try (exchange_code w.http w.decoders w.exchange r.code)
    on_tokens r user tokens)

  -- The state token is consumed before anything else is touched.
  abbrev pub redeem_state : String → M (Env Q L) String
  redeem_state state e = locking (validate w.codec w.nonces w.secret e.now state) e

  unfoldable pub oauth_discord_callback : CallbackRequest → M (Env Q L) Response
  oauth_discord_callback r = do user ← try (redeem_state r.state); on_state r user
