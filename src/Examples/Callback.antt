-- ===== src/Examples/Callback.antt =====
-- The callback of Ann's connection, at concrete inputs.
use discord_support_hub.Prelude.{
  String, true, none, some, List, [], ◌∷◌, ◌≡◌, ◌≢◌, refl, inl, find, lookup, insert, concat,
  split_first, update_where, select,
}
use discord_support_hub.Store.Db.{ok, err, conflict}
use discord_support_hub.Store.Users.{update_discord_user_id}
use discord_support_hub.Effects.{Env, calm, query, locking, call}
use discord_support_hub.Oauth.Nonces.{MemNonces, mem_nonce_store, mem_set_nonce, mem_consume_nonce}
use discord_support_hub.Oauth.State.{issue, validate}
use discord_support_hub.Oauth.Tokens.{load_access_token, store_tokens}
use discord_support_hub.Oauth.Exchange.{
  TokenResponse, DiscordUserResponse, exchange_code, fetch_discord_user,
}
use discord_support_hub.Secrets.{encrypt}
use discord_support_hub.Store.Tokens.{upsert_oauth_token}
use discord_support_hub.Store.Members.{list_collaborator_channels}
use discord_support_hub.Handlers.Callback.{
  Wiring, CallbackRequest, redeem_state, oauth_discord_callback, store_and_enqueue,
  enqueue_pending_invites, enqueue_members,
}
use discord_support_hub.Handlers.Callback.Bound.{oauth_discord_callback-IsBound}
use discord_support_hub.Examples.Codec.{
  plain_codec, encode, decode, marshal, unmarshal, ticks, count_ticks,
}
use discord_support_hub.Examples.Connect.{token, issued, tagged, tagged-IsAead, encrypter}
use discord_support_hub.Examples.Queue.{ids_queue}
use discord_support_hub.Examples.Hub.{hub_db}

-- Discord answers every request, and every body names the same token and the same identity.
abbrev wiring : Wiring (List String) MemNonces
wiring = record {
  codec = plain_codec;
  nonces = mem_nonce_store;
  secret = "secret";
  http = record { send = λ request n. (ok (record { status_code = 200; body = "{}" }), n) };
  decoders = record {
    token_response = λ body. some (record {
      access_token = "access";
      token_type = "Bearer";
      expires_in = 604800;
      refresh_token = "";
      scope = "identify";
    });
    discord_user_response = λ body. some (record { id = "d9"; username = "ann" });
  };
  exchange = record { client_id = "c"; client_secret = "s"; redirect_url = "r" };
  aead = tagged;
  encrypter = encrypter;
  queue = ids_queue;
}

abbrev request : CallbackRequest
request = record {
  state = token;
  code = "code";
  wants_json = true;
  token_id = "o1";
  nonce = some "n";
  nonce' = some "n'";
  task_id = λ s. s;
}

abbrev caller : Env (List String) MemNonces
caller = record { db = hub_db none; faults = []; now = 700; discord = []; locks = issued }

oauth_discord_callback-IsBound_example :
    let e1 = (redeem_state wiring token caller).1 in
    let exchanged = exchange_code wiring.http wiring.decoders wiring.exchange "code" e1 in
    (user : String) × (tr : TokenResponse) × (du : DiscordUserResponse) × ((validate plain_codec
        mem_nonce_store "secret" 700 token issued).0
      ≡ ok user)
    × (exchanged.0 ≡ ok tr)
    × ((fetch_discord_user wiring.http wiring.decoders tr.access_token exchanged.1).0 ≡ ok du)
    × ((query
          (update_discord_user_id user du.id)
          (fetch_discord_user wiring.http wiring.decoders tr.access_token exchanged.1).1).0
        ≢ err conflict)
    × ((load_access_token tagged encrypter user
          (calm (oauth_discord_callback wiring request caller).1)).0
        ≡ ok tr.access_token)
unfolding oauth_discord_callback locking validate concat plain_codec encode decode marshal unmarshal
    ticks count_ticks split_first issued issue mem_nonce_store mem_set_nonce mem_consume_nonce
    lookup insert exchange_code fetch_discord_user query update_discord_user_id find
    store_and_enqueue store_tokens encrypt upsert_oauth_token enqueue_pending_invites
    enqueue_members list_collaborator_channels call update_where select
oauth_discord_callback-IsBound_example =
    oauth_discord_callback-IsBound wiring tagged-IsAead request caller 200
      (("code", "connected") ∷ ("discord_user_id", "d9") ∷ []) refl (inl refl)
