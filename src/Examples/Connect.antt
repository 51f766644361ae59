-- ===== src/Examples/Connect.antt =====
-- The state tokens and the stored tokens at concrete inputs.
use discord_support_hub.Prelude.{
  ℕ, zero, suc, ◌+◌, String, Option, none, some, [], ◌∷◌, ◌≡◌, ◌≢◌, refl, arith, ◌⊎◌, split_first,
  find, insert, lookup, concat,
}
use Prim.Native.String.{len}
use Prim.Native.String.len
use discord_support_hub.Store.Tokens.{upsert_oauth_token, new_token}
use discord_support_hub.Store.Db.{ok}
use discord_support_hub.Effects.{Env, calm, query}
use discord_support_hub.Prelude.{contains_folded, starts_folded}
use discord_support_hub.Secrets.{
  Aead, IsAead, Encrypter, encrypt, redact_map, redact_log_attr, redacts_alike,
}
use discord_support_hub.Oauth.Nonces.{
  MemNonces, mem_nonce_store, mem_nonce_store-IsNonceStore, mem_set_nonce, mem_consume_nonce,
  IsNonceStore, valkey_nonce_store, valkey_nonce_store-IsNonceStore,
}
use discord_support_hub.Oauth.State.{issue, validate, signed_state, StatePayload}
use discord_support_hub.Oauth.Redeem.{validate-issue, validate-IsSigned, validate-IsSingleUse}
use discord_support_hub.Oauth.Tokens.{
  store_tokens, load_access_token, load_access_token-store_tokens, token_params,
}
use discord_support_hub.Examples.Codec.{plain_codec, plain_codec-IsCodec}
use discord_support_hub.Examples.MemoryValkey.{memory_valkey, memory_valkey-IsValkey}
use discord_support_hub.Examples.Hub.{hub_db}

valkey_nonce_store-IsNonceStore_example : IsNonceStore (valkey_nonce_store memory_valkey)
valkey_nonce_store-IsNonceStore_example =
    valkey_nonce_store-IsNonceStore memory_valkey memory_valkey-IsValkey

abbrev pub token : String
token =
    signed_state plain_codec mem_nonce_store "secret"
      (record { nonce = "n1"; user_id = "u1"; issued_at = 2 })

-- The nonces after the token was issued.
unfoldable pub issued : MemNonces
issued = (issue plain_codec mem_nonce_store "secret" 2 (some "n1") "u1" []).1

validate-issue_example :
    (validate plain_codec mem_nonce_store "secret" 700 token issued).0 ≡ ok "u1"
unfolding issue mem_nonce_store mem_set_nonce mem_consume_nonce issued lookup insert
validate-issue_example =
    validate-issue plain_codec plain_codec-IsCodec mem_nonce_store mem_nonce_store-IsNonceStore
      "secret" 2 700 "n1" "u1" token [] issued (some "u1") refl (omega arith) (omega arith) refl
      refl

validate-IsSingleUse_example :
    (validate plain_codec mem_nonce_store "secret" 800 token
      (validate plain_codec mem_nonce_store "secret" 700 token issued).1).0
    ≢ ok "u1"
validate-IsSingleUse_example =
    validate-IsSingleUse plain_codec plain_codec-IsCodec mem_nonce_store
      mem_nonce_store-IsNonceStore "secret" 700 800 token "u1" "u1" issued validate-issue_example

validate-IsSigned_example :
    (a b json stored : String) × (p : StatePayload) × (split_first 46 token ≡ some (a, b))
    × (plain_codec.decode a ≡ some json)
    × (plain_codec.decode b ≡ some (plain_codec.hmac "secret" json))
    × (plain_codec.unmarshal json ≡ some p)
    × (p.user_id ≡ "u1")
    × (mem_nonce_store.bound 700 p.nonce issued ≡ some stored)
    × ((stored ≡ "") ⊎ (stored ≡ "u1"))
validate-IsSigned_example =
    validate-IsSigned plain_codec plain_codec-IsCodec mem_nonce_store mem_nonce_store-IsNonceStore
      "secret" 700 token "u1" issued validate-issue_example

-- A cipher that puts sixteen letters before the text.
abbrev pub tag : String
tag = "0123456789abcdef"

abbrev pub strip : ℕ → String → Option String
strip zero s = some s
strip (suc n) String.[] = none
strip (suc n) (String.◌∷◌ c s) = strip n s

abbrev pub tagged : Aead
tagged = record { seal = λ k n p. concat tag p; open_sealed = λ k n c. strip 16 c }

len-tag : (p : String) → len (concat tag p) ≡ 16 + len p
unfolding concat
len-tag p = simp len.cons (omega arith)

pub tagged-IsAead : IsAead tagged
unfolding concat
tagged-IsAead = record { opens = λ k n p. refl; tagged = λ k n p. ground (arith, len-tag p) }

abbrev pub encrypter : Encrypter
encrypter = record { key_version = 1; key = "0123456789abcdef0123456789abcdef" }

abbrev caller : Env (Unit {0}) (Unit {0})
caller = record { db = hub_db none; faults = []; now = 9; discord = tt; locks = tt }

-- The table after Ann's tokens were stored.
with_tokens : Env (Unit {0}) (Unit {0})
with_tokens =
    (store_tokens tagged encrypter "o1" (some "n") (some "n'") "u1" "access" "refresh" "identify"
      none caller).1

load_access_token-store_tokens_example :
    (load_access_token tagged encrypter "u1" (calm with_tokens)).0 ≡ ok "access"
unfolding with_tokens store_tokens encrypt query upsert_oauth_token find concat
load_access_token-store_tokens_example =
    load_access_token-store_tokens tagged encrypter tagged-IsAead "o1" (some "n") (some "n'") "u1"
      "access" "refresh" "identify" none caller with_tokens
      (new_token "o1"
        (token_params "u1"
          (record { ciphertext = "0123456789abcdefaccess"; nonce = "n"; key_version = 1 })
          (some (record { ciphertext = "0123456789abcdefrefresh"; nonce = "n'"; key_version = 1 }))
          "identify" none)
        9)
      refl refl

redacts_alike_example :
    (lookup "Bot_Token" (redact_map (("id", "1") ∷ ("Bot_Token", "t") ∷ []))
      ≡ some "***REDACTED***")
    × (redact_log_attr "Bot_Token" "t" ≡ "***REDACTED***")
unfolding lookup contains_folded starts_folded
redacts_alike_example = redacts_alike "Bot_Token" "t" (("id", "1") ∷ ("Bot_Token", "t") ∷ [])
