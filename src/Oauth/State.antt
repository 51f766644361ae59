-- ===== src/Oauth/State.antt =====
-- internal/oauth/oauth.go: the state tokens that bind a callback to the user that it was issued for.
use discord_support_hub.Prelude.{
  ℕ, String, false, ◌==◌, ◌&&◌, not, Option, none, some, ◌≡◌, concat, split_first, has_char,
  if◌then◌else◌,
}
use discord_support_hub.Store.Db.{Reply, ok, err, malformed, infrastructure}
use discord_support_hub.Effects.{M}
use discord_support_hub.Oauth.Nonces.{NonceStore}

pub record StatePayload : Type 0 where
  pub nonce : String
  pub user_id : String
  pub issued_at : ℕ

-- base64.RawURLEncoding, encoding/json at the payload, and HMAC-SHA256 under a secret.
pub record Codec : Type 0 where
  pub encode : String → String
  pub decode : String → Option String
  pub marshal : StatePayload → String
  pub unmarshal : String → Option StatePayload
  pub hmac : String → String → String

-- Their documented behaviour: they are read back, and an encoding has no dot.
pub record IsCodec (codec : Codec) : Type 0 where
  pub decodes : (x : String) → codec.decode (codec.encode x) ≡ some x
  pub has_no_dot : (x : String) → has_char 46 (codec.encode x) ≡ false
  pub reads : (p : StatePayload) → codec.unmarshal (codec.marshal p) ≡ some p

-- 15 minutes in seconds.
abbrev pub state_ttl : ℕ
state_ttl = 900

module _ {N : Type 0} (codec : Codec) (nonces : NonceStore N) (secret : String) where
  abbrev pub signed_state : StatePayload → String
  signed_state p =
      concat (codec.encode (codec.marshal p))
        (String.◌∷◌ "." (codec.encode (codec.hmac secret (codec.marshal p))))

  abbrev pub persisted : Reply (Unit {0}) → String → Reply String
  persisted (err e) state = err e
  persisted (ok done) state = ok state

  -- The nonce that `rand` gives, none where it fails.
  unfoldable pub issue : ℕ → Option String → String → M N String
  issue now none user s = (err infrastructure, s)
  issue now (some n) user s = (
    persisted (nonces.set_nonce now n user state_ttl s).0
        (signed_state (record { nonce = n; user_id = user; issued_at = now })),
    (nonces.set_nonce now n user state_ttl s).1,
  )

  -- The nonce must be bound to the payload's user.
  abbrev pub check_binding : Reply (Option String) → StatePayload → Reply String
  check_binding (err e) p = err e
  check_binding (ok none) p = err malformed
  check_binding (ok (some user)) p =
      if not (user == "") && not (user == p.user_id) then err malformed else ok p.user_id

  abbrev pub redeem : ℕ → Option StatePayload → M N String
  redeem now none s = (err malformed, s)
  redeem now (some p) s = (
    check_binding (nonces.consume_nonce now p.nonce s).0 p,
    (nonces.consume_nonce now p.nonce s).1,
  )

  abbrev pub check_signature : ℕ → Option String → Option String → M N String
  check_signature now none sig s = (err malformed, s)
  check_signature now (some json) none s = (err malformed, s)
  check_signature now (some json) (some sig) s =
      if sig == codec.hmac secret json
      then redeem now (codec.unmarshal json) s
      else (err malformed, s)

  abbrev pub check_parts : ℕ → Option (String × String) → M N String
  check_parts now none s = (err malformed, s)
  check_parts now (some (payload, sig)) s =
      check_signature now (codec.decode payload) (codec.decode sig) s

  unfoldable pub validate : ℕ → String → M N String
  validate now state s =
      if state == "" then (err malformed, s) else check_parts now (split_first 46 state) s
