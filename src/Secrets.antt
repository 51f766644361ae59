-- ===== src/Secrets.antt =====
-- internal/secrets/secrets.go: secrets at rest, and what a log or a payload shows of them. AES-GCM,
-- base64 and the random nonces are arguments.
use discord_support_hub.Prelude.{
  ℕ, String, Bool, false, ◌||◌, ◌==◌, Option, none, some, List, [], ◌∷◌, ◌≡◌, ltb, leb, ◌&&◌,
  if◌then◌else◌, refl, arith, ap, ◌∙◌, eq_of_eq_true, contains_folded, lookup, Bool-cases, inl, inr,
}
use Prim.Native.String.{len}
use mathlib.Core.Option
use discord_support_hub.Domain.{Fields}
use discord_support_hub.Store.Db.{Reply, ok, err, malformed, infrastructure}

-- AES-256-GCM: `seal` and `open` take a key and a nonce.
pub record Aead : Type 0 where
  pub seal : String → String → String → String
  pub open_sealed : String → String → String → Option String

abbrev pub nonce_size : ℕ
nonce_size = 12

-- The documented behaviour of AES-GCM: what was sealed opens under its key and nonce, and is longer
-- than a nonce, since a tag of 16 bytes stands at its end.
pub record IsAead (aead : Aead) : Type 0 where
  pub opens :
      (key nonce plain : String)
      → aead.open_sealed key nonce (aead.seal key nonce plain) ≡ some plain
  pub tagged : (key nonce plain : String) → ltb (len (aead.seal key nonce plain)) nonce_size ≡ false

pub record EncryptedValue : Type 0 where
  pub ciphertext : String
  pub nonce : String
  pub key_version : ℕ

pub record Encrypter : Type 0 where
  pub key_version : ℕ
  pub key : String

-- The key has 32 bytes.
unfoldable pub new_encrypter_from_raw : String → ℕ → Reply Encrypter
new_encrypter_from_raw key version =
    if leb (len key) 32 && leb 32 (len key)
    then ok (record { key_version = version; key = key })
    else err malformed

abbrev pub of_decoded : Option String → ℕ → Reply Encrypter
of_decoded none version = err malformed
of_decoded (some key) version = new_encrypter_from_raw key version

-- The first argument is the decoding of base64.
unfoldable pub new_encrypter : (String → Option String) → String → ℕ → Reply Encrypter
new_encrypter decode base64_key version = of_decoded (decode base64_key) version

module _ (aead : Aead) where
  -- The nonce that `rand` gives, none where it fails.
  unfoldable pub encrypt : Encrypter → Option String → String → Reply EncryptedValue
  encrypt e none plain = err infrastructure
  encrypt e (some nonce) plain = ok (record {
    ciphertext = aead.seal e.key nonce plain;
    nonce = nonce;
    key_version = e.key_version;
  })

  abbrev pub opened : Option String → Reply String
  opened none = err malformed
  opened (some plain) = ok plain

  unfoldable pub decrypt : Encrypter → EncryptedValue → Reply String
  decrypt e v =
      if ltb (len v.ciphertext) nonce_size
      then err malformed
      else opened (aead.open_sealed e.key v.nonce v.ciphertext)

abbrev pub secret_fields : List String
secret_fields =
    "token" ∷ "authorization" ∷ "api_key" ∷ "access_token" ∷ "refresh_token" ∷ "bot_token" ∷ []

abbrev pub redacted : String
redacted = "***REDACTED***"

unfoldable pub any_field : List String → String → Bool
any_field [] key = false
any_field (f ∷ fs) key = contains_folded f key || any_field fs key

unfoldable pub is_secret_key : String → Bool
is_secret_key key = any_field secret_fields key

-- The loop of RedactLogAttr.
unfoldable pub redact_fields : List String → String → String → String
redact_fields [] key value = value
redact_fields (f ∷ fs) key value =
    let rest = redact_fields fs key value in if contains_folded f key then redacted else rest

unfoldable pub redact_log_attr : String → String → String
redact_log_attr key value = redact_fields secret_fields key value

-- The rows of the copy stand in the order of the map's.
unfoldable pub redact_map : Fields → Fields
redact_map [] = []
redact_map ((key, value) ∷ rest) =
    (key, if is_secret_key key then redacted else value) ∷ redact_map rest

-- Over an AEAD that meets its laws: a secret that was encrypted is decrypted to itself by the same
-- encrypter, under any nonce.
pub decrypt-encrypt :
    (aead : Aead) (laws : IsAead aead) (e : Encrypter) (nonce : Option String) (plain : String)
    (v : EncryptedValue)
    → encrypt aead e nonce plain ≡ ok v
    → decrypt aead e v ≡ ok plain
unfolding encrypt decrypt
decrypt-encrypt aead laws e none plain v h = absurd (ground (arith, h))
decrypt-encrypt aead laws e (some nonce) plain v h =
    ground (arith, h, laws.opens e.key nonce plain, laws.tagged e.key nonce plain)

-- A key that contains one of six words, in any case.
abbrev pub names_secret : String → Bool
names_secret key =
    contains_folded "token" key
    || (contains_folded "authorization" key
        || (contains_folded "api_key" key
            || (contains_folded "access_token" key
                || (contains_folded "refresh_token" key || contains_folded "bot_token" key))))

abbrev pub hidden : String → String → String
hidden key value = if names_secret key then "***REDACTED***" else value

secret_key_words : (key : String) → is_secret_key key ≡ names_secret key
unfolding is_secret_key any_field
secret_key_words key = ground arith

redact_log_attr-hidden : (key value : String) → redact_log_attr key value ≡ hidden key value
unfolding redact_log_attr redact_fields
redact_log_attr-hidden key value = ground arith

redact_map-hidden :
    (key : String) (fields : Fields)
    → lookup key (redact_map fields) ≡ Option.map (hidden key) (lookup key fields)
unfolding lookup redact_map
redact_map-hidden key [] = refl
redact_map-hidden key ((k, v) ∷ rest) = elim (Bool-cases (k == key)) [
  | inl same ↦ simp same (
      ap (λ j. some (if j then redacted else v))
        (secret_key_words k ∙ ap names_secret (eq_of_eq_true k key same)))
  | inr other ↦ simp other (redact_map-hidden key rest)
]

-- Of a key that contains token, authorization, api_key, access_token, refresh_token or bot_token, in
-- any case, a redacted map shows ***REDACTED*** in place of the value, and so does a redacted log
-- attribute; of any other key both show the value. A redacted map has the keys of the map.
pub redacts_alike :
    (key value : String) (fields : Fields)
    → (lookup key (redact_map fields) ≡ Option.map (hidden key) (lookup key fields))
      × (redact_log_attr key value ≡ hidden key value)
redacts_alike key value fields = (redact_map-hidden key fields, redact_log_attr-hidden key value)
