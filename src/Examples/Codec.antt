-- ===== src/Examples/Codec.antt =====
-- A codec that meets the laws: a text is written in pairs of characters without dots, a payload with
-- dots between its parts.
use Prim.Native.Char.{Char}
use text.Mathlib.TextEquality.{Char-path}
use discord_support_hub.Prelude.{
  ℕ, zero, suc, String, Bool, true, false, Option, none, some, ◌≡◌, refl, arith, ap, has_char,
  is_char, concat, split_first, split_first-concat, Bool-cases, inl, inr, if◌then◌else◌,
}
use discord_support_hub.Oauth.State.{StatePayload, Codec, IsCodec}

abbrev pair : Bool → Char → String → String
pair true c s = String.◌∷◌ "a" (String.◌∷◌ "a" s)
pair false c s = String.◌∷◌ "b" (String.◌∷◌ c s)

unfoldable pub encode : String → String
encode String.[] = ""
encode (String.◌∷◌ c s) = pair (is_char 46 c) c (encode s)

abbrev unpair : Char → Char → Char
unpair x y = if is_char 97 x then "." else y

abbrev cons_to : Char → Option String → Option String
cons_to c none = none
cons_to c (some s) = some (String.◌∷◌ c s)

unfoldable pub decode : String → Option String
decode String.[] = some ""
decode (String.◌∷◌ x String.[]) = none
decode (String.◌∷◌ x (String.◌∷◌ y s)) = cons_to (unpair x y) (decode s)

decode-encode : (s : String) → decode (encode s) ≡ some s
unfolding decode encode
decode-encode String.[] = refl
decode-encode (String.◌∷◌ c s) = elim (Bool-cases (is_char 46 c)) [
  | inl dot ↦ rw dot (
      rw (decode-encode s)
        (ap (λ d. some (String.◌∷◌ d s)) (Char-path "." c (ground (arith, dot)))))
  | inr other ↦ rw other (rw (decode-encode s) refl)
]

encode_clear : (s : String) → has_char 46 (encode s) ≡ false
unfolding encode has_char
encode_clear String.[] = refl
encode_clear (String.◌∷◌ c s) = elim (Bool-cases (is_char 46 c)) [
  | inl dot ↦ rw dot (encode_clear s)
  | inr other ↦ ground (arith, other, encode_clear s)
]

-- The time, as so many letters.
unfoldable pub ticks : ℕ → String
ticks zero = ""
ticks (suc n) = String.◌∷◌ "t" (ticks n)

unfoldable pub count_ticks : String → ℕ
count_ticks String.[] = 0
count_ticks (String.◌∷◌ c s) = suc (count_ticks s)

count-ticks : (n : ℕ) → count_ticks (ticks n) ≡ n
unfolding count_ticks ticks
count-ticks zero = refl
count-ticks (suc n) = ap suc (count-ticks n)

unfoldable pub marshal : StatePayload → String
marshal p =
    concat (encode p.nonce)
      (String.◌∷◌ "." (concat (encode p.user_id) (String.◌∷◌ "." (ticks p.issued_at))))

abbrev payload_of : Option String → Option String → String → Option StatePayload
payload_of none u t = none
payload_of (some n) none t = none
payload_of (some n) (some u) t = some (record { nonce = n; user_id = u; issued_at = count_ticks t })

abbrev with_user : Option String → Option (String × String) → Option StatePayload
with_user n none = none
with_user n (some (user, time)) = payload_of n (decode user) time

abbrev with_nonce : Option (String × String) → Option StatePayload
with_nonce none = none
with_nonce (some (nonce, rest)) = with_user (decode nonce) (split_first 46 rest)

unfoldable pub unmarshal : String → Option StatePayload
unmarshal s = with_nonce (split_first 46 s)

unmarshal-marshal : (p : StatePayload) → unmarshal (marshal p) ≡ some p
unfolding unmarshal marshal
unmarshal-marshal p =
    let rest = concat (encode p.user_id) (String.◌∷◌ "." (ticks p.issued_at)) in
    rw (split_first-concat 46 "." (encode p.nonce) rest (ground arith) (encode_clear p.nonce)) (
      rw
        (split_first-concat 46 "." (encode p.user_id) (ticks p.issued_at) (ground arith)
          (encode_clear p.user_id))
        (simp (decode-encode, count-ticks) refl))

-- The signature shows the text under the secret.
unfoldable pub plain_codec : Codec
plain_codec = record {
  encode = encode;
  decode = decode;
  marshal = marshal;
  unmarshal = unmarshal;
  hmac = concat;
}

pub plain_codec-IsCodec : IsCodec plain_codec
unfolding plain_codec
plain_codec-IsCodec = record {
  decodes = decode-encode;
  has_no_dot = encode_clear;
  reads = unmarshal-marshal;
}
