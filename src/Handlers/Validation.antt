-- ===== src/Handlers/Validation.antt =====
-- internal/api/handlers: the checks of what a request carries. The tables of package unicode, of
-- the format and private-use characters, are an argument.
use Prim.Native.Char.{code}
use Prim.Native.String.{len}
use discord_support_hub.Prelude.{
  ℕ, suc, String, Bool, true, false, not, ◌==◌, ◌&&◌, ◌||◌, Option, none, some, ltb, within,
  is_char, has_char, split_first, if◌then◌else◌,
}
use discord_support_hub.Api.Bearer.{trim_space}

unfoldable pub has_unsafe_rune : (ℕ → Bool) → String → Bool
has_unsafe_rune is_format String.[] = false
has_unsafe_rune is_format (String.◌∷◌ c s) =
    ltb (code c) 0x20
    || within 0x7F 0x7F (code c)
    || is_format (code c)
    || has_unsafe_rune is_format s

unfoldable pub all_digits : String → Bool
all_digits String.[] = true
all_digits (String.◌∷◌ c s) = within 48 57 (code c) && all_digits s

unfoldable pub is_numeric_snowflake : String → Bool
is_numeric_snowflake s = not (s == "") && all_digits s

unfoldable pub is_hex_rune : ℕ → Bool
is_hex_rune c = within 48 57 c || within 97 102 c || within 65 70 c

abbrev pub is_dash_place : ℕ → Bool
is_dash_place i = within 8 8 i || within 13 13 i || within 18 18 i || within 23 23 i

-- The characters from a place on.
unfoldable pub uuid_from : ℕ → String → Bool
unfolding is_hex_rune
uuid_from i String.[] = true
uuid_from i (String.◌∷◌ c s) =
    let rest = uuid_from (suc i) s in
    (if is_dash_place i then is_char 45 c else is_hex_rune (code c)) && rest

unfoldable pub is_valid_uuid : String → Bool
is_valid_uuid s = within 36 36 (len s) && uuid_from 0 s

-- The parts at the first @.
abbrev pub email_parts_valid : Option (String × String) → Bool
email_parts_valid none = false
email_parts_valid (some (before, after)) =
    not (before == "") && not (after == "") && has_char 46 after

unfoldable pub is_email : (ℕ → Bool) → String → Bool
is_email is_format s = email_parts_valid (split_first 64 s) && not (has_unsafe_rune is_format s)

abbrev pub category_valid : Option String → Bool
category_valid none = true
category_valid (some c) = is_numeric_snowflake c

-- The trimmed name, or none where the request is not valid; lengths are in bytes.
unfoldable pub validate_provision_request : (ℕ → Bool) → String → Option String → Option String
validate_provision_request is_format name category =
    if trim_space name == ""
    then none
    else if ltb 100 (len (trim_space name))
    then none
    else if has_unsafe_rune is_format (trim_space name)
    then none
    else if category_valid category
    then some (trim_space name)
    else none
