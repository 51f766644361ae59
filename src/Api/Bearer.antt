-- ===== src/Api/Bearer.antt =====
-- internal/api/middleware/middleware.go: the key that an Authorization header carries, with the
-- functions of package strings that it calls.
use Prim.Native.Char.{Char, code}
use discord_support_hub.Prelude.{
  cons_filled, within, split_first, concat, lower, String, Bool, true, false, ◌==◌, ◌&&◌, ◌||◌, not,
  Option, none, some, ◌≡◌, arith, leb, ap, ◌∙◌, if◌then◌else◌,
}

-- unicode.IsSpace.
abbrev pub is_space : Char → Bool
is_space c =
    within 9 13 (code c)
    || within 32 32 (code c)
    || within 0x85 0x85 (code c)
    || within 0xA0 0xA0 (code c)
    || within 0x1680 0x1680 (code c)
    || within 0x2000 0x200A (code c)
    || within 0x2028 0x2029 (code c)
    || within 0x202F 0x202F (code c)
    || within 0x205F 0x205F (code c)
    || within 0x3000 0x3000 (code c)

unfoldable pub trim_left : String → String
trim_left String.[] = ""
trim_left (String.◌∷◌ c s) = let rest = trim_left s in if is_space c then rest else String.◌∷◌ c s

unfoldable pub trim_right : String → String
trim_right String.[] = ""
trim_right (String.◌∷◌ c s) =
    let rest = trim_right s in if is_space c && rest == "" then "" else String.◌∷◌ c rest

unfoldable pub trim_space : String → String
trim_space s = trim_right (trim_left s)

-- EqualFold: no character but an ASCII letter folds to a letter of "bearer".
unfoldable pub equal_fold : String → String → Bool
equal_fold String.[] String.[] = true
equal_fold String.[] (String.◌∷◌ d t) = false
equal_fold (String.◌∷◌ c s) String.[] = false
equal_fold (String.◌∷◌ c s) (String.◌∷◌ d t) =
    let rest = equal_fold s t in
    leb (lower (code c)) (lower (code d)) && leb (lower (code d)) (lower (code c)) && rest

abbrev pub token_of_parts : Option (String × String) → Option String
token_of_parts none = none
token_of_parts (some (scheme, after)) =
    if not (equal_fold scheme "bearer") || trim_space after == ""
    then none
    else some (trim_space after)

unfoldable pub extract_bearer : String → Option String
extract_bearer header =
    if trim_space header == "" then none else token_of_parts (split_first 32 (trim_space header))

trim_right_keeps :
    (c : Char) (s : String)
    → (trim_right s == "") ≡ false
    → (trim_right (String.◌∷◌ c s) ≡ String.◌∷◌ c (trim_right s))
      × ((trim_right (String.◌∷◌ c s) == "") ≡ false)
unfolding trim_right
trim_right_keeps c s h = ground (arith, h, cons_filled c (trim_right s))

trim_right-concat :
    (s t : String)
    → (t == "") ≡ false
    → trim_right t ≡ t
    → (trim_right (concat s t) ≡ concat s t) × ((trim_right (concat s t) == "") ≡ false)
unfolding concat
trim_right-concat String.[] t filled right = (right, rw right filled)
trim_right-concat (String.◌∷◌ c s) t filled right =
    let rest = trim_right-concat s t filled right in
    let step = trim_right_keeps c (concat s t) rest.1 in (step.0 ∙ ap (String.◌∷◌ c) rest.0, step.1)

-- A key that is not empty and has no white space at either end is read back from the header that
-- carries it under the scheme Bearer.
pub extract_bearer-roundtrip :
    (key : String)
    → (key == "") ≡ false
    → trim_left key ≡ key
    → trim_right key ≡ key
    → extract_bearer (concat "Bearer " key) ≡ some key
unfolding extract_bearer split_first equal_fold trim_space trim_left concat
extract_bearer-roundtrip key filled left right =
    let header = (trim_right-concat "Bearer " key filled right).0 in
    let trimmed : trim_space key ≡ key = ap trim_right left ∙ right in
    rw header (ground (arith, trimmed, filled, cons_filled "B" (concat "earer " key)))
