-- ===== src/Prelude/Chars.antt =====
-- Texts by their characters: concatenation, the first separator, lower case and substrings.
use Prim.Native.Char.{Char, code}
use Prim.Native.Nat.{ℕ, ◌+◌}
use Prim.Native.String.{String}
use Prim.Native.String.compare
use text.Mathlib.Text.{◌==◌, is_eq}
use mathlib.Core.Path.{◌≡◌, ap}
use mathlib.Core.Bool.{Bool, true, false, ◌&&◌, ◌||◌}
use mathlib.Core.Option.{Option, none, some}
use native.Mathlib.Omega.{arith}
use discord_support_hub.Prelude.Tests.{leb, if◌then◌else◌}

abbrev pub within : ℕ → ℕ → ℕ → Bool
within low high c = leb low c && leb c high

abbrev pub is_char : ℕ → Char → Bool
is_char n c = within n n (code c)

unfoldable pub concat : String → String → String
concat String.[] t = t
concat (String.◌∷◌ c s) t = String.◌∷◌ c (concat s t)

-- SplitN(s, sep, 2) for a separator of one character: none where it gives a single part.
unfoldable pub split_first : ℕ → String → Option (String × String)
split_first sep String.[] = none
split_first sep (String.◌∷◌ c s) =
    let rest = split_first sep s in
    if is_char sep c
    then some ("", s)
    else elim rest [ none ↦ none | some (before, after) ↦ some (String.◌∷◌ c before, after) ]

unfoldable pub has_char : ℕ → String → Bool
has_char n String.[] = false
has_char n (String.◌∷◌ c s) = is_char n c || has_char n s

pub split_first-concat :
    (sep : ℕ) (c : Char) (s t : String)
    → is_char sep c ≡ true
    → has_char sep s ≡ false
    → split_first sep (concat s (String.◌∷◌ c t)) ≡ some (s, t)
unfolding split_first concat has_char
split_first-concat sep c String.[] t here clear = ground (arith, here)
split_first-concat sep c (String.◌∷◌ d s) t here clear =
    ground (arith, split_first-concat sep c s t here, clear)

pub cons_filled : (c : Char) (s : String) → (String.◌∷◌ c s == "") ≡ false
cons_filled c s = ap is_eq (compare.cons-nil c s)

pub concat_filled : (s t : String) → (t == "") ≡ false → (concat s t == "") ≡ false
unfolding concat
concat_filled String.[] t h = h
concat_filled (String.◌∷◌ c s) t h = cons_filled c (concat s t)

-- unicode.ToLower, where its answer is a character of ASCII: the Kelvin sign and the dotted I too.
abbrev pub lower : ℕ → ℕ
lower c =
    if within 65 90 c
    then c + 32
    else if within 0x212A 0x212A c
    then 107
    else if within 0x130 0x130 c
    then 105
    else c

-- Whether the text starts with the other, in any case.
unfoldable pub starts_folded : String → String → Bool
starts_folded String.[] s = true
starts_folded (String.◌∷◌ d t) String.[] = false
starts_folded (String.◌∷◌ d t) (String.◌∷◌ c s) =
    let rest = starts_folded t s in
    leb (lower (code c)) (lower (code d)) && leb (lower (code d)) (lower (code c)) && rest

-- strings.Contains(strings.ToLower(s), t).
unfoldable pub contains_folded : String → String → Bool
contains_folded t String.[] = starts_folded t ""
contains_folded t (String.◌∷◌ c s) =
    let rest = contains_folded t s in starts_folded t (String.◌∷◌ c s) || rest
