-- ===== src/Worker/Nickname/Fits.antt =====
-- A nickname fits into Discord's limit and carries the suffix once.
use discord_support_hub.Prelude.{
  ℕ, zero, suc, ◌+◌, ◌-◌, ◌≤◌, String, true, false, ◌==◌, ◌≡◌, refl, arith, concat, leb, eq_refl,
  concat_filled, cons_filled, Bool-cases, inl, inr,
}
use discord_support_hub.Worker.Nickname.{
  runes, take_runes, has_suffix, build_nickname, spaced, discord_nick_max,
}

runes-concat : (s t : String) → runes (concat s t) ≡ runes s + runes t
unfolding runes concat
runes-concat String.[] t = omega arith
runes-concat (String.◌∷◌ c s) t = omega (arith, runes-concat s t)

runes_cons : (s : String) → runes (spaced s) ≡ suc (runes s)
unfolding runes
runes_cons s = refl

runes-take_runes : (n : ℕ) (s : String) → runes (take_runes n s) ≤ n
unfolding runes take_runes
runes-take_runes zero s = omega arith
runes-take_runes (suc n) String.[] = omega arith
runes-take_runes (suc n) (String.◌∷◌ c s) = omega (arith, runes-take_runes n s)

has_suffix-concat : (s t : String) → has_suffix t (concat s t) ≡ true
unfolding has_suffix concat
has_suffix-concat String.[] String.[] = refl
has_suffix-concat String.[] (String.◌∷◌ c t) = ground (arith, eq_refl (String.◌∷◌ c t))
has_suffix-concat (String.◌∷◌ c s) t = ground (arith, has_suffix-concat s t)

spaced_end : (s t : String) → has_suffix t (concat s (spaced t)) ≡ true
unfolding has_suffix concat
spaced_end String.[] t = ground (arith, has_suffix-concat String.[] t)
spaced_end (String.◌∷◌ c s) t = ground (arith, spaced_end s t)

-- A name that is not empty and ends with the suffix is left as it is.
build_nickname_done :
    (d s : String) → (d == "") ≡ false → has_suffix s d ≡ true → build_nickname d s ≡ d
unfolding build_nickname
build_nickname_done d s filled ends = rw filled (rw ends refl)

abbrev IsMarked : String → String → Type 0
IsMarked s n = (runes n ≤ discord_nick_max) × (has_suffix s n ≡ true) × (build_nickname n s ≡ n)

spaced-IsMarked :
    (d s : String)
    → runes (concat d (spaced s)) ≤ discord_nick_max
    → IsMarked s (concat d (spaced s))
spaced-IsMarked d s short = (
  short,
  spaced_end d s,
  build_nickname_done (concat d (spaced s)) s (concat_filled d (spaced s) (cons_filled " " s))
      (spaced_end d s),
)

-- What a suffix of at most 30 runes is put after.
nickname_form :
    (d s : String)
    → (d == "") ≡ false
    → has_suffix s d ≡ false
    → runes s ≤ 30
    → (x : String) × (build_nickname d s ≡ concat x (spaced s))
      × (runes (concat x (spaced s)) ≤ discord_nick_max)
unfolding build_nickname
nickname_form d s filled open_end short =
    elim (Bool-cases (leb (runes (concat d (spaced s))) discord_nick_max)) [
      | inl fits ↦ (d, rw filled (rw open_end (rw fits refl)), ground (arith, fits))
      | inr long ↦
          let size : runes (spaced s) ≡ suc (runes s) = runes_cons s in
          let room : leb discord_nick_max (runes (spaced s)) ≡ false =
            ground (arith, size, short) in
          let cut = take_runes (discord_nick_max - runes (spaced s)) d in
          (
            cut,
            rw filled (rw open_end (rw long (rw room refl))),
            omega (
              arith,
              size,
              short,
              runes-concat cut (spaced s),
              runes-take_runes (discord_nick_max - runes (spaced s)) d,
            ),
          )
    ]

-- The nickname of a name that is not empty and does not end with the suffix, which has at most 30
-- runes: it has at most 32 runes and ends with the suffix, and building it again changes nothing.
pub build_nickname-IsMarked :
    (d s : String)
    → (d == "") ≡ false
    → has_suffix s d ≡ false
    → runes s ≤ 30
    → (runes (build_nickname d s) ≤ 32)
      × (has_suffix s (build_nickname d s) ≡ true)
      × (build_nickname (build_nickname d s) s ≡ build_nickname d s)
build_nickname-IsMarked d s filled open_end short =
    let (x, form, fits) = nickname_form d s filled open_end short in
    rw form (spaced-IsMarked x s fits)
