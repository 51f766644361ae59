-- ===== src/Prelude/Table.antt =====
-- Tables as lists of rows: SELECT, UPDATE and their laws; and Go maps as association lists.
use Prim.Native.Nat.{ℕ, zero, suc}
use Prim.Native.String.{String}
use mathlib.Core.Path.{◌≡◌, refl}
use mathlib.Core.Logic.{inl, inr}
use mathlib.Core.Bool.{Bool, true, ◌&&◌}
use mathlib.Core.Option
use mathlib.Core.Option.{Option, none, some}
use mathlib.Core.List.{List, [], ◌∷◌, ◌++◌}
use native.Mathlib.Omega.{arith}
use text.Mathlib.Text.{◌==◌}
use text.Mathlib.TextEquality.{eq_iff}
use discord_support_hub.Prelude.Tests.{ltb, if◌then◌else◌, Bool-cases, is_some}

abbrev pub is_after : Option ℕ → ℕ → Bool
is_after none t = true
is_after (some c) t = ltb c t

-- The limit of a listing, where zero stands for a value that is not positive.
abbrev pub or_fifty : ℕ → ℕ
or_fifty zero = 50
or_fifty (suc n) = suc n

module _ {ℓ} {A : Type ℓ} where
  abbrev pub length : List A → ℕ
  length [] = 0
  length (x ∷ xs) = suc (length xs)

  -- SELECT … WHERE p, the first row.
  unfoldable pub find : (A → Bool) → List A → Option A
  find p [] = none
  find p (x ∷ xs) = if p x then some x else find p xs

  -- SELECT … WHERE p, all the rows.
  unfoldable pub select : (A → Bool) → List A → List A
  select p [] = []
  select p (x ∷ xs) = let rest = select p xs in if p x then x ∷ rest else rest

  abbrev pub take : ℕ → List A → List A
  take zero xs = []
  take (suc n) [] = []
  take (suc n) (x ∷ xs) = x ∷ take n xs

  -- One page of a listing: the rows that match and stand after the cursor, in the table's order,
  -- which is that of `time`, up to the limit.
  unfoldable pub page : ℕ → (A → ℕ) → Option ℕ → (A → Bool) → List A → List A
  page limit time cursor keep rows =
      take limit (select (λ r. keep r && is_after cursor (time r)) rows)

  abbrev pub revise : (A → Bool) → (A → A) → A → A
  revise p f x = if p x then f x else x

  -- UPDATE … SET f WHERE p.
  unfoldable pub update_where : (A → Bool) → (A → A) → List A → List A
  update_where p f [] = []
  update_where p f (x ∷ xs) = revise p f x ∷ update_where p f xs

  pub find-update_where :
      (q p : A → Bool) (f : A → A) (xs : List A)
      → ((x : A) → q (f x) ≡ q x)
      → find q (update_where p f xs) ≡ Option.map (revise p f) (find q xs)
  unfolding find update_where
  find-update_where q p f [] h = refl
  find-update_where q p f (x ∷ xs) h = ground (arith, h x, find-update_where q p f xs h)

  pub update_where-none :
      (p : A → Bool) (f : A → A) (xs : List A) → find p xs ≡ none → update_where p f xs ≡ xs
  unfolding find update_where
  update_where-none p f [] h = refl
  update_where-none p f (x ∷ xs) h = ground (arith, update_where-none p f xs)

  pub find-snoc :
      (p : A → Bool) (xs : List A) (y : A)
      → find p xs ≡ none
      → p y ≡ true
      → find p (xs ++ y ∷ []) ≡ some y
  unfolding find
  find-snoc p [] y h here = ground (arith, here)
  find-snoc p (x ∷ xs) y h here = ground (arith, find-snoc p xs y)

  pub find_sound : (q : A → Bool) (xs : List A) (x : A) → find q xs ≡ some x → q x ≡ true
  unfolding find
  find_sound q [] x h = ground arith
  find_sound q (y ∷ ys) x h = elim (Bool-cases (q y)) [
    | inl here ↦ ground (arith, here)
    | inr later ↦ find_sound q ys x (ground arith)
  ]

-- A Go map with text keys: every key stands in it once, and a write keeps the key's place.
module _ {ℓ} {V : Type ℓ} where
  unfoldable pub lookup : String → List (String × V) → Option V
  lookup wanted [] = none
  lookup wanted ((key, val) ∷ rest) = if key == wanted then some val else lookup wanted rest

  abbrev pub has_key : String → List (String × V) → Bool
  has_key wanted kvs = is_some (lookup wanted kvs)

  unfoldable pub HasDistinctKeys : List (String × V) → Type ℓ
  HasDistinctKeys [] = Unit
  HasDistinctKeys ((key, val) ∷ rest) = (lookup key rest ≡ none) × HasDistinctKeys rest

  unfoldable pub insert : String → V → List (String × V) → List (String × V)
  insert new val [] = (new, val) ∷ []
  insert new val ((key, old) ∷ rest) =
      if key == new then (key, val) ∷ rest else (key, old) ∷ insert new val rest

  pub lookup-insert :
      (new wanted : String) (val : V) (kvs : List (String × V))
      → lookup wanted (insert new val kvs) ≡ (if new == wanted then some val else lookup wanted kvs)
  unfolding insert lookup
  lookup-insert new wanted val [] = refl
  lookup-insert new wanted val ((key, old) ∷ rest) = ground (
    arith,
    lookup-insert new wanted val rest,
    eq_iff key new,
    eq_iff key wanted,
    eq_iff new wanted,
  )

  pub insert-HasDistinctKeys :
      (k : String) (v : V) (m : List (String × V))
      → HasDistinctKeys m
      → HasDistinctKeys (insert k v m)
  unfolding insert HasDistinctKeys lookup
  insert-HasDistinctKeys k v [] h = (refl, tt)
  insert-HasDistinctKeys k v ((j, w) ∷ m) h =
      ground (arith, eq_iff j k, eq_iff k j, lookup-insert k j v m, insert-HasDistinctKeys k v m)

abbrev pub All {ℓ κ} : {A : Type ℓ} → (A → Type κ) → List A → Type κ
All P [] = Unit
All P (x ∷ xs) = P x × All P xs
