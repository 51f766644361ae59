-- ===== src/Prelude/Distinct.antt =====
-- Lists in which no two rows clash, as a unique constraint asks.
use Prim.Native.String.{String}
use mathlib.Core.Path.{◌≡◌}
use mathlib.Core.Bool.{Bool, false}
use mathlib.Core.Option.{Option, none, some}
use mathlib.Core.List.{List, [], ◌∷◌}
use discord_support_hub.Prelude.Tests.{holds}
use discord_support_hub.Prelude.Table.{find}

module _ {ℓ} {A : Type ℓ} (clash : A → A → Bool) where
  unfoldable pub AllDistinct : List A → Type ℓ
  AllDistinct [] = Unit
  AllDistinct (x ∷ xs) = (find (clash x) xs ≡ none) × AllDistinct xs

-- A column that may be null: two rows clash at a value that both hold.
abbrev pub clash_at {ℓ} : {A : Type ℓ} → (A → Option String) → A → A → Bool
clash_at key x y = elim (key x) [ none ↦ false | some k ↦ holds (key y) k ]
