-- ===== src/Prelude/Names.antt =====
-- Values that are told apart by their text.
use Prim.Native.String.{String}
use mathlib.Core.Path.{◌≡◌, ap, sym, ◌∙◌}
use mathlib.Core.List.{List, [], ◌∷◌}
use mathlib.Core.Option.{Option, none, some, some-injective}
use multi_market_prices.Prelude.Keys.{◌==◌, string_eq, if◌then◌else◌}

module _ {A : Type 0} (text : A → String) where
  -- The first element with this text.
  abbrev pub find_by : String → List A → Option A
  find_by s [] = none
  find_by s (x ∷ xs) = if text x == s then some x else find_by s xs

  pub find_by-injective :
      (all : List A)
      → ((x : A) → find_by (text x) all ≡ some x)
      → (x y : A) → text x ≡ text y
      → x ≡ y
  find_by-injective all found x y e =
      some-injective x y (sym (found x) ∙ ap (λ s. find_by s all) e ∙ found y)
