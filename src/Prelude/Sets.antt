-- ===== src/Prelude/Sets.antt =====
-- `std::set` and `std::unordered_set` as lists without repetitions, read through `contains`.
-- A new element stands last; the order in which an unordered set is walked is not a promise.
use Prim.Native.Nat.{ℕ, suc}
use mathlib.Core.Path.{◌≡◌, refl}
use mathlib.Core.Logic.{◌≢◌}
use mathlib.Core.Bool.{Bool, false, not, ◌&&◌, ◌||◌}
use mathlib.Core.List.{List, [], ◌∷◌, ◌++◌}
use native.Mathlib.Omega.{arith}
use multi_market_prices.Prelude.Keys.{Eq, ◌==◌, if◌then◌else◌}

module _ {ℓ} {A : Type ℓ} ⦃e : Eq A⦄ where
  unfoldable pub contains : A → List A → Bool
  contains a [] = false
  contains a (x ∷ xs) = x == a || contains a xs

  unfoldable pub insert : A → List A → List A
  unfolding contains
  insert a xs = if contains a xs then xs else xs ++ a ∷ []

  unfoldable pub erase : A → List A → List A
  erase a [] = []
  erase a (x ∷ xs) = if x == a then erase a xs else x ∷ erase a xs

  -- How often an element is met when the list is walked.
  unfoldable pub count : A → List A → ℕ
  count a [] = 0
  count a (x ∷ xs) = if x == a then suc (count a xs) else count a xs

  -- Each element is met once.
  abbrev pub IsDistinct : List A → Type 0
  IsDistinct [] = Unit
  IsDistinct (x ∷ xs) = (contains x xs ≡ false) × IsDistinct xs

  pub contains-cons : (a x : A) (xs : List A) → contains a (x ∷ xs) ≡ (x == a || contains a xs)
  unfolding contains
  contains-cons a x xs = refl

  pub contains-nil : (a : A) (xs : List A) → xs ≡ [] → contains a xs ≡ false
  unfolding contains
  contains-nil a xs e = rw e refl

  pub contains-append :
      (a : A) (xs ys : List A) → contains a (xs ++ ys) ≡ (contains a xs || contains a ys)
  unfolding contains
  contains-append a [] ys = refl
  contains-append a (x ∷ xs) ys = ground (arith, contains-append a xs ys)

  pub contains-insert :
      (a b : A) (xs : List A) → contains b (insert a xs) ≡ (a == b || contains b xs)
  unfolding insert contains
  contains-insert a b xs = ground (arith, contains-append b xs (a ∷ []))

  pub contains-erase :
      (a b : A) (xs : List A) → contains b (erase a xs) ≡ (not (a == b) && contains b xs)
  unfolding erase contains
  contains-erase a b [] = ground arith
  contains-erase a b (x ∷ xs) = ground (arith, contains-erase a b xs)

  pub erase_absent : (a : A) (xs : List A) → contains a xs ≡ false → erase a xs ≡ xs
  unfolding erase contains
  erase_absent a [] h = refl
  erase_absent a (x ∷ xs) h = ground (arith, erase_absent a xs)

  pub IsDistinct-append :
      (a : A) (xs : List A) → contains a xs ≡ false → IsDistinct xs → IsDistinct (xs ++ a ∷ [])
  unfolding contains
  IsDistinct-append a [] h d = (refl, tt)
  IsDistinct-append a (x ∷ xs) h d =
      (ground (arith, contains-append x xs (a ∷ [])), IsDistinct-append a xs (ground arith) d.1)

  pub insert-IsDistinct : (a : A) (xs : List A) → IsDistinct xs → IsDistinct (insert a xs)
  unfolding insert
  insert-IsDistinct a xs d = ground (arith, IsDistinct-append a xs)

  pub erase-IsDistinct : (a : A) (xs : List A) → IsDistinct xs → IsDistinct (erase a xs)
  unfolding erase contains
  erase-IsDistinct a [] d = tt
  erase-IsDistinct a (x ∷ xs) d = ground (arith, contains-erase a x xs, erase-IsDistinct a xs d.1)

  pub count_absent : (a : A) (xs : List A) → contains a xs ≡ false → count a xs ≡ 0
  unfolding count contains
  count_absent a [] h = refl
  count_absent a (x ∷ xs) h = ground (arith, count_absent a xs)

  pub count_of_IsDistinct :
      (a : A) (xs : List A) → IsDistinct xs → count a xs ≡ (if contains a xs then 1 else 0)
  unfolding count contains
  count_of_IsDistinct a [] d = refl
  count_of_IsDistinct a (x ∷ xs) d =
      ground (arith, count_absent x xs, count_absent a xs, count_of_IsDistinct a xs d.1)

  pub insert-ne-nil : (a : A) (xs : List A) → insert a xs ≢ []
  unfolding insert contains
  insert-ne-nil a [] = ground arith
  insert-ne-nil a (x ∷ xs) = ground arith
