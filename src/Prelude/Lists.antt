-- ===== src/Prelude/Lists.antt =====
-- Lists measured by native numbers, and a predicate on all elements.
use Prim.Native.Nat.{ℕ, suc}
use mathlib.Core.List.{List, [], ◌∷◌}

module _ {ℓ} {A : Type ℓ} where
  abbrev pub length : List A → ℕ
  length [] = 0
  length (x ∷ xs) = suc (length xs)

  abbrev pub All {κ} : (A → Type κ) → List A → Type κ
  All P [] = Unit
  All P (x ∷ xs) = P x × All P xs
