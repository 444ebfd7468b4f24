-- ===== src/Prelude/Tests.antt =====
-- Boolean tests on numbers, the conditional, and splits on computed values.
use Prim.Native.Nat.{ℕ, zero, suc, ◌<◌, compare, Ordering}
use mathlib.Core.Path.{◌≡◌, refl}
use mathlib.Core.Logic.{◌⊎◌, inl, inr}
use mathlib.Core.Bool.{Bool, true, false}
use mathlib.Core.Option.{Option, none, some}
use native.Mathlib.Omega.{arith}

abbrev pub ltb : ℕ → ℕ → Bool
ltb a b = elim (compare a b) [ Ordering.lt ↦ true | _ ↦ false ]

abbrev pub leb : ℕ → ℕ → Bool
leb a b = elim (compare a b) [ Ordering.gt ↦ false | _ ↦ true ]

-- equality of numbers; `==` is that of texts
abbrev pub eqb : ℕ → ℕ → Bool
eqb a b = elim (compare a b) [ Ordering.eq ↦ true | _ ↦ false ]

infix 1 if◌then◌else◌
abbrev pub if◌then◌else◌ {ℓ} : {A : Type ℓ} → Bool → A → A → A
if true then x else y = x
if false then x else y = y

pub Bool-cases : (b : Bool) → (b ≡ true) ⊎ (b ≡ false)
Bool-cases true = inl refl
Bool-cases false = inr refl

pub Option-cases {ℓ} : {A : Type ℓ} (o : Option A) → (o ≡ none) ⊎ ((a : A) × (o ≡ some a))
Option-cases none = inl refl
Option-cases (some a) = inr (a, refl)

-- Over a small range, every value is checked by evaluation.
unfoldable pub all_below : ℕ → (ℕ → Bool) → Bool
all_below zero test = true
all_below (suc bound) test = if test bound then all_below bound test else false

pub all_below_sound :
    (bound : ℕ) (test : ℕ → Bool) (value : ℕ)
    → all_below bound test ≡ true
    → value < bound
    → test value ≡ true
unfolding all_below
all_below_sound zero test value passed small = ground arith
all_below_sound (suc bound) test value passed small =
    ground (arith, all_below_sound bound test value)

pub eqb→eq : (a b : ℕ) → eqb a b ≡ true → a ≡ b
eqb→eq a b h = ground arith
