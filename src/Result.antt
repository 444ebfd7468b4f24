-- ===== src/Result.antt =====
-- Python exceptions as values: a function that may raise returns a `Result`. The messages are left
-- out.
use cats.Prelude.{◌≡◌, refl, Bool, true, false, ◌⊎◌, inl, inr}

pub data Error : Type 0 where
  value_error type_error attribute_error runtime_error key_error not_a_directory : Error
  assertion_error registry_error ambiguous_bom file_not_found : Error

pub data Result {ℓ} (A : Type ℓ) : Type ℓ where
  ok : A → Result A
  err : Error → Result A

abbrev pub is_ok {ℓ} : {A : Type ℓ} → Result A → Bool
is_ok (ok a) = true
is_ok (err e) = false

-- `try: … except: …`
abbrev pub catch {ℓ} : {A : Type ℓ} → Result A → A → A
catch (ok a) d = a
catch (err e) d = d

-- raise the error where the test fails
abbrev pub require : Bool → Error → Result (Unit {0})
require passed error = elim passed [ true ↦ ok tt | false ↦ err error ]

infixl 5 ◌>>=◌
abbrev pub ◌>>=◌ {ℓ κ} : {A : Type ℓ} {B : Type κ} → Result A → (A → Result B) → Result B
result >>= rest = elim result [ ok value ↦ rest value | err error ↦ err error ]

infixl 5 ◌>>◌
abbrev pub ◌>>◌ {ℓ} : {B : Type ℓ} → Result (Unit {0}) → Result B → Result B
check >> rest = elim check [ ok _ ↦ rest | err error ↦ err error ]

pub Result-cases {ℓ} :
    {A : Type ℓ} (r : Result A) → ((a : A) × (r ≡ ok a)) ⊎ ((e : Error) × (r ≡ err e))
Result-cases (ok a) = inl (a, refl)
Result-cases (err e) = inr (e, refl)

-- the two steps of a chain that succeeds
pub >>=-eq-ok {ℓ κ} :
    {A : Type ℓ} {B : Type κ} (first : Result A) (second : A → Result B) {result : B}
    → (first >>= second) ≡ ok result
    → (value : A) × (first ≡ ok value) × (second value ≡ ok result)
>>=-eq-ok (ok value) second done = (value, refl, done)
>>=-eq-ok (err error) second done = cc

-- a test that raised nothing has passed
pub require-eq-ok : (passed : Bool) (error : Error) → require passed error ≡ ok tt → passed ≡ true
require-eq-ok true error done = refl
require-eq-ok false error done = cc

-- a chain whose later steps agree
pub >>=_same {ℓ κ} :
    {A : Type ℓ} {B : Type κ} (first : Result A) {second third : A → Result B}
    → ((value : A) → second value ≡ third value)
    → (first >>= second) ≡ (first >>= third)
>>=_same (ok value) same = same value
>>=_same (err error) same = refl
