-- ===== src/Prelude/Results.antt =====
-- A value or an error, with `do`.
use mathlib.Core.Path.{◌≡◌, refl}
use mathlib.Core.Logic.{◌⊎◌, inl, inr}
use mathlib.Core.Bool.{Bool, true, false}
use mathlib.Core.Option.{Option, none, some}

pub data Result {ℓ κ} (E : Type ℓ) (A : Type κ) : Type (ℓ ⊔ κ) where
  ok : A → Result E A
  err : E → Result E A

-- The error of an `if ... { return err }`.
abbrev pub fail_if {ℓ} : {E : Type ℓ} → Bool → E → Result E (Unit {0})
fail_if true e = err e
fail_if false e = ok tt

infixl 5 ◌>>=◌ ◌>>◌
abbrev pub ◌>>=◌ {ℓ κ λ₁} :
    {E : Type ℓ} {A : Type κ} {C : Type λ₁} → Result E A → (A → Result E C) → Result E C
err bad >>= next = err bad
ok x >>= next = next x

abbrev pub ◌>>◌ {ℓ κ} : {E : Type ℓ} {C : Type κ} → Result E (Unit {0}) → Result E C → Result E C
first >> second = first >>= λ _. second

abbrev pub or_fail {ℓ κ} : {E : Type ℓ} {A : Type κ} → Option A → E → Result E A
or_fail none e = err e
or_fail (some a) e = ok a

abbrev pub is_ok {ℓ κ} : {E : Type ℓ} {A : Type κ} → Result E A → Bool
is_ok (ok a) = true
is_ok (err e) = false

pub Result-cases {ℓ κ} :
    {E : Type ℓ} {A : Type κ} (r : Result E A) → ((a : A) × (r ≡ ok a)) ⊎ ((e : E) × (r ≡ err e))
Result-cases (ok a) = inl (a, refl)
Result-cases (err e) = inr (e, refl)

-- What a chain with a value consists of.
pub >>=-eq-ok {ℓ κ λ₁} :
    {E : Type ℓ} {A : Type κ} {C : Type λ₁} (r : Result E A) (next : A → Result E C) {c : C}
    → (r >>= next) ≡ ok c
    → (x : A) × (r ≡ ok x) × (next x ≡ ok c)
>>=-eq-ok (err bad) next whole = cc
>>=-eq-ok (ok x) next whole = (x, refl, whole)
