-- ===== src/Prelude/Outcomes.antt =====
-- A call on a shared object: it returns a value and the new state, waits for something that does
-- not come at that moment, or panics.
use mathlib.Core.Path.{◌≡◌, refl}

pub data Outcome {ℓ κ} (S : Type ℓ) (A : Type κ) : Type (ℓ ⊔ κ) where
  returns : A → S → Outcome S A
  blocks : Outcome S A
  panics : Outcome S A

-- To go on from a call that returned.
abbrev pub and_then {ℓ κ ι} :
    {S : Type ℓ} {A : Type κ} {B : Type ι} → Outcome S A → (A → S → Outcome S B) → Outcome S B
and_then (returns a s) f = f a s
and_then blocks f = blocks
and_then panics f = panics

pub and_then-eq-returns {ℓ κ ι} :
    {S : Type ℓ} {A : Type κ} {B : Type ι} (m : Outcome S A) (f : A → S → Outcome S B) {b : B}
    {t : S}
    → and_then m f ≡ returns b t
    → (a : A) × (s : S) × (m ≡ returns a s) × (f a s ≡ returns b t)
and_then-eq-returns (returns a s) f h = (a, s, refl, h)
and_then-eq-returns blocks f h = cc
and_then-eq-returns panics f h = cc
