-- ===== src/Outcome.antt =====
-- The result of a function that returns `bool` and stores an error: set_error of
-- emulator/src/Image.c and emulator/src/Linker.c, and the early returns after it.
use zlvm.Prelude.{◌≡◌, refl, ◌⊎◌, inl, inr, Bool, true, false, Option, none, some}

-- `false` with an error, or `true` with a value.
pub data Outcome {ℓ} (E : Type 0) (A : Type ℓ) : Type ℓ where
  refused : E → Outcome E A
  accepted : A → Outcome E A

unfoldable pub and_then {ℓ κ} :
    {E : Type 0} {A : Type ℓ} {B : Type κ} → Outcome E A → (A → Outcome E B) → Outcome E B
and_then (refused e) f = refused e
and_then (accepted a) f = f a

-- `if (refuses) { set_error(error, e); return false; }` before the rest.
unfoldable pub refuse_if {ℓ} : {E : Type 0} {A : Type ℓ} → Bool → E → Outcome E A → Outcome E A
refuse_if true e rest = refused e
refuse_if false e rest = rest

pub Outcome-cases {ℓ} :
    {E : Type 0} {A : Type ℓ} (r : Outcome E A)
    → ((e : E) × (r ≡ refused e)) ⊎ ((a : A) × (r ≡ accepted a))
Outcome-cases (refused e) = inl (e, refl)
Outcome-cases (accepted a) = inr (a, refl)

-- What an accepted step says of its parts.
pub and_then-accepted {ℓ κ} :
    {E : Type 0} {A : Type ℓ} {B : Type κ} (r : Outcome E A) (f : A → Outcome E B) {b : B}
    → and_then r f ≡ accepted b
    → (a : A) × (r ≡ accepted a) × (f a ≡ accepted b)
unfolding and_then
and_then-accepted (refused e) f h = absurd cc
and_then-accepted (accepted a) f h = (a, refl, h)

pub refuse_if-accepted {ℓ} :
    {E : Type 0} {A : Type ℓ} (b : Bool) (e : E) (r : Outcome E A) {a : A}
    → refuse_if b e r ≡ accepted a
    → (b ≡ false) × (r ≡ accepted a)
unfolding refuse_if
refuse_if-accepted true e r h = absurd cc
refuse_if-accepted false e r h = (refl, h)

-- The value of an accepted result.
unfoldable pub accepted_value {ℓ} : {E : Type 0} {A : Type ℓ} → Outcome E A → Option A
accepted_value (refused e) = none
accepted_value (accepted a) = some a
