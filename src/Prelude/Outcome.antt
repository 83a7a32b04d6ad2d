-- ===== src/Prelude/Outcome.antt =====
-- A call that may throw or fault: `std::map::at` on a missing key, a null pointer followed, a
-- library function that throws, or
-- (in the model only) a loop that used up its fuel.
use libworkflow.Prelude.{◌≡◌, refl, ap, Option, none, some}

pub data Fault : Type 0 where
  out_of_range null_pointer out_of_fuel thrown : Fault

pub data Outcome {ℓ} (A : Type ℓ) : Type ℓ where
  ok : A → Outcome A
  fault : Fault → Outcome A

infixl 5 ◌>>=◌
abbrev pub ◌>>=◌ {ℓ κ} : {A : Type ℓ} {B : Type κ} → Outcome A → (A → Outcome B) → Outcome B
ok a >>= f = f a
fault e >>= f = fault e

-- `map.at(key)`
abbrev pub at {ℓ} : {A : Type ℓ} → Option A → Outcome A
at none = fault out_of_range
at (some a) = ok a

-- `pointer->`
abbrev pub deref {ℓ} : {A : Type ℓ} → Option A → Outcome A
deref none = fault null_pointer
deref (some a) = ok a

-- Where a call and the next one come back, so did the first, and the next on its answer.
pub >>=-eq-ok {ℓ κ} :
    {X : Type ℓ} {Y : Type κ} (call : Outcome X) (next : X → Outcome Y) {y : Y}
    → (call >>= next) ≡ ok y
    → (x : X) × (call ≡ ok x) × (next x ≡ ok y)
>>=-eq-ok (ok x) next came = (x, refl, came)
>>=-eq-ok (fault why) next came = cc

pub ok_injective {ℓ} : {A : Type ℓ} {a b : A} → ok a ≡ ok b → a ≡ b
ok_injective {a} {b} e = ap (λ o. elim o [ ok x ↦ x | fault f ↦ a ]) e
