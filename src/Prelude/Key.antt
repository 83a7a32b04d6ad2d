-- ===== src/Prelude/Key.antt =====
-- What a key of a map offers: its equality test and `operator<`.
use Prim.Native.String.{compare}
use text.Mathlib.Text.{◌==◌ as str_eq, is_lt}
use text.Mathlib.TextEquality.{eq_iff}
use libworkflow.Prelude.{
  ℕ, String, ◌≡◌, refl, ◌↔◌, Bool, true, false, ltb, ◌==◌ as nat_eq, ==_iff, false_of_not,
}
use libworkflow.Prelude.Int.{ℤ, eqb_ℤ, ltb_ℤ, eqb_ℤ_iff}

pub record Key {ℓ} (K : Type ℓ) : Type ℓ where
  pub eqb : K → K → Bool
  pub less : K → K → Bool
  pub eqb_iff : (a b : K) → (eqb a b ≡ true) ↔ (a ≡ b)

infix 50 ◌==◌
abbrev pub ◌==◌ {ℓ} : {K : Type ℓ} ⦃k : Key K⦄ → K → K → Bool
◌==◌ ⦃k⦄ = k.eqb

instance abbrev pub int_key : Key ℤ
int_key = record { eqb = eqb_ℤ; less = ltb_ℤ; eqb_iff = eqb_ℤ_iff }

instance abbrev pub string_key : Key String
string_key = record { eqb = str_eq; less = λ s t. is_lt (compare s t); eqb_iff = eq_iff }

-- A uuid, read as the number that its sixteen bytes write.
instance abbrev pub nat_key : Key ℕ
nat_key = record { eqb = nat_eq; less = ltb; eqb_iff = ==_iff }

module _ {ℓ} {K : Type ℓ} ⦃k : Key K⦄ where
  pub ==_refl : (a : K) → (a == a) ≡ true
  ==_refl a = (k.eqb_iff a a).1 refl

  pub eq_of_== : (a b : K) → (a == b) ≡ true → a ≡ b
  eq_of_== a b h = (k.eqb_iff a b).0 h

  pub ==_false : (a b : K) → (a ≡ b → ⊥) → (a == b) ≡ false
  ==_false a b h = false_of_not (a == b) (λ t. h (eq_of_== a b t))
