-- ===== src/Tools/PropertySet/Reads.antt =====
-- What a property set answers after it was changed (tools/property_set.cpp).
use libworkflow.Prelude.{
  ℕ, ◌≡◌, String, Bool, true, false, not, ◌&&◌, ◌||◌, Option, none, some, arith, if◌then◌else◌,
}
use libworkflow.Prelude.Key.{string_key, ◌==◌, ==_refl}
use libworkflow.Prelude.Map.{Map, lookup, has, lookup-insert}
use libworkflow.Prelude.Outcome.{ok, fault, out_of_range}
use libworkflow.Core.Context.{Context}
use libworkflow.Tools.PropertySet.Typed.{blank, Property, PropertySet, get_value, set_value}
use libworkflow.Tools.PropertySet.Kinds.{
  get_string_property, set_string_property, get_uint_property, define_uint_property,
  set_custom_property,
}

-- The property that `values[key].value = value` leaves.
abbrev changed : {T : Type 0} → T → Map String (Property T) → String → T → Property T
changed z m key v = record (elim (lookup key m) [ none ↦ blank z | some p ↦ p ]) { value = v }

set_value-get :
    {T : Type 0} (g : Bool) (z : T) (m : Map String (Property T)) (key other : String) (v d : T)
    → get_value (set_value g z m key v).0 other d
      ≡ (if (set_value g z m key v).1 && (key == other) then (v, true) else get_value m other d)
unfolding get_value set_value
set_value-get g z m key other v d = ground (arith, lookup-insert key other (changed z m key v) m)

set_value-done :
    {T : Type 0} (g : Bool) (z : T) (m : Map String (Property T)) (key : String) (v : T)
    → (set_value g z m key v).1 ≡ (not g || has key m)
unfolding set_value
set_value-done g z m key v = ground arith

-- A string property is set unless the set is guarded and does not have it; then it, and no other
-- string property, reads as the value just set.
pub string_property-set :
    (s : PropertySet) (key other v d : String)
    → ((set_string_property s key v).1 ≡ (not s.guarded || has key s.string_values))
      × (get_string_property (set_string_property s key v).0 other d ≡ (
          if (set_string_property s key v).1 && (key == other)
          then (v, true)
          else get_string_property s other d))
unfolding set_string_property get_string_property
string_property-set s key other v d = (
  set_value-done s.guarded "" s.string_values key v,
  set_value-get s.guarded "" s.string_values key other v d,
)

-- An unsigned property that is defined is not found again: without a custom property of its key
-- the default comes back.
pub uint_property-lost :
    (s : PropertySet) (key : String) (v d : ℕ) (description : String) (exposed : Bool)
    → has key s.custom_values ≡ false
    → get_uint_property (define_uint_property s key v description exposed) key d ≡ ok (d, false)
unfolding get_uint_property define_uint_property
uint_property-lost s key v d description exposed h = rw h

-- In a set that is not guarded, a custom property set under a key that no unsigned property has makes
-- the unsigned getter throw.
pub uint_property-throws :
    (s : PropertySet) (key : String) (c : Option Context) (d : ℕ)
    → s.guarded ≡ false
    → has key s.uint_values ≡ false
    → get_uint_property (set_custom_property s key c).0 key d ≡ fault out_of_range
unfolding get_uint_property set_custom_property set_value
uint_property-throws s key c d g h =
    rw (g, set_value)
      (ground (
        arith,
        h,
        lookup-insert key key (changed none s.custom_values key c) s.custom_values,
        ==_refl {K = String} key,
      ))
