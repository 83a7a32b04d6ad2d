-- ===== src/Tools/PropertySet/Typed.antt =====
-- The store of one kind, and the set with its five stores. Each method of `PropertySet` is the
-- operation of one store; the five kinds are written out as the source writes them out.
use libworkflow.Prelude.{
  ℕ, String, Bool, true, false, not, ◌&&◌, ◌||◌, Option, none, some, [], if◌then◌else◌,
}
use libworkflow.Prelude.Key.{string_key}
use libworkflow.Prelude.Map.{Map, lookup, insert, has}
use libworkflow.Core.Context.{Context}

pub data PropertyType : Type 0 where
  uint bool string double custom : PropertyType

pub record Property (T : Type 0) : Type 0 where
  pub key : String
  pub description : String
  pub exposed : Bool
  pub type : PropertyType
  pub value : T

-- What `values[key]` creates: a property with every field zero.
abbrev pub blank : {T : Type 0} → T → Property T
blank zero_value = record {
  key = "";
  description = "";
  exposed = false;
  type = uint;
  value = zero_value;
}

abbrev pub Double : Type 0
Double = ℕ

pub record PropertySet : Type 0 where
  pub guarded : Bool
  pub uint_values : Map String (Property ℕ)
  pub double_values : Map String (Property Double)
  pub bool_values : Map String (Property Bool)
  pub string_values : Map String (Property String)
  pub custom_values : Map String (Property (Option Context))

unfoldable pub empty_set : PropertySet
empty_set = record {
  guarded = false;
  uint_values = [];
  double_values = [];
  bool_values = [];
  string_values = [];
  custom_values = [];
}

unfoldable pub set_guarded : Bool → PropertySet → PropertySet
set_guarded b s = record s { guarded = b }

unfoldable pub clear : PropertySet → PropertySet
clear s = record s {
  custom_values = [];
  bool_values = [];
  double_values = [];
  uint_values = [];
  string_values = [];
}

unfoldable pub has_property : PropertySet → String → Bool
has_property s key =
    has key s.bool_values
    || has key s.double_values
    || has key s.uint_values
    || has key s.string_values
    || has key s.custom_values

-- The kinds are asked in turn: the first that has the key answers.
abbrev pub exposed_of : {T : Type 0} → Option (Property T) → Bool → Bool
exposed_of none other = other
exposed_of (some p) other = p.exposed

abbrev pub description_of : {T : Type 0} → Option (Property T) → String → String
description_of none other = other
description_of (some p) other = p.description

unfoldable pub is_exposed : PropertySet → String → Bool
is_exposed s key = exposed_of (lookup key s.bool_values) (
    exposed_of (lookup key s.double_values) (
      exposed_of (lookup key s.uint_values)
        (exposed_of (lookup key s.string_values) (exposed_of (lookup key s.custom_values) false))))

unfoldable pub get_description : PropertySet → String → String
get_description s key = description_of (lookup key s.bool_values) (
    description_of (lookup key s.double_values) (
      description_of (lookup key s.uint_values) (
        description_of (lookup key s.string_values)
          (description_of (lookup key s.custom_values) ""))))

-- The value and whether it is present.
unfoldable pub get_value : {T : Type 0} → Map String (Property T) → String → T → T × Bool
get_value m key default = elim (lookup key m) [ none ↦ (default, false) | some p ↦ (p.value, true) ]

unfoldable pub define_value :
    {T : Type 0}
    → PropertyType
    → Map String (Property T)
    → (key : String) → T
    → (description : String) → (exposed : Bool) → Map String (Property T)
define_value kind m key v description exposed =
    insert key
      (record { key = key; description = description; exposed = exposed; type = kind; value = v }) m

-- `values[key].value = value`, behind the guard; the Boolean tells whether it was done.
unfoldable pub set_value :
    {T : Type 0}
    → (guarded : Bool) → T
    → Map String (Property T)
    → String
    → T
    → Map String (Property T) × Bool
set_value guarded zero_value m key v =
    if not guarded || (guarded && has key m)
    then (
      insert key
          (record (elim (lookup key m) [ none ↦ blank zero_value | some p ↦ p ]) { value = v }) m,
      true,
    )
    else (m, false)

unfoldable pub set_whole :
    {T : Type 0} → Map String (Property T) → Property T → Map String (Property T)
set_whole m p = insert p.key p m

-- A missing key gives a property whose plain fields were never set: here `blank`.
unfoldable pub get_whole : {T : Type 0} → T → Map String (Property T) → String → Property T
get_whole zero_value m key = elim (lookup key m) [ none ↦ blank zero_value | some p ↦ p ]
