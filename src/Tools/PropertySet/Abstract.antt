-- ===== src/Tools/PropertySet/Abstract.antt =====
-- What a property set promises of its string properties (tools/property_set.h), as a guard and a
-- function from keys to values, and the store of tools/property_set.cpp as an implementation of it.
use libworkflow.Prelude.{
  String, ◌≡◌, refl, ap, sym, ◌∙◌, Bool, true, false, not, ◌&&◌, ◌||◌, Option, none, some, List, [],
  ◌∷◌, if◌then◌else◌, is_some,
}
use libworkflow.Prelude.Key.{string_key, ◌==◌}
use libworkflow.Prelude.Map.{Map, lookup, insert, has, lookup-insert}
use libworkflow.Tools.PropertySet.Typed.{Property, PropertySet, blank, set_guarded, clear}
use libworkflow.Tools.PropertySet.Kinds.{
  get_string_property, define_string_property, set_string_property, set_string_sproperty,
}

-- The calls that change what a string property reads as.
pub data Call : Type 0 where
  define : (key value description : String) (exposed : Bool) → Call
  set : (key value : String) → Call
  set_property : Property String → Call
  guard : Bool → Call
  clear_all : Call

pub run : List Call → PropertySet → PropertySet
run [] s = s
run (define key v description exposed ∷ calls) s =
    run calls (define_string_property s key v description exposed)
run (set key v ∷ calls) s = run calls (set_string_property s key v).0
run (set_property p ∷ calls) s = run calls (set_string_sproperty s p)
run (guard b ∷ calls) s = run calls (set_guarded b s)
run (clear_all ∷ calls) s = run calls (clear s)

-- The abstract view: whether only known keys may be set, and the value of each key.
pub record Values : Type 0 where
  pub guarded : Bool
  pub value : String → Option String

abbrev pub update : (String → Option String) → String → String → String → Option String
update f key v k = if key == k then some v else f k

pub replay : List Call → Values → Values
replay [] a = a
replay (define key v description exposed ∷ calls) a =
    replay calls (record a { value = update a.value key v })
replay (set key v ∷ calls) a =
    let allowed = not a.guarded || is_some (a.value key) in
    replay calls (if allowed then record a { value = update a.value key v } else a)
replay (set_property p ∷ calls) a = replay calls (record a { value = update a.value p.key p.value })
replay (guard b ∷ calls) a = replay calls (record a { guarded = b })
replay (clear_all ∷ calls) a = replay calls (record a { value = λ k. none })

abbrev pub value_of : Option (Property String) → Option String
value_of none = none
value_of (some p) = some p.value

abbrev pub values : PropertySet → Values
values s = record { guarded = s.guarded; value = λ k. value_of (lookup k s.string_values) }

-- The value and whether there is one.
abbrev pub read : Option String → String → String × Bool
read none default = (default, false)
read (some v) default = (v, true)

record Agree (s : PropertySet) (a : Values) : Type 0 where
  same_guard : s.guarded ≡ a.guarded
  same_value : (k : String) → value_of (lookup k s.string_values) ≡ a.value k

value_of-if :
    (c : Bool) (p : Property String) (o : Option (Property String))
    → value_of (if c then some p else o) ≡ (if c then some p.value else value_of o)
value_of-if true p o = refl
value_of-if false p o = refl

-- Storing a property under a key is the update of the function.
insert-Agree :
    (s : PropertySet) (a : Values) (key : String) (p : Property String)
    → Agree s a
    → Agree
        (record s { string_values = insert key p s.string_values })
        (record a { value = update a.value key p.value })
insert-Agree s a key p h = record {
  same_guard = h.same_guard;
  same_value = λ k.
      ap value_of (lookup-insert key k p s.string_values)
      ∙ value_of-if (key == k) p (lookup k s.string_values)
      ∙ ap (λ o. if key == k then some p.value else o) (h.same_value k);
}

is_some-value_of : (o : Option (Property String)) → is_some (value_of o) ≡ is_some o
is_some-value_of none = refl
is_some-value_of (some p) = refl

same_test : (g h : Bool) → (not g || (g && h)) ≡ (not g || h)
same_test true h = refl
same_test false h = refl

abbrev guarded_store :
    Bool → (m old : Map String (Property String)) → Map String (Property String) × Bool
guarded_store c m old = if c then (m, true) else (old, false)

-- Behind a test, the call is done on both sides or on neither.
behind :
    (c d : Bool) (s : PropertySet) (a b : Values) (m : Map String (Property String))
    → c ≡ d
    → Agree s a
    → Agree (record s { string_values = m }) b
    → Agree
        (record s { string_values = (guarded_store c m s.string_values).0 })
        (if d then b else a)
behind true true s a b m same kept changed = changed
behind true false s a b m same kept changed = absurd (cc)
behind false true s a b m same kept changed = absurd (cc)
behind false false s a b m same kept changed = kept

set-Agree :
    (s : PropertySet) (a : Values) (key v : String)
    → Agree s a
    → Agree (set_string_property s key v).0 (
        if not a.guarded || is_some (a.value key)
        then record a { value = update a.value key v }
        else a)
unfolding set_string_property
set-Agree s a key v h =
    let p : Property String =
      record (elim (lookup key s.string_values) [ none ↦ blank "" | some q ↦ q ]) { value = v } in
    behind (not s.guarded || (s.guarded && has key s.string_values))
      (not a.guarded || is_some (a.value key)) s a _ (insert key p s.string_values)
      (same_test s.guarded (has key s.string_values)
        ∙ ap (λ g. not g || has key s.string_values) h.same_guard
        ∙ ap (λ c. not a.guarded || c)
            (sym (is_some-value_of (lookup key s.string_values)) ∙ ap is_some (h.same_value key)))
      h (insert-Agree s a key p h)

run-Agree :
    (calls : List Call) (s : PropertySet) (a : Values)
    → Agree s a
    → Agree (run calls s) (replay calls a)
unfolding run replay define_string_property set_string_sproperty set_guarded clear lookup
run-Agree [] s a h = h
run-Agree (define key v description exposed ∷ calls) s a h =
    run-Agree calls _ _ (insert-Agree s a key _ h)
run-Agree (set key v ∷ calls) s a h = run-Agree calls _ _ (set-Agree s a key v h)
run-Agree (set_property p ∷ calls) s a h = run-Agree calls _ _ (insert-Agree s a p.key p h)
run-Agree (guard b ∷ calls) s a h =
    run-Agree calls _ _ (record { same_guard = refl; same_value = h.same_value })
run-Agree (clear_all ∷ calls) s a h =
    run-Agree calls _ _ (record { same_guard = h.same_guard; same_value = λ k. refl })

get_string_property-read :
    (s : PropertySet) (key default : String)
    → get_string_property s key default ≡ read (value_of (lookup key s.string_values)) default
unfolding get_string_property
get_string_property-read s key default =
    elim (lookup key s.string_values)
      as (λ o.
        (elim o [ none ↦ (default, false) | some p ↦ (p.value, true) ])
        ≡ read (value_of o) default) [ none ↦ refl | some p ↦ refl ]

-- However the string properties of a set have been defined, set, guarded and cleared, a key reads
-- as it does after the same calls on a guard and a function from keys to values: a definition and
-- a whole property always replace the value, and a plain set does so only where the set is not
-- guarded or the key has a value.
pub get_string_property-refines :
    (calls : List Call) (s : PropertySet) (key default : String)
    → get_string_property (run calls s) key default
      ≡ read ((replay calls (values s)).value key) default
get_string_property-refines calls s key default =
    get_string_property-read (run calls s) key default
    ∙ ap (λ o. read o default)
        ((run-Agree calls s (values s)
            (record { same_guard = refl; same_value = λ k. refl })).same_value
          key)
