-- ===== src/Storage/PropertiesBack.antt =====
-- What a saved property set is loaded as: tools/property.h and tools/property_set.cpp.
use libworkflow.Prelude.{
  ℕ, String, ◌≡◌, refl, ap, sym, append-nil, ◌∙◌, ◌<◌, ◌≤◌, ◌^◌, false, Option, none, some, List,
  [], ◌∷◌, ◌++◌, arith, Bool, true,
}
use libworkflow.Prelude.Key.{string_key}
use libworkflow.Prelude.Map.{Map, lookup}
use libworkflow.Prelude.Outcome.{Outcome, ok}
use libworkflow.Core.Context.{Context, get_type}
use libworkflow.Tools.PropertySet.Typed.{Property, PropertySet, uint, empty_set}
use libworkflow.Storage.Tree.{
  PropertyTree, PropertyTreeLaws, IsFinite, put_last, add_last, text_found, child_found,
}
use libworkflow.Storage.Entries.{
  PlainKeys, Follow, LoadBack, keys, entries, map_values, save_entries, load_entries,
  children-save_entries, load_entries-overlay, overlay, overlay_last,
}
use libworkflow.Storage.Contexts.{ContextFactory, create_context, save_context}
use libworkflow.Storage.ContextsBack.{
  Storable, context_size, blank_context, type_saved, load_context-save,
}
use libworkflow.Storage.Properties.{
  same, load_store, save_property, load_plain, save_value, save_custom, load_value, load_new_custom,
  save_set, load_set,
}

-- What is kept of a property: not its type, and of a context nothing.
unfoldable pub untyped : {V : Type 0} → Property V → Property V
untyped q = record q { type = uint }

unfoldable pub emptied : Property (Option Context) → Property (Option Context)
emptied q = record q { type = uint; value = none }

unfoldable pub kept_set : PropertySet → PropertySet
unfolding untyped emptied
kept_set s = record s {
  uint_values = map_values untyped s.uint_values;
  double_values = map_values untyped s.double_values;
  bool_values = map_values untyped s.bool_values;
  string_values = map_values untyped s.string_values;
  custom_values = map_values emptied s.custom_values;
}

-- A set stored over another.
unfoldable pub overlay_set : PropertySet → PropertySet → PropertySet
unfolding overlay
overlay_set old s = record s {
  uint_values = overlay old.uint_values s.uint_values;
  double_values = overlay old.double_values s.double_values;
  bool_values = overlay old.bool_values s.bool_values;
  string_values = overlay old.string_values s.string_values;
  custom_values = overlay old.custom_values s.custom_values;
}

-- Every value of a store satisfies a predicate.
abbrev pub AllValues : {V : Type 0} → (V → Type 0) → Map String V → Type 0
AllValues P [] = Unit
AllValues P ((k, v) ∷ m) = P v × AllValues P m

-- The keys of a store are in order, not empty and without dots.
abbrev pub InOrder : {V : Type 0} → Map String V → Type 0
InOrder m = PlainKeys same m × Follow [] (keys m)

-- A context that is there can be made and read.
abbrev pub ReadableValue : (typed : String → Bool) → ContextFactory → ℕ → Option Context → Type 0
ReadableValue typed f fuel none = Unit
ReadableValue typed f fuel (some c) =
    (create_context f (get_type c) ≡ some (blank_context c))
    × Storable typed f c
    × (context_size c ≤ fuel)

pub record SetStorable (typed : String → Bool) (f : ContextFactory) (fuel : ℕ) (s : PropertySet)
    : Type 0 where
  pub uint_order : InOrder s.uint_values
  pub double_order : InOrder s.double_values
  pub string_order : InOrder s.string_values
  pub bool_order : InOrder s.bool_values
  pub custom_order : InOrder s.custom_values
  pub uint_range : AllValues (λ q. q.value < 2 ^ 32) s.uint_values
  pub double_range : AllValues (λ q. IsFinite q.value) s.double_values
  pub readable : AllValues (λ q. ReadableValue typed f fuel q.value) s.custom_values

all_back :
    {T V : Type 0} (P : V → Type 0) (tree : V → T) (load : T → Outcome (Option V)) (kept : V → V)
    → ((v : V) → P v → load (tree v) ≡ ok (some (kept v)))
    → (m : Map String V) → AllValues P m
    → LoadBack same same tree load kept m
all_back P tree load kept back [] all = tt
all_back P tree load kept back ((k, v) ∷ m) all =
    (refl, back v all.0, all_back P tree load kept back m all.1)

every : {V : Type 0} (m : Map String V) → AllValues (λ v. Unit {0}) m
every [] = tt
every ((k, v) ∷ m) = (tt, every m)

module _ {T : Type 0} {p : PropertyTree T} (laws : PropertyTreeLaws p) where
  load_store-save :
      {V : Type 0} (P : V → Type 0) (tree : V → T) (load : T → Outcome (Option V)) (kept : V → V)
      (back : (v : V) → P v → load (tree v) ≡ ok (some (kept v))) (m old : Map String V)
      → PlainKeys same m
      → AllValues P m
      → load_store p load (some (save_entries p same tree m p.empty)) old
        ≡ ok (overlay old (map_values kept m))
  load_store-save P tree load kept back m old plain all =
      ap (λ items. load_entries same load items old)
        (children-save_entries laws same tree m p.empty plain
          ∙ ap (λ l. l ++ entries same tree m) laws.children_empty)
      ∙ load_entries-overlay same same tree load kept m old (all_back P tree load kept back m all)

  abbrev property_fields : {V : Type 0} → (V → String) → Property V → List (String × T)
  property_fields text q =
      ("key", p.leaf q.key)
      ∷ ("value", p.leaf (text q.value))
      ∷ ("description", p.leaf q.description)
      ∷ ("exposed", p.leaf (p.bool_text q.exposed))
      ∷ []

  children-save_property :
      {V : Type 0} (text : V → String) (q : Property V)
      → p.children (save_property p text q p.empty) ≡ property_fields text q
  unfolding save_property lookup
  children-save_property text q =
      put_last laws _
        (put_last laws _ (put_last laws _ (put_last laws _ laws.children_empty refl refl) refl refl)
          refl refl)
        refl refl

  load_plain-save :
      {V : Type 0} (text : V → String) (read : String → Option V) (zero_value : V) (q : Property V)
      → read (text q.value) ≡ some q.value
      → load_plain p read zero_value (save_property p text q p.empty) ≡ ok (some (untyped q))
  unfolding load_plain lookup untyped
  load_plain-save text read zero_value q back =
      let holds = children-save_property text q in
      rw (
        text_found laws {k = "key"} holds refl refl,
        text_found laws {k = "value"} holds refl refl,
        text_found laws {k = "description"} holds refl refl,
        text_found laws {k = "exposed"} holds refl refl,
        laws.bool q.exposed,
        back,
      )

  module _ (own : String → T → T) (typed : String → Bool)
      (writes : (type : String)
        → typed type ≡ true
        → p.get_optional "type" (own type p.empty) ≡ some type)
      (f : ContextFactory) (fuel : ℕ) where
    abbrev value_tree : Option Context → Option T
    value_tree none = none
    value_tree (some c) = some (save_context p own c p.empty)

    abbrev value_field : Option Context → List (String × T)
    value_field none = []
    value_field (some c) = ("value", save_context p own c p.empty) ∷ []

    abbrev custom_fields : Property (Option Context) → List (String × T)
    custom_fields q =
        ("key", p.leaf q.key)
        ∷ ("description", p.leaf q.description)
        ∷ ("exposed", p.leaf (p.bool_text q.exposed))
        ∷ value_field q.value

    children-save_value :
        (v : Option Context) {root : T} {m : List (String × T)}
        → p.children root ≡ m
        → p.children (save_value p own v root) ≡ m ++ value_field v
    unfolding save_value
    children-save_value none holds = holds ∙ sym (append-nil _)
    children-save_value (some c) holds = add_last laws _ holds refl

    children-save_custom :
        (q : Property (Option Context)) → p.children (save_custom p own q p.empty) ≡ custom_fields q
    unfolding save_custom lookup
    children-save_custom q = children-save_value q.value (
        put_last laws _ (put_last laws _ (put_last laws _ laws.children_empty refl refl) refl refl)
          refl refl)

    value_found :
        (key description exposed : T) (v : Option Context)
        → lookup "value"
            (("key", key) ∷ ("description", description) ∷ ("exposed", exposed) ∷ value_field v)
          ≡ value_tree v
    unfolding lookup
    value_found key description exposed none = refl
    value_found key description exposed (some c) = refl

    load_value-save :
        (v : Option Context)
        → ReadableValue typed f fuel v
        → load_value p f fuel (value_tree v) ≡ ok tt
    unfolding load_value
    load_value-save none readable = refl
    load_value-save (some c) readable = ground (
      arith,
      type_saved laws own typed writes f c readable.1,
      readable.0,
      load_context-save laws own typed writes f fuel c readable.2 readable.1,
    )

    load_new_custom-save :
        (q : Property (Option Context))
        → ReadableValue typed f fuel q.value
        → load_new_custom p f fuel (save_custom p own q p.empty) ≡ ok (some (emptied q))
    unfolding load_new_custom lookup emptied
    load_new_custom-save q readable =
        let holds = children-save_custom q in
        rw (
          text_found laws {k = "key"} holds refl refl,
          text_found laws {k = "description"} holds refl refl,
          text_found laws {k = "exposed"} holds refl refl,
          laws.bool q.exposed,
          laws.get_child "value" (save_custom p own q p.empty) refl,
          holds,
          value_found _ _ _ q.value,
          load_value-save q.value readable,
        )

    abbrev pub set_fields : PropertySet → List (String × T)
    set_fields s =
        ("guarded", p.leaf (p.bool_text s.guarded))
        ∷ (
          "uint_values",
          save_entries p same (λ q. save_property p p.uint_text q p.empty) s.uint_values p.empty,
        )
        ∷ (
          "double_values",
          save_entries p same (λ q. save_property p p.double_text q p.empty) s.double_values
              p.empty,
        )
        ∷ (
          "string_values",
          save_entries p same (λ q. save_property p same q p.empty) s.string_values p.empty,
        )
        ∷ (
          "bool_values",
          save_entries p same (λ q. save_property p p.bool_text q p.empty) s.bool_values p.empty,
        )
        ∷ (
          "custom_values",
          save_entries p same (λ q. save_custom p own q p.empty) s.custom_values p.empty,
        )
        ∷ []

    pub children-save_set :
        (s : PropertySet) {root : T}
        → p.children root ≡ []
        → p.children (save_set p own s root) ≡ set_fields s
    unfolding save_set lookup
    children-save_set s blank_root =
        add_last laws _
          (add_last laws _
            (add_last laws _
              (add_last laws _ (add_last laws _ (put_last laws _ blank_root refl refl) refl) refl)
              refl)
            refl)
          refl

    pub load_set-fields :
        (s old : PropertySet) {root : T}
        → SetStorable typed f fuel s
        → p.children root ≡ set_fields s
        → load_set p f fuel root old ≡ ok (overlay_set old (kept_set s))
    unfolding load_set lookup kept_set overlay_set
    load_set-fields s old {root} storable holds = rw (
      child_found laws {k = "uint_values"} holds refl refl,
      child_found laws {k = "double_values"} holds refl refl,
      child_found laws {k = "string_values"} holds refl refl,
      child_found laws {k = "bool_values"} holds refl refl,
      child_found laws {k = "custom_values"} holds refl refl,
      text_found laws {k = "guarded"} holds refl refl,
      laws.bool s.guarded,
      load_store-save (λ q. q.value < 2 ^ 32) _ (load_plain p p.uint_of 0) untyped
          (λ q small. load_plain-save p.uint_text p.uint_of 0 q (laws.uint q.value small))
          s.uint_values old.uint_values storable.uint_order.0 storable.uint_range,
      load_store-save (λ q. IsFinite q.value) _ (load_plain p p.double_of 0) untyped
          (λ q small. load_plain-save p.double_text p.double_of 0 q (laws.double q.value small))
          s.double_values old.double_values storable.double_order.0 storable.double_range,
      load_store-save (λ q. Unit {0}) _ (load_plain p some "") untyped
          (λ q any. load_plain-save same some "" q refl) s.string_values old.string_values
          storable.string_order.0 (every s.string_values),
      load_store-save (λ q. Unit {0}) _ (load_plain p p.bool_of false) untyped
          (λ q any. load_plain-save p.bool_text p.bool_of false q (laws.bool q.value)) s.bool_values
          old.bool_values storable.bool_order.0 (every s.bool_values),
      load_store-save (λ q. ReadableValue typed f fuel q.value) _ (load_new_custom p f fuel) emptied
          (λ q ok_value. load_new_custom-save q ok_value) s.custom_values old.custom_values
          storable.custom_order.0 storable.readable,
    )

    -- In a new set, a stored set is all there is.
    pub overlay_set_empty :
        (s : PropertySet)
        → SetStorable typed f fuel s
        → overlay_set empty_set (kept_set s) ≡ kept_set s
    unfolding overlay_set empty_set kept_set
    overlay_set_empty s storable = rw (
      overlay_last untyped s.uint_values [] storable.uint_order.1,
      overlay_last untyped s.double_values [] storable.double_order.1,
      overlay_last untyped s.string_values [] storable.string_order.1,
      overlay_last untyped s.bool_values [] storable.bool_order.1,
      overlay_last emptied s.custom_values [] storable.custom_order.1,
    )
