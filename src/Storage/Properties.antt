-- ===== src/Storage/Properties.antt =====
-- tools/property.h and tools/property_set.cpp: `save` and `load` of a property of each kind, and of
-- a set. A property read back has no `type`: the field is not stored, so it is what the memory
-- held, here `uint` as in a blank property.
use libworkflow.Prelude.{ℕ, String, false, Option, none, some}
use libworkflow.Prelude.Key.{string_key}
use libworkflow.Prelude.Map.{Map}
use libworkflow.Prelude.Outcome.{Outcome, ok, ◌>>=◌}
use libworkflow.Core.Context.{Context}
use libworkflow.Tools.PropertySet.Typed.{Property, PropertySet, blank}
use libworkflow.Storage.Tree.{PropertyTree, get_opt, bind}
use libworkflow.Storage.Entries.{save_entries, load_entries}
use libworkflow.Storage.Contexts.{ContextFactory, create_context, save_context, load_context}

-- A key of the map is the key in the tree.
abbrev pub same : String → String
same s = s

-- The sub-tree of a store, if the tree has it, is stored again entry by entry.
abbrev pub load_store :
    {T V : Type 0}
    → PropertyTree T
    → (T → Outcome (Option V))
    → Option T
    → Map String V
    → Outcome (Map String V)
load_store p load none m = ok m
load_store p load (some items) m = load_entries same load (p.children items) m

module _ {T : Type 0} (p : PropertyTree T) where
  -- The four plain kinds: the value goes through its text.
  unfoldable pub save_property : {V : Type 0} → (V → String) → Property V → T → T
  save_property text q root =
      p.put "exposed" (p.bool_text q.exposed)
        (p.put "description" q.description (p.put "value" (text q.value) (p.put "key" q.key root)))

  unfoldable pub load_property : {V : Type 0} → (String → Option V) → T → Property V → Property V
  load_property read root q = record q {
    key = get_opt q.key (p.get_optional "key" root);
    value = get_opt q.value (bind (p.get_optional "value" root) read);
    description = get_opt q.description (p.get_optional "description" root);
    exposed = get_opt q.exposed (bind (p.get_optional "exposed" root) p.bool_of);
  }

  -- A stored property goes into a new one.
  unfoldable pub load_plain :
      {V : Type 0} → (String → Option V) → V → T → Outcome (Option (Property V))
  unfolding load_property
  load_plain read zero_value item = ok (some (load_property read item (blank zero_value)))

  module _ (own : String → T → T) where
    unfoldable pub save_value : Option Context → T → T
    unfolding save_context
    save_value none root = root
    save_value (some c) root = p.add_child "value" (save_context p own c p.empty) root

    unfoldable pub save_custom : Property (Option Context) → T → T
    unfolding save_value
    save_custom q root = save_value q.value (
        p.put "exposed" (p.bool_text q.exposed)
          (p.put "description" q.description (p.put "key" q.key root)))

    unfoldable pub save_set : PropertySet → T → T
    unfolding save_entries save_property save_custom
    save_set s root =
        p.add_child "custom_values"
          (save_entries p same (λ q. save_custom q p.empty) s.custom_values p.empty)
          (p.add_child "bool_values"
            (save_entries p same (λ q. save_property p.bool_text q p.empty) s.bool_values p.empty)
            (p.add_child "string_values"
              (save_entries p same (λ q. save_property same q p.empty) s.string_values p.empty)
              (p.add_child "double_values"
                (save_entries p same (λ q. save_property p.double_text q p.empty) s.double_values
                  p.empty)
                (p.add_child "uint_values"
                  (save_entries p same (λ q. save_property p.uint_text q p.empty) s.uint_values
                    p.empty)
                  (p.put "guarded" (p.bool_text s.guarded) root)))))

  module _ (f : ContextFactory) (fuel : ℕ) where
    -- The context of the value is made and loaded, and then let go: no line gives it to `value`.
    unfoldable pub load_value : Option T → Outcome (Unit {0})
    unfolding create_context load_context
    load_value none = ok tt
    load_value (some item) = elim (create_context f (get_opt "" (p.get_optional "type" item))) [
      | none ↦ ok tt
      | some c ↦ load_context p f fuel item c >>= (λ loaded. ok tt)
    ]

    unfoldable pub load_custom : T → Property (Option Context) → Outcome (Property (Option Context))
    unfolding load_value
    load_custom root q = do
      done ← load_value (p.get_child_optional "value" root)
      ok (record q {
        key = get_opt q.key (p.get_optional "key" root);
        description = get_opt q.description (p.get_optional "description" root);
        exposed = get_opt q.exposed (bind (p.get_optional "exposed" root) p.bool_of);
      })

    unfoldable pub load_new_custom : T → Outcome (Option (Property (Option Context)))
    unfolding load_custom
    load_new_custom item = load_custom item (blank none) >>= (λ q. ok (some q))

    unfoldable pub load_set : T → PropertySet → Outcome PropertySet
    unfolding load_entries load_plain load_new_custom
    load_set root s = do
      uint_values ←
          load_store p (load_plain p.uint_of 0) (p.get_child_optional "uint_values" root)
            s.uint_values
      double_values ←
          load_store p (load_plain p.double_of 0) (p.get_child_optional "double_values" root)
            s.double_values
      string_values ←
          load_store p (load_plain some "") (p.get_child_optional "string_values" root)
            s.string_values
      bool_values ←
          load_store p (load_plain p.bool_of false) (p.get_child_optional "bool_values" root)
            s.bool_values
      custom_values ←
          load_store p load_new_custom (p.get_child_optional "custom_values" root) s.custom_values
      ok (record s {
        guarded = get_opt s.guarded (bind (p.get_optional "guarded" root) p.bool_of);
        uint_values = uint_values;
        double_values = double_values;
        bool_values = bool_values;
        string_values = string_values;
        custom_values = custom_values;
      })
