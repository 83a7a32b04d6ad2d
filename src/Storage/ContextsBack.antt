-- ===== src/Storage/ContextsBack.antt =====
-- What a saved context is loaded as: core/context.cpp with tools/context_factory.cpp.
use libworkflow.Prelude.{
  ℕ, suc, zero, ◌+◌, ◌≤◌, String, ◌≡◌, refl, ap, sym, subst, ◌∙◌, false, some, List, [], ◌∷◌, ◌++◌,
  arith, append_assoc, append-nil, Bool, true,
}
use libworkflow.Prelude.Key.{string_key}
use libworkflow.Prelude.Map.{lookup}
use libworkflow.Prelude.Outcome.{Outcome, ok}
use libworkflow.Core.Context.{
  Context, Contexts, Fields, plain, list_ctx, skip_ctx, grouped_ctx, nil, cons, end, field,
  get_type, push_back,
}
use libworkflow.Storage.Tree.{
  PropertyTree, PropertyTreeLaws, is_path, put_last, add_last, text_found,
}
use libworkflow.Storage.Entries.{IsAfter}
use libworkflow.Storage.Contexts.{
  ContextFactory, create_context, save_context, save_items, save_fields, load_item, load_items,
  load_fields, load_context, set_field,
}

-- What a builder makes: the context of the type with nothing in it.
unfoldable pub blank_context : Context → Context
blank_context (plain t) = plain t
blank_context (list_ctx t cs) = list_ctx t nil
blank_context skip_ctx = skip_ctx
blank_context (grouped_ctx fs) = grouped_ctx end

-- How many contexts there are.
unfoldable mutual
  pub context_size : Context → ℕ
  context_size (plain t) = 1
  context_size (list_ctx t cs) = suc (items_size cs)
  context_size skip_ctx = 1
  context_size (grouped_ctx fs) = suc (fields_size fs)

  pub items_size : Contexts → ℕ
  items_size nil = 0
  items_size (cons c cs) = context_size c + items_size cs

  pub fields_size : Fields → ℕ
  fields_size end = 0
  fields_size (field name c fs) = context_size c + fields_size fs

-- The classes of the application that are in use are `typed`: they write their type. What is inside can
-- be made by the factory; the names of a group are in order, not empty and without dots.
unfoldable mutual
  pub Storable : (typed : String → Bool) → ContextFactory → Context → Type 0
  Storable typed f (plain t) = typed t ≡ true
  Storable typed f (list_ctx t cs) = StorableItems typed f cs
  Storable typed f skip_ctx = Unit
  Storable typed f (grouped_ctx fs) = StorableFields typed f [] fs

  pub StorableItems : (typed : String → Bool) → ContextFactory → Contexts → Type 0
  StorableItems typed f nil = Unit
  StorableItems typed f (cons c cs) =
      (create_context f (get_type c) ≡ some (blank_context c))
      × Storable typed f c
      × StorableItems typed f cs

  pub StorableFields : (typed : String → Bool) → ContextFactory → List String → Fields → Type 0
  StorableFields typed f before end = Unit
  StorableFields typed f before (field name c fs) =
      (is_path name ≡ false)
      × IsAfter name before
      × (create_context f (get_type c) ≡ some (blank_context c))
      × Storable typed f c
      × StorableFields typed f (before ++ name ∷ []) fs

abbrev append_items : Contexts → Contexts → Contexts
append_items nil ds = ds
append_items (cons c cs) ds = cons c (append_items cs ds)

append_items-push_back :
    (cs ds : Contexts) (c : Context)
    → append_items (push_back cs c) ds ≡ append_items cs (cons c ds)
unfolding push_back
append_items-push_back nil ds c = refl
append_items-push_back (cons d cs) ds c = ap (cons d) (append_items-push_back cs ds c)

abbrev append_fields : Fields → Fields → Fields
append_fields end gs = gs
append_fields (field n c fs) gs = field n c (append_fields fs gs)

abbrev names : Fields → List String
names end = []
names (field n c fs) = n ∷ names fs

append_items-nil : (cs : Contexts) → append_items cs nil ≡ cs
append_items-nil nil = refl
append_items-nil (cons c cs) = ap (cons c) (append_items-nil cs)

append_fields-end : (fs : Fields) → append_fields fs end ≡ fs
append_fields-end end = refl
append_fields-end (field n c fs) = ap (field n c) (append_fields-end fs)

set_field_last :
    (fs gs : Fields) (name : String) (c : Context)
    → IsAfter name (names fs)
    → append_fields (set_field fs name c) gs ≡ append_fields fs (field name c gs)
unfolding set_field
set_field_last end gs name c after = refl
set_field_last (field n d fs) gs name c after =
    rw (after.0, after.1) (ap (field n d) (set_field_last fs gs name c after.2))

names-set_field :
    (fs : Fields) (name : String) (c : Context)
    → IsAfter name (names fs)
    → names (set_field fs name c) ≡ names fs ++ name ∷ []
unfolding set_field
names-set_field end name c after = refl
names-set_field (field n d fs) name c after =
    rw (after.0, after.1) (ap (λ l. n ∷ l) (names-set_field fs name c after.2))

module _ {T : Type 0} {p : PropertyTree T} (laws : PropertyTreeLaws p) (own : String → T → T) where
  abbrev item_children : Contexts → List (String × T)
  item_children nil = []
  item_children (cons c cs) = ("", save_context p own c p.empty) ∷ item_children cs

  abbrev field_children : Fields → List (String × T)
  field_children end = []
  field_children (field n c fs) = (n, save_context p own c p.empty) ∷ field_children fs

  children-save_items :
      (cs : Contexts) (t : T)
      → p.children (save_items p own cs t) ≡ p.children t ++ item_children cs
  unfolding save_context
  children-save_items nil t = sym (append-nil _)
  children-save_items (cons c cs) t =
      children-save_items cs (p.push_back (save_context p own c p.empty) t)
      ∙ ap (λ l. l ++ item_children cs) (laws.children_push_back (save_context p own c p.empty) t)
      ∙ append_assoc (p.children t) (("", save_context p own c p.empty) ∷ []) (item_children cs)

  children-save_fields :
      (typed : String → Bool) (f : ContextFactory) (before : List String) (fs : Fields) (t : T)
      → StorableFields typed f before fs
      → p.children (save_fields p own fs t) ≡ p.children t ++ field_children fs
  unfolding save_context Storable
  children-save_fields typed f before end t storable = sym (append-nil _)
  children-save_fields typed f before (field n c fs) t storable =
      children-save_fields typed f (before ++ n ∷ []) fs
        (p.add_child n (save_context p own c p.empty) t) storable.4
      ∙ ap (λ l. l ++ field_children fs)
          (laws.children_add_child n (save_context p own c p.empty) t storable.0)
      ∙ append_assoc (p.children t) ((n, save_context p own c p.empty) ∷ []) (field_children fs)

  -- A context with items: its type, and the items below it.
  abbrev with_items : String → T → List (String × T)
  with_items type items = ("type", p.leaf type) ∷ ("items", items) ∷ []

  children-with_items :
      (type : String) (items : T)
      → p.children (p.add_child "items" items (p.put "type" type p.empty)) ≡ with_items type items
  unfolding lookup
  children-with_items type items =
      add_last laws items (put_last laws type laws.children_empty refl refl) refl

  items_found :
      (type : String) (items : T)
      → p.get_child_optional "items" (p.add_child "items" items (p.put "type" type p.empty))
        ≡ some items
  unfolding lookup
  items_found type items =
      laws.get_child "items" _ refl ∙ ap (lookup "items") (children-with_items type items)

  module _ (typed : String → Bool)
      (writes : (type : String)
        → typed type ≡ true
        → p.get_optional "type" (own type p.empty) ≡ some type) where
    pub type_saved :
        (f : ContextFactory) (c : Context)
        → Storable typed f c
        → p.get_optional "type" (save_context p own c p.empty) ≡ some (get_type c)
    unfolding save_context get_type lookup Storable
    type_saved f (plain t) storable = writes t storable
    type_saved f (list_ctx t cs) storable = text_found laws (children-with_items t _) refl refl
    type_saved f skip_ctx storable =
        text_found laws (put_last laws "SkipCtx" laws.children_empty refl refl) refl refl
    type_saved f (grouped_ctx fs) storable =
        text_found laws (children-with_items "GroupedCtx" _) refl refl

    load_item-found :
        (f : ContextFactory) (load : T → Context → Outcome Context) {item : T} {type : String}
        {c loaded : Context}
        → p.get_optional "type" item ≡ some type
        → create_context f type ≡ some c
        → load item c ≡ ok loaded
        → load_item p f load item ≡ ok (some loaded)
    unfolding load_item
    load_item-found f load named made came = ground (arith, named, made, came)

    module _ (f : ContextFactory) (fuel : ℕ) (load : T → Context → Outcome Context)
        (back : (c : Context)
          → context_size c ≤ fuel
          → Storable typed f c
          → load (save_context p own c p.empty) (blank_context c) ≡ ok c) where
      load_item-save :
          (c : Context)
          → context_size c ≤ fuel
          → create_context f (get_type c) ≡ some (blank_context c)
          → Storable typed f c
          → load_item p f load (save_context p own c p.empty) ≡ ok (some c)
      load_item-save c enough made storable =
          load_item-found f load (type_saved f c storable) made (back c enough storable)

      load_items-save :
          (cs done : Contexts)
          → items_size cs ≤ fuel
          → StorableItems typed f cs
          → load_items p f load (item_children cs) done ≡ ok (append_items done cs)
      unfolding load_items context_size Storable
      load_items-save nil done enough storable = ap ok (sym (append_items-nil done))
      load_items-save (cons c cs) done enough storable =
          rw (load_item-save c (omega arith) storable.0 storable.1) (
            load_items-save cs (push_back done c) (omega arith) storable.2
            ∙ ap ok (append_items-push_back done cs c))

      load_fields-save :
          (fs done : Fields)
          → fields_size fs ≤ fuel
          → StorableFields typed f (names done) fs
          → load_fields p f load (field_children fs) done ≡ ok (append_fields done fs)
      unfolding load_fields context_size Storable
      load_fields-save end done enough storable = ap ok (sym (append_fields-end done))
      load_fields-save (field n c fs) done enough storable =
          rw (load_item-save c (omega arith) storable.2 storable.3) (
            load_fields-save fs (set_field done n c) (omega arith) (
              subst (λ l. StorableFields typed f l fs) (sym (names-set_field done n c storable.1))
                storable.4)
            ∙ ap ok (set_field_last done fs n c storable.1))

    -- A saved context, of whatever kind and however nested, is loaded into an empty context of its
    -- type as the context it was, on fuel for the number of contexts in it: where the factory makes
    -- the types of the contexts inside, the names in a group are in order, not empty and without
    -- dots, and the application's own classes that are in use write their type, which a property
    -- set does not.
    pub load_context-save :
        (f : ContextFactory) (fuel : ℕ) (c : Context)
        → context_size c ≤ fuel
        → Storable typed f c
        → load_context p f fuel (save_context p own c p.empty) (blank_context c) ≡ ok c
    unfolding load_context save_context Storable context_size blank_context
    load_context-save f zero (plain t) enough storable = absurd (omega arith)
    load_context-save f zero (list_ctx t cs) enough storable = absurd (omega arith)
    load_context-save f zero skip_ctx enough storable = absurd (omega arith)
    load_context-save f zero (grouped_ctx fs) enough storable = absurd (omega arith)
    load_context-save f (suc fuel) (plain t) enough storable = refl
    load_context-save f (suc fuel) skip_ctx enough storable = refl
    load_context-save f (suc fuel) (list_ctx t cs) enough storable = rw (
      items_found t (save_items p own cs p.empty),
      children-save_items cs p.empty,
      laws.children_empty,
      load_items-save f fuel (λ item c. load_context p f fuel item c) (load_context-save f fuel) cs
          nil (omega arith) storable,
    )
    load_context-save f (suc fuel) (grouped_ctx fs) enough storable = rw (
      items_found "GroupedCtx" (save_fields p own fs p.empty),
      children-save_fields typed f [] fs p.empty storable,
      laws.children_empty,
      load_fields-save f fuel (λ item c. load_context p f fuel item c) (load_context-save f fuel) fs
          end (omega arith) storable,
    )
