-- ===== src/Storage/Contexts.antt =====
-- core/context.cpp: `save` and `load` of the contexts, and tools/context_factory.cpp, which makes
-- the empty context that a stored one is loaded into. A class that the application derives has its
-- own `save`, which is a parameter. `load` follows the tree, on fuel.
use libworkflow.Prelude.{
  ℕ, suc, zero, String, Option, none, some, List, [], ◌∷◌, is_empty, if◌then◌else◌,
}
use libworkflow.Prelude.Key.{string_key}
use libworkflow.Prelude.Map.{Map, lookup, insert}
use libworkflow.Prelude.Outcome.{Outcome, ok, fault, thrown, out_of_fuel, ◌>>=◌}
use libworkflow.Core.Context.{
  Context, Contexts, Fields, plain, list_ctx, skip_ctx, grouped_ctx, nil, cons, end, field,
  get_type, push_back,
}
use libworkflow.Storage.Tree.{PropertyTree}

-- The builders under the names of what they make. A builder is known by its empty context.
abbrev pub ContextFactory : Type 0
ContextFactory = Map String Context

-- `registerContext`: a null pointer, and a builder without a name, are not taken.
unfoldable pub register_context : Option Context → ContextFactory → ContextFactory
unfolding get_type
register_context none f = f
register_context (some c) f = if is_empty (get_type c) then f else insert (get_type c) c f

unfoldable pub create_context : ContextFactory → String → Option Context
create_context f type = lookup type f

-- `setContext` on the fields of a `GroupedCtx`.
unfoldable pub set_field : Fields → String → Context → Fields
set_field end name c = field name c end
set_field (field n d fs) name c =
    let rest = field n d (set_field fs name c) in
    if string_key.eqb n name
    then field name c fs
    else if string_key.less name n
    then field name c (field n d fs)
    else rest

module _ {T : Type 0} (p : PropertyTree T) (own : String → T → T) where
  unfoldable mutual
    pub save_context : Context → T → T
    save_context (plain t) root = own t root
    save_context (list_ctx t cs) root =
        p.add_child "items" (save_items cs p.empty) (p.put "type" t root)
    save_context skip_ctx root = p.put "type" "SkipCtx" root
    save_context (grouped_ctx fs) root =
        p.add_child "items" (save_fields fs p.empty) (p.put "type" "GroupedCtx" root)

    pub save_items : Contexts → T → T
    save_items nil items = items
    save_items (cons c cs) items = save_items cs (p.push_back (save_context c p.empty) items)

    pub save_fields : Fields → T → T
    save_fields end items = items
    save_fields (field name c fs) items =
        save_fields fs (p.add_child name (save_context c p.empty) items)

module _ {T : Type 0} (p : PropertyTree T) (f : ContextFactory) where
  -- The body of both loops: an item without a type throws, and one that no builder makes is
  -- passed over.
  unfoldable pub load_item : (T → Context → Outcome Context) → T → Outcome (Option Context)
  unfolding create_context
  load_item load item = elim (p.get_optional "type" item) [
    | none ↦ fault thrown
    | some type ↦ elim (create_context f type) [
      | none ↦ ok none
      | some c ↦ load item c >>= (λ loaded. ok (some loaded))
    ]
  ]

  abbrev pub push_some : Contexts → Option Context → Contexts
  push_some cs none = cs
  push_some cs (some c) = push_back cs c

  abbrev pub set_some : Fields → String → Option Context → Fields
  set_some fs name none = fs
  set_some fs name (some c) = set_field fs name c

  unfoldable pub load_items :
      (T → Context → Outcome Context) → List (String × T) → Contexts → Outcome Contexts
  unfolding load_item push_back
  load_items load [] cs = ok cs
  load_items load ((k, item) ∷ items) cs = do
    c ← load_item load item
    load_items load items (push_some cs c)

  unfoldable pub load_fields :
      (T → Context → Outcome Context) → List (String × T) → Fields → Outcome Fields
  unfolding load_item set_field
  load_fields load [] fs = ok fs
  load_fields load ((k, item) ∷ items) fs = do
    c ← load_item load item
    load_fields load items (set_some fs k c)

  -- `load`: what the application's own classes read is not modelled, and their type stays.
  unfoldable pub load_context : ℕ → T → Context → Outcome Context
  unfolding load_items load_fields
  load_context zero root c = fault out_of_fuel
  load_context (suc fuel) root (plain t) = ok (plain t)
  load_context (suc fuel) root skip_ctx = ok skip_ctx
  load_context (suc fuel) root (list_ctx t cs) = elim (p.get_child_optional "items" root) [
    | none ↦ ok (list_ctx t cs)
    | some items ↦
        load_items (λ item c. load_context fuel item c) (p.children items) cs
        >>= (λ loaded. ok (list_ctx t loaded))
  ]
  load_context (suc fuel) root (grouped_ctx fs) = elim (p.get_child_optional "items" root) [
    | none ↦ ok (grouped_ctx fs)
    | some items ↦
        load_fields (λ item c. load_context fuel item c) (p.children items) fs
        >>= (λ loaded. ok (grouped_ctx loaded))
  ]
