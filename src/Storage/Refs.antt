-- ===== src/Storage/Refs.antt =====
-- contexts/refs_storage_ctx.cpp: the texts of actions, contexts and workflows, `save` and `load`.
use libworkflow.Prelude.{
  String, ◌≡◌, ◌≢◌, refl, ap, sym, ◌∙◌, Option, none, some, List, [], ◌∷◌, ◌++◌, append-nil,
  append_assoc, subst,
}
use libworkflow.Prelude.Key.{string_key}
use libworkflow.Prelude.Map.{Map, lookup, insert, insert-insert, lookup-insert_self}
use libworkflow.Storage.Tree.{PropertyTree, PropertyTreeLaws, put_last, add_last, child_found}
use libworkflow.Storage.Entries.{
  save_entries, entries, children-save_entries, PlainKeys, Follow, IsAfter, keys, keys-append,
  insert_last, overlay, overlay_new,
}

pub record Refs : Type 0 where
  pub actions : Map String String
  pub contexts : Map String String
  pub workflows : Map String (Map String String)

abbrev pub no_refs : Refs
no_refs = record { actions = []; contexts = []; workflows = [] }

abbrev row_at : String → Map String (Map String String) → Map String String
row_at name m = elim (lookup name m) [ none ↦ [] | some row ↦ row ]

module _ {T : Type 0} (p : PropertyTree T) where
  -- `put(key, text)` for each entry.
  unfoldable pub save_texts : Map String String → T → T
  save_texts [] t = t
  save_texts ((key, text) ∷ m) t = save_texts m (p.put key text t)

  unfoldable pub save_refs : Refs → T → T
  unfolding save_texts save_entries
  save_refs r root =
      p.add_child "workflows"
        (save_entries p (λ name. name) (λ row. save_texts row p.empty) r.workflows p.empty)
        (p.add_child "contexts" (save_texts r.contexts p.empty)
          (p.add_child "actions" (save_texts r.actions p.empty) root))

  unfoldable pub load_texts : List (String × T) → Map String String → Map String String
  load_texts [] m = m
  load_texts ((key, t) ∷ ts) m = load_texts ts (insert key (p.text t) m)

  -- `workflows[name][key] = text` for each child of a controller.
  unfoldable pub load_row :
      String → List (String × T) → Map String (Map String String) → Map String (Map String String)
  load_row name [] m = m
  load_row name ((key, t) ∷ ts) m =
      load_row name ts (insert name (insert key (p.text t) (row_at name m)) m)

  unfoldable pub load_rows :
      List (String × T) → Map String (Map String String) → Map String (Map String String)
  unfolding load_row
  load_rows [] m = m
  load_rows ((name, t) ∷ ts) m = load_rows ts (load_row name (p.children t) m)

  abbrev pub children_of : Option T → List (String × T)
  children_of none = []
  children_of (some t) = p.children t

  unfoldable pub load_refs : T → Refs → Refs
  unfolding load_texts load_rows
  load_refs root r = record {
    actions = load_texts (children_of (p.get_child_optional "actions" root)) r.actions;
    contexts = load_texts (children_of (p.get_child_optional "contexts" root)) r.contexts;
    workflows = load_rows (children_of (p.get_child_optional "workflows" root)) r.workflows;
  }

-- A map from texts to texts that is saved and loaded as it is: its keys are not empty,
-- have no dot and are in order.
pub record TextsStorable (m : Map String String) : Type 0 where
  pub plain : PlainKeys (λ k. k) m
  pub order : Follow [] (keys m)

abbrev pub RowsStorable : Map String (Map String String) → Type 0
RowsStorable [] = Unit
RowsStorable ((name, row) ∷ m) = TextsStorable row × (row ≢ []) × RowsStorable m

module _ {T : Type 0} {p : PropertyTree T} (laws : PropertyTreeLaws p) where
  load_texts-entries :
      (m done : Map String String) → load_texts p (entries (λ k. k) p.leaf m) done ≡ overlay done m
  unfolding load_texts overlay
  load_texts-entries [] done = refl
  load_texts-entries ((k, v) ∷ m) done =
      ap (λ text. load_texts p (entries (λ k. k) p.leaf m) (insert k text done)) (laws.text_leaf v)
      ∙ load_texts-entries m (insert k v done)

  load_row-entries :
      (name k v : String) (m : Map String String) (ws : Map String (Map String String))
      → load_row p name (entries (λ k. k) p.leaf ((k, v) ∷ m)) ws
        ≡ insert name (overlay (row_at name ws) ((k, v) ∷ m)) ws
  unfolding load_row overlay
  load_row-entries name k v [] ws =
      ap (λ text. insert name (insert k text (row_at name ws)) ws) (laws.text_leaf v)
  load_row-entries name k v ((l, w) ∷ m) ws =
      let first : Map String String = insert k v (row_at name ws) in
      ap
        (λ text.
          load_row p name (entries (λ k. k) p.leaf ((l, w) ∷ m))
            (insert name (insert k text (row_at name ws)) ws))
        (laws.text_leaf v)
      ∙ load_row-entries name l w m (insert name first ws)
      ∙ ap
          (λ o.
            insert name (overlay (elim o [ none ↦ [] | some row ↦ row ]) ((l, w) ∷ m))
              (insert name first ws))
          (lookup-insert_self name first ws)
      ∙ insert-insert name (overlay first ((l, w) ∷ m)) first ws

  fresh_key :
      {V : Type 0} (k : String) (before : Map String V)
      → IsAfter k (keys before)
      → lookup k before ≡ none
  unfolding lookup
  fresh_key k [] after = refl
  fresh_key k ((b, x) ∷ before) after = rw (after.0) (fresh_key k before after.2)

  children-save_texts :
      (m : Map String String) (before : Map String T) (t : T)
      → p.children t ≡ before
      → PlainKeys (λ k. k) m
      → Follow (keys before) (keys m)
      → p.children (save_texts p m t) ≡ before ++ entries (λ k. k) p.leaf m
  unfolding save_texts
  children-save_texts [] before t holds plain order = holds ∙ sym (append-nil before)
  children-save_texts ((k, v) ∷ m) before t holds plain order =
      children-save_texts m (before ++ (k, p.leaf v) ∷ []) (p.put k v t)
        (put_last laws v holds plain.0 (fresh_key k before order.0)) plain.1
        (subst (λ l. Follow l (keys m)) (sym (keys-append before k (p.leaf v))) order.1)
      ∙ append_assoc before ((k, p.leaf v) ∷ []) (entries (λ k. k) p.leaf m)

  saved_texts :
      (m : Map String String)
      → TextsStorable m
      → p.children (save_texts p m p.empty) ≡ entries (λ k. k) p.leaf m
  saved_texts m storable =
      children-save_texts m [] p.empty laws.children_empty storable.plain storable.order

  texts-back :
      (m : Map String String)
      → TextsStorable m
      → load_texts p (p.children (save_texts p m p.empty)) [] ≡ m
  texts-back m storable =
      ap (λ ts. load_texts p ts []) (saved_texts m storable)
      ∙ load_texts-entries m []
      ∙ overlay_new m storable.order

  abbrev saved_row : Map String String → T
  saved_row row = save_texts p row p.empty

  row-back :
      (name : String) (row : Map String String) (ws : Map String (Map String String))
      → TextsStorable row
      → row ≢ []
      → IsAfter name (keys ws)
      → load_row p name (p.children (saved_row row)) ws ≡ insert name row ws
  row-back name [] ws storable nonempty after = absurd (nonempty refl)
  row-back name ((k, v) ∷ row) ws storable nonempty after =
      ap (λ ts. load_row p name ts ws) (saved_texts ((k, v) ∷ row) storable)
      ∙ load_row-entries name k v row ws
      ∙ ap (λ o. insert name (overlay (elim o [ none ↦ [] | some r ↦ r ]) ((k, v) ∷ row)) ws)
          (fresh_key name ws after)
      ∙ ap (λ r. insert name r ws) (overlay_new ((k, v) ∷ row) storable.order)

  rows-back :
      (m ws : Map String (Map String String))
      → RowsStorable m
      → Follow (keys ws) (keys m)
      → load_rows p (entries (λ n. n) saved_row m) ws ≡ overlay ws m
  unfolding load_rows overlay
  rows-back [] ws storable order = refl
  rows-back ((name, row) ∷ m) ws storable order =
      ap (load_rows p (entries (λ n. n) saved_row m))
        (row-back name row ws storable.0 storable.1 order.0)
      ∙ rows-back m (insert name row ws) storable.2 (
          subst (λ l. Follow l (keys m))
            (sym (ap keys (insert_last name row ws order.0) ∙ keys-append ws name row)) order.1)

  -- What the context is saved as is read back as it was, if the keys are not empty and have no dot,
  -- every map is in order, and every controller has a workflow: one without workflows leaves no row.
  pub refs-back :
      (r : Refs)
      → TextsStorable r.actions
      → TextsStorable r.contexts
      → RowsStorable r.workflows
      → PlainKeys (λ n. n) r.workflows
      → Follow [] (keys r.workflows)
      → load_refs p (save_refs p r p.empty) no_refs ≡ r
  unfolding load_refs save_refs lookup
  refs-back r actions contexts rows plain order =
      let holds =
        add_last laws (save_entries p (λ n. n) saved_row r.workflows p.empty)
          (add_last laws (save_texts p r.contexts p.empty)
            (add_last laws (save_texts p r.actions p.empty) laws.children_empty refl) refl)
          refl in
      let one : load_texts p
            (children_of p (p.get_child_optional "actions" (save_refs p r p.empty))) []
          ≡ r.actions =
        ap (λ o. load_texts p (children_of p o) []) (child_found laws holds refl refl)
        ∙ texts-back r.actions actions in
      let two : load_texts p
            (children_of p (p.get_child_optional "contexts" (save_refs p r p.empty))) []
          ≡ r.contexts =
        ap (λ o. load_texts p (children_of p o) []) (child_found laws holds refl refl)
        ∙ texts-back r.contexts contexts in
      let three : load_rows p
            (children_of p (p.get_child_optional "workflows" (save_refs p r p.empty))) []
          ≡ r.workflows =
        ap (λ o. load_rows p (children_of p o) []) (child_found laws holds refl refl)
        ∙ ap (λ ts. load_rows p ts [])
            (children-save_entries laws (λ n. n) saved_row r.workflows p.empty plain
              ∙ ap (λ l. l ++ entries (λ n. n) saved_row r.workflows) laws.children_empty)
        ∙ rows-back r.workflows [] rows order
        ∙ overlay_new r.workflows order in
      λ i. record { actions = one i; contexts = two i; workflows = three i }
