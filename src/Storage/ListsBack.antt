-- ===== src/Storage/ListsBack.antt =====
-- The lists of bindings of a state machine, saved and loaded: core/bindings.cpp and
-- core/state_machine.cpp.
use libworkflow.Prelude.{
  String, ◌≡◌, refl, ap, sym, subst, ◌∙◌, true, false, none, some, List, [], ◌∷◌, ◌++◌, append-nil,
  append_assoc, if◌then◌else◌,
}
use libworkflow.Prelude.Int.{ℤ}
use libworkflow.Prelude.Key.{string_key, int_key, ◌==◌, ==_refl, eq_of_==}
use libworkflow.Prelude.Map.{Map, lookup, insert, lookup-insert_self, lookup-insert_ne}
use libworkflow.Core.Bindings.{InputBinding, OutputBinding}
use libworkflow.Core.StateMachine.Layout.{list_at}
use libworkflow.Storage.Tree.{
  PropertyTree, PropertyTreeLaws, IsInt32, put_last, text_found, get_opt,
}
use libworkflow.Storage.Keys.{to_string, read_int, read_int-to_string}
use libworkflow.Storage.Entries.{entries}
use libworkflow.Storage.Machine.{
  save_input, load_input, save_output, load_output, save_list, load_bindings, load_outputs,
  new_output,
}

-- The numbers of a binding are in the range of their type.
abbrev pub InputInRange : InputBinding → Type 0
InputInRange b = IsInt32 b.action_id

abbrev pub OutputInRange : OutputBinding → Type 0
OutputInRange b = IsInt32 b.from_action_id × IsInt32 b.to_action_id

abbrev pub Each : {A : Type 0} → (A → Type 0) → List A → Type 0
Each P [] = Unit
Each P (a ∷ rest) = P a × Each P rest

-- A map has one entry for a key.
abbrev pub Distinct : {V : Type 0} → Map ℤ V → Type 0
Distinct [] = Unit
Distinct ((k, v) ∷ m) = (lookup k m ≡ none) × Distinct m

abbrev pub EachValue : {V : Type 0} → (V → Type 0) → Map ℤ V → Type 0
EachValue P [] = Unit
EachValue P ((k, v) ∷ m) = P v × EachValue P m

pub list_at-insert_self :
    {A : Type 0} (id : ℤ) (l : List A) (m : Map ℤ (List A)) → list_at id (insert id l m) ≡ l
list_at-insert_self id l m = ap (get_opt []) (lookup-insert_self id l m)

pub list_at-insert_ne :
    {A : Type 0} (id j : ℤ) (l : List A) (m : Map ℤ (List A))
    → (id == j) ≡ false
    → list_at j (insert id l m) ≡ list_at j m
list_at-insert_ne id j l m other = ap (get_opt []) (lookup-insert_ne id j l m other)

pub list_at-head_self :
    {A : Type 0} (k : ℤ) (l : List A) (m : Map ℤ (List A)) → list_at k ((k, l) ∷ m) ≡ l
unfolding lookup
list_at-head_self k l m = ap (λ c. get_opt [] (if c then some l else lookup k m)) (==_refl k)

pub list_at-head_ne :
    {A : Type 0} (k j : ℤ) (l : List A) (m : Map ℤ (List A))
    → (k == j) ≡ false
    → list_at j ((k, l) ∷ m) ≡ list_at j m
unfolding lookup
list_at-head_ne k j l m other = ap (λ c. get_opt [] (if c then some l else lookup j m)) other

module _ {T : Type 0} {p : PropertyTree T} (laws : PropertyTreeLaws p) where
  abbrev pub list_children : {A : Type 0} → (A → T → T) → List A → List (String × T)
  list_children save [] = []
  list_children save (a ∷ rest) = ("", save a p.empty) ∷ list_children save rest

  pub children-save_list :
      {A : Type 0} (save : A → T → T) (l : List A) (t : T)
      → p.children (save_list p save l t) ≡ p.children t ++ list_children save l
  unfolding save_list
  children-save_list save [] t = sym (append-nil _)
  children-save_list save (a ∷ rest) t =
      children-save_list save rest (p.push_back (save a p.empty) t)
      ∙ ap (λ l. l ++ list_children save rest) (laws.children_push_back (save a p.empty) t)
      ∙ append_assoc (p.children t) (("", save a p.empty) ∷ []) (list_children save rest)

  children-save_input :
      (b : InputBinding)
      → p.children (save_input p b p.empty)
        ≡ ("workflow_input", p.leaf b.workflow_input)
          ∷ ("action_id", p.leaf (p.int_text b.action_id))
          ∷ ("action_input", p.leaf b.action_input)
          ∷ []
  unfolding save_input lookup
  children-save_input b =
      put_last laws b.action_input
        (put_last laws (p.int_text b.action_id)
          (put_last laws b.workflow_input laws.children_empty refl refl) refl refl)
        refl refl

  children-save_output :
      (b : OutputBinding)
      → p.children (save_output p b p.empty)
        ≡ ("from_action_id", p.leaf (p.int_text b.from_action_id))
          ∷ ("from_action_output", p.leaf b.from_action_output)
          ∷ ("to_action_id", p.leaf (p.int_text b.to_action_id))
          ∷ ("to_action_input", p.leaf b.to_action_input)
          ∷ []
  unfolding save_output lookup
  children-save_output b =
      put_last laws b.to_action_input
        (put_last laws (p.int_text b.to_action_id)
          (put_last laws b.from_action_output
            (put_last laws (p.int_text b.from_action_id) laws.children_empty refl refl) refl refl)
          refl refl)
        refl refl

  pub load_input-save :
      (b old : InputBinding) → InputInRange b → load_input p (save_input p b p.empty) old ≡ b
  unfolding load_input lookup
  load_input-save b old range =
      let holds = children-save_input b in
      rw (
        text_found laws {k = "workflow_input"} holds refl refl,
        text_found laws {k = "action_id"} holds refl refl,
        text_found laws {k = "action_input"} holds refl refl,
        laws.int b.action_id range,
      )

  pub load_output-save :
      (b old : OutputBinding) → OutputInRange b → load_output p (save_output p b p.empty) old ≡ b
  unfolding load_output lookup
  load_output-save b old range =
      let holds = children-save_output b in
      rw (
        text_found laws {k = "from_action_id"} holds refl refl,
        text_found laws {k = "from_action_output"} holds refl refl,
        text_found laws {k = "to_action_id"} holds refl refl,
        text_found laws {k = "to_action_input"} holds refl refl,
        laws.int b.from_action_id range.0,
        laws.int b.to_action_id range.1,
      )

  load_bindings-save_self :
      (id : ℤ) (bs : List OutputBinding) (m : Map ℤ (List OutputBinding))
      → Each OutputInRange bs
      → list_at id (load_bindings p id (list_children (save_output p) bs) m) ≡ list_at id m ++ bs
  unfolding load_bindings
  load_bindings-save_self id [] m range = sym (append-nil _)
  load_bindings-save_self id (b ∷ bs) m range =
      let here = list_at id m ++ load_output p (save_output p b p.empty) new_output ∷ [] in
      load_bindings-save_self id bs (insert id here m) range.1
      ∙ ap (λ l. l ++ bs) (list_at-insert_self id here m)
      ∙ append_assoc (list_at id m) (load_output p (save_output p b p.empty) new_output ∷ []) bs
      ∙ ap (λ c. list_at id m ++ c ∷ bs) (load_output-save b new_output range.0)

  load_bindings-ne :
      (id j : ℤ) (items : List (String × T)) (m : Map ℤ (List OutputBinding))
      → (id == j) ≡ false
      → list_at j (load_bindings p id items m) ≡ list_at j m
  unfolding load_bindings
  load_bindings-ne id j [] m other = refl
  load_bindings-ne id j ((k, item) ∷ items) m other =
      let here = list_at id m ++ load_output p item new_output ∷ [] in
      load_bindings-ne id j items (insert id here m) other ∙ list_at-insert_ne id j here m other

  abbrev pub bindings_tree : List OutputBinding → T
  bindings_tree bs = save_list p (save_output p) bs p.empty

  children-bindings_tree :
      (bs : List OutputBinding) → p.children (bindings_tree bs) ≡ list_children (save_output p) bs
  children-bindings_tree bs =
      children-save_list (save_output p) bs p.empty
      ∙ ap (λ l. l ++ list_children (save_output p) bs) laws.children_empty

  load_bindings_at :
      (j k : ℤ) (bs : List OutputBinding) (rest m : Map ℤ (List OutputBinding))
      → Each OutputInRange bs
      → lookup k rest ≡ none
      → list_at j (load_bindings p k (p.children (bindings_tree bs)) m) ++ list_at j rest
        ≡ list_at j m ++ list_at j ((k, bs) ∷ rest)
  load_bindings_at j k bs rest m range single =
      elim (k == j)
          as (λ c.
            (k == j) ≡ c
            → list_at j (load_bindings p k (p.children (bindings_tree bs)) m) ++ list_at j rest
              ≡ list_at j m ++ list_at j ((k, bs) ∷ rest)) [
                | true ↦ λ same.
                    subst
                      (λ i.
                        list_at i (load_bindings p k (p.children (bindings_tree bs)) m)
                          ++ list_at i rest
                        ≡ list_at i m ++ list_at i ((k, bs) ∷ rest))
                      (eq_of_== k j same)
                      (ap (λ l. list_at k (load_bindings p k l m) ++ list_at k rest)
                          (children-bindings_tree bs)
                        ∙ ap (λ l. l ++ list_at k rest) (load_bindings-save_self k bs m range)
                        ∙ ap (λ l. (list_at k m ++ bs) ++ l) (ap (get_opt []) single)
                        ∙ append-nil (list_at k m ++ bs)
                        ∙ ap (λ l. list_at k m ++ l) (sym (list_at-head_self k bs rest)))
                | false ↦ λ other.
                    ap (λ l. l ++ list_at j rest)
                      (load_bindings-ne k j (p.children (bindings_tree bs)) m other)
                    ∙ ap (λ l. list_at j m ++ l) (sym (list_at-head_ne k j bs rest other))
              ]
        refl

  pub load_outputs-save :
      (j : ℤ) (n m : Map ℤ (List OutputBinding))
      → Distinct n
      → EachValue (Each OutputInRange) n
      → list_at j (load_outputs p (entries to_string bindings_tree n) m)
        ≡ list_at j m ++ list_at j n
  unfolding load_outputs lookup
  load_outputs-save j [] m distinct range = sym (append-nil _)
  load_outputs-save j ((k, bs) ∷ rest) m distinct range =
      load_outputs-save j rest
        (load_bindings p (read_int (to_string k)) (p.children (bindings_tree bs)) m) distinct.1
        range.1
      ∙ ap (λ i. list_at j (load_bindings p i (p.children (bindings_tree bs)) m) ++ list_at j rest)
          (read_int-to_string k)
      ∙ load_bindings_at j k bs rest m range.0 distinct.0
