-- ===== src/Storage/ExposedBack.antt =====
-- The starters of a state machine and the properties that it exposes, saved and loaded:
-- core/bindings.cpp and core/state_machine.cpp.
use libworkflow.Prelude.{
  String, ◌≡◌, refl, ap, sym, subst, ◌∙◌, true, false, none, some, List, [], ◌∷◌, ◌++◌, append-nil,
  append_assoc, if◌then◌else◌,
}
use libworkflow.Prelude.Int.{ℤ}
use libworkflow.Prelude.Key.{string_key, int_key, ◌==◌, eq_of_==}
use libworkflow.Prelude.Map.{Map, lookup, insert}
use libworkflow.Core.Bindings.{InputBinding}
use libworkflow.Core.StateMachine.Layout.{StateMachine, list_at, add_input}
use libworkflow.Storage.Tree.{PropertyTree, PropertyTreeLaws, get_opt, put_last}
use libworkflow.Storage.Keys.{to_string, read_int, read_int-to_string}
use libworkflow.Storage.Entries.{
  PlainKeys, IsAfter, Follow, keys, keys-append, entries, overlay, overlay_new,
}
use libworkflow.Storage.Properties.{same}
use libworkflow.Storage.PropertiesBack.{InOrder}
use libworkflow.Storage.Machine.{
  save_input, save_aliases, load_input, load_inputs, load_aliases, load_exposed, new_input,
}
use libworkflow.Storage.ListsBack.{
  InputInRange, Each, Distinct, EachValue, list_children, load_input-save, list_at-insert_self,
  list_at-insert_ne, list_at-head_self, list_at-head_ne,
}

list_at-InOrder :
    (j : ℤ) (n : Map ℤ (Map String String)) → EachValue InOrder n → InOrder (list_at j n)
unfolding lookup
list_at-InOrder j [] order = (tt, tt)
list_at-InOrder j ((k, aliases) ∷ n) order =
    elim (k == j) as (λ c. InOrder (get_opt [] (if c then some aliases else lookup j n))) [
      | true ↦ order.0
      | false ↦ list_at-InOrder j n order.1
    ]

module _ {T : Type 0} {p : PropertyTree T} (laws : PropertyTreeLaws p) where
  pub load_inputs-save :
      (bs : List InputBinding) (m : StateMachine)
      → Each InputInRange bs
      → load_inputs p (list_children laws (save_input p) bs) m
        ≡ record m { starters = m.starters ++ bs }
  unfolding load_inputs add_input
  load_inputs-save [] m range = ap (λ l. record m { starters = l }) (sym (append-nil m.starters))
  load_inputs-save (b ∷ bs) m range =
      load_inputs-save bs (add_input (load_input p (save_input p b p.empty) new_input) m) range.1
      ∙ ap (λ c. record m { starters = (m.starters ++ c ∷ []) ++ bs })
          (load_input-save laws b new_input range.0)
      ∙ ap (λ l. record m { starters = l }) (append_assoc m.starters (b ∷ []) bs)

  abbrev alias_children : Map String String → List (String × T)
  alias_children [] = []
  alias_children ((alias, key) ∷ m) = (alias, p.leaf key) ∷ alias_children m

  alias_children-append :
      (m n : Map String String) → alias_children (m ++ n) ≡ alias_children m ++ alias_children n
  alias_children-append [] n = refl
  alias_children-append ((alias, key) ∷ m) n =
      ap (λ l. (alias, p.leaf key) ∷ l) (alias_children-append m n)

  new_alias :
      (a : String) (m : Map String String) → IsAfter a (keys m) → lookup a (alias_children m) ≡ none
  unfolding lookup
  new_alias a [] after = refl
  new_alias a ((b, key) ∷ m) after = rw (after.0) (new_alias a m after.2)

  children-save_aliases :
      (m done : Map String String) (t : T)
      → p.children t ≡ alias_children done
      → PlainKeys same m
      → Follow (keys done) (keys m)
      → p.children (save_aliases p m t) ≡ alias_children (done ++ m)
  unfolding save_aliases
  children-save_aliases [] done t holds plain order =
      holds ∙ ap alias_children (sym (append-nil done))
  children-save_aliases ((alias, key) ∷ m) done t holds plain order =
      children-save_aliases m (done ++ (alias, key) ∷ []) (p.put alias key t)
        (put_last laws key holds plain.0 (new_alias alias done order.0)
          ∙ sym (alias_children-append done ((alias, key) ∷ [])))
        plain.1
        (subst (λ before. Follow before (keys m)) (sym (keys-append done alias key)) order.1)
      ∙ ap alias_children (append_assoc done ((alias, key) ∷ []) m)

  load_aliases_self :
      (id : ℤ) (aliases : Map String String) (m : Map ℤ (Map String String))
      → list_at id (load_aliases p id (alias_children aliases) m) ≡ overlay (list_at id m) aliases
  unfolding load_aliases overlay
  load_aliases_self id [] m = refl
  load_aliases_self id ((alias, key) ∷ aliases) m =
      let here = insert alias (p.text (p.leaf key)) (list_at id m) in
      load_aliases_self id aliases (insert id here m)
      ∙ ap (λ l. overlay l aliases) (list_at-insert_self id here m)
      ∙ ap (λ text. overlay (insert alias text (list_at id m)) aliases) (laws.text_leaf key)

  load_aliases_ne :
      (id j : ℤ) (items : List (String × T)) (m : Map ℤ (Map String String))
      → (id == j) ≡ false
      → list_at j (load_aliases p id items m) ≡ list_at j m
  unfolding load_aliases
  load_aliases_ne id j [] m other = refl
  load_aliases_ne id j ((alias, item) ∷ items) m other =
      let here = insert alias (p.text item) (list_at id m) in
      load_aliases_ne id j items (insert id here m) other ∙ list_at-insert_ne id j here m other

  abbrev pub aliases_tree : Map String String → T
  aliases_tree aliases = save_aliases p aliases p.empty

  load_aliases_at :
      (j k : ℤ) (aliases : Map String String) (rest m : Map ℤ (Map String String))
      → InOrder aliases
      → lookup k rest ≡ none
      → overlay
          (list_at j (load_aliases p k (p.children (aliases_tree aliases)) m))
          (list_at j rest)
        ≡ overlay (list_at j m) (list_at j ((k, aliases) ∷ rest))
  unfolding overlay
  load_aliases_at j k aliases rest m order single =
      elim (k == j)
          as (λ c.
            (k == j) ≡ c
            → overlay (list_at j (load_aliases p k (p.children (aliases_tree aliases)) m))
                (list_at j rest)
              ≡ overlay (list_at j m) (list_at j ((k, aliases) ∷ rest))) [
                | true ↦ λ equal.
                    subst
                      (λ i.
                        overlay (list_at i (load_aliases p k (p.children (aliases_tree aliases)) m))
                          (list_at i rest)
                        ≡ overlay (list_at i m) (list_at i ((k, aliases) ∷ rest)))
                      (eq_of_== k j equal)
                      (ap (λ l. overlay (list_at k (load_aliases p k l m)) (list_at k rest))
                          (children-save_aliases aliases [] p.empty laws.children_empty order.0
                            order.1)
                        ∙ ap (λ l. overlay l (list_at k rest)) (load_aliases_self k aliases m)
                        ∙ ap (λ l. overlay (overlay (list_at k m) aliases) l)
                            (ap (get_opt []) single)
                        ∙ ap (λ l. overlay (list_at k m) l)
                            (sym (list_at-head_self k aliases rest)))
                | false ↦ λ other.
                    ap (λ l. overlay l (list_at j rest))
                      (load_aliases_ne k j (p.children (aliases_tree aliases)) m other)
                    ∙ ap (λ l. overlay (list_at j m) l)
                        (sym (list_at-head_ne k j aliases rest other))
              ]
        refl

  pub load_exposed-save :
      (j : ℤ) (n m : Map ℤ (Map String String))
      → Distinct n
      → EachValue InOrder n
      → list_at j (load_exposed p (entries to_string aliases_tree n) m)
        ≡ overlay (list_at j m) (list_at j n)
  unfolding load_exposed lookup overlay
  load_exposed-save j [] m distinct order = refl
  load_exposed-save j ((k, aliases) ∷ rest) m distinct order =
      load_exposed-save j rest
        (load_aliases p (read_int (to_string k)) (p.children (aliases_tree aliases)) m) distinct.1
        order.1
      ∙ ap
          (λ i.
            overlay (list_at j (load_aliases p i (p.children (aliases_tree aliases)) m))
              (list_at j rest))
          (read_int-to_string k)
      ∙ load_aliases_at j k aliases rest m order.0 distinct.0

  -- In a new map.
  pub load_exposed-save_new :
      (j : ℤ) (n : Map ℤ (Map String String))
      → Distinct n
      → EachValue InOrder n
      → list_at j (load_exposed p (entries to_string aliases_tree n) []) ≡ list_at j n
  unfolding lookup
  load_exposed-save_new j n distinct order =
      load_exposed-save j n [] distinct order
      ∙ overlay_new (list_at j n) (list_at-InOrder j n order).1
