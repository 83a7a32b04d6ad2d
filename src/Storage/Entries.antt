-- ===== src/Storage/Entries.antt =====
-- The loops of `save` and `load` over a map: one child of a tree for each entry, under the text of
-- its key, and the entries stored again in the order of the children.
use libworkflow.Prelude.{
  String, ◌≡◌, refl, ap, sym, subst, ◌∙◌, false, Option, none, some, List, [], ◌∷◌, ◌++◌,
  append-nil, append_assoc,
}
use libworkflow.Prelude.Int.{ℤ}
use libworkflow.Prelude.Key.{Key, ◌==◌}
use libworkflow.Prelude.Map.{Map, insert}
use libworkflow.Prelude.Outcome.{Outcome, ok, ◌>>=◌}
use libworkflow.Storage.Keys.{to_string, is_path-to_string}
use libworkflow.Storage.Tree.{PropertyTree, PropertyTreeLaws, is_path}

-- `add_child(key, item)` for each entry.
unfoldable pub save_entries :
    {T K V : Type 0} → PropertyTree T → (K → String) → (V → T) → Map K V → T → T
save_entries p text tree [] t = t
save_entries p text tree ((k, v) ∷ m) t =
    save_entries p text tree m (p.add_child (text k) (tree v) t)

-- What an item is read as goes into the map, or is passed over.
abbrev pub store : {K V : Type 0} → ⦃k : Key K⦄ → K → Option V → Map K V → Map K V
store a none m = m
store a (some v) m = insert a v m

unfoldable pub load_entries :
    {T K V : Type 0}
    → ⦃k : Key K⦄ → (String → K)
    → (T → Outcome (Option V))
    → List (String × T)
    → Map K V
    → Outcome (Map K V)
load_entries key_of load [] m = ok m
load_entries key_of load ((k, t) ∷ ts) m = do
  v ← load t
  load_entries key_of load ts (store (key_of k) v m)

-- The children that a map is saved as.
abbrev pub entries : {T K V : Type 0} → (K → String) → (V → T) → Map K V → List (String × T)
entries text tree [] = []
entries text tree ((k, v) ∷ m) = (text k, tree v) ∷ entries text tree m

-- No key has an empty text, or a dot in it.
abbrev pub PlainKeys : {K V : Type 0} → (K → String) → Map K V → Type 0
PlainKeys text [] = Unit
PlainKeys text ((k, v) ∷ m) = (is_path (text k) ≡ false) × PlainKeys text m

-- The text of an identifier is not empty and has no dot.
pub plain_ids : {V : Type 0} (m : Map ℤ V) → PlainKeys to_string m
plain_ids [] = tt
plain_ids ((i, v) ∷ m) = (is_path-to_string i, plain_ids m)

abbrev pub keys : {K V : Type 0} → Map K V → List K
keys [] = []
keys ((k, v) ∷ m) = k ∷ keys m

-- A key that comes after others, and keys in order after others.
abbrev pub IsAfter : {K : Type 0} → ⦃k : Key K⦄ → K → List K → Type 0
IsAfter a [] = Unit
IsAfter ⦃k⦄ a (b ∷ bs) = ((b == a) ≡ false) × (k.less a b ≡ false) × IsAfter a bs

abbrev pub Follow : {K : Type 0} → ⦃k : Key K⦄ → List K → List K → Type 0
Follow before [] = Unit
Follow before (a ∷ rest) = IsAfter a before × Follow (before ++ a ∷ []) rest

-- Each saved entry is read back as what `kept` makes of it, under its own key.
abbrev pub LoadBack :
    {T K V : Type 0}
    → (text : K → String) (key_of : String → K) → (V → T)
    → (T → Outcome (Option V))
    → (V → V)
    → Map K V
    → Type 0
LoadBack text key_of tree load kept [] = Unit
LoadBack text key_of tree load kept ((k, v) ∷ m) =
    (key_of (text k) ≡ k)
    × (load (tree v) ≡ ok (some (kept v)))
    × LoadBack text key_of tree load kept m

abbrev pub map_values : {K V : Type 0} → (V → V) → Map K V → Map K V
map_values kept [] = []
map_values kept ((k, v) ∷ m) = (k, kept v) ∷ map_values kept m

pub children-save_entries :
    {T K V : Type 0} {p : PropertyTree T} (laws : PropertyTreeLaws p) (text : K → String)
    (tree : V → T) (m : Map K V) (t : T)
    → PlainKeys text m
    → p.children (save_entries p text tree m t) ≡ p.children t ++ entries text tree m
unfolding save_entries
children-save_entries laws text tree [] t plain = sym (append-nil _)
children-save_entries {p} laws text tree ((k, v) ∷ m) t plain =
    children-save_entries laws text tree m (p.add_child (text k) (tree v) t) plain.1
    ∙ ap (λ l. l ++ entries text tree m) (laws.children_add_child (text k) (tree v) t plain.0)
    ∙ append_assoc (p.children t) ((text k, tree v) ∷ []) (entries text tree m)

pub insert_last :
    {K V : Type 0}
    → ⦃k : Key K⦄ → (a : K) (v : V) (m : Map K V) → IsAfter a (keys m)
    → insert a v m ≡ m ++ (a, v) ∷ []
unfolding insert
insert_last a v [] after = refl
insert_last a v ((b, w) ∷ m) after = rw (after.0, after.1, insert_last a v m after.2)

pub keys-append :
    {K V : Type 0} (m : Map K V) (a : K) (v : V) → keys (m ++ (a, v) ∷ []) ≡ keys m ++ a ∷ []
keys-append [] a v = refl
keys-append ((b, w) ∷ m) a v = ap (λ l. b ∷ l) (keys-append m a v)

-- The entries of a map stored one by one over another map.
unfoldable pub overlay : {K V : Type 0} → ⦃k : Key K⦄ → Map K V → Map K V → Map K V
unfolding insert
overlay done [] = done
overlay done ((a, v) ∷ m) = overlay (insert a v done) m

pub load_entries-overlay :
    {T K V : Type 0}
    → ⦃k : Key K⦄
    → (text : K → String) (key_of : String → K) (tree : V → T) (load : T → Outcome (Option V))
      (kept : V → V) (m done : Map K V)
    → LoadBack text key_of tree load kept m
    → load_entries key_of load (entries text tree m) done ≡ ok (overlay done (map_values kept m))
unfolding load_entries overlay
load_entries-overlay text key_of tree load kept [] done back = refl
load_entries-overlay text key_of tree load kept ((a, v) ∷ m) done back =
    rw (back.1, back.0)
      (load_entries-overlay text key_of tree load kept m (insert a (kept v) done) back.2)

-- Keys in order after those of the other map: the entries come after its entries.
pub overlay_last :
    {K V : Type 0}
    → ⦃k : Key K⦄ → (kept : V → V) (m done : Map K V) → Follow (keys done) (keys m)
    → overlay done (map_values kept m) ≡ done ++ map_values kept m
unfolding overlay
overlay_last kept [] done order = sym (append-nil done)
overlay_last kept ((a, v) ∷ m) done order =
    let rest =
      overlay_last kept m (done ++ (a, kept v) ∷ [])
        (subst (λ before. Follow before (keys m)) (sym (keys-append done a (kept v))) order.1) in
    ap (λ d. overlay d (map_values kept m)) (insert_last a (kept v) done order.0)
    ∙ rest
    ∙ append_assoc done ((a, kept v) ∷ []) (map_values kept m)

map_values_same : {K V : Type 0} (m : Map K V) → map_values (λ v. v) m ≡ m
map_values_same [] = refl
map_values_same ((a, v) ∷ m) = ap (λ l. (a, v) ∷ l) (map_values_same m)

-- Entries in order, stored one by one, are the map again.
pub overlay_new :
    {K V : Type 0} → ⦃k : Key K⦄ → (m : Map K V) → Follow [] (keys m) → overlay [] m ≡ m
overlay_new m order =
    ap (λ l. overlay [] l) (sym (map_values_same m))
    ∙ overlay_last (λ v. v) m [] order
    ∙ map_values_same m
