-- ===== src/Storage/Samples.antt =====
-- A property tree to run the code on, with the laws of `PropertyTree`.
use Prim.Native.String.{String}
use libworkflow.Prelude.{
  ℕ, ◌≡◌, refl, ap, Bool, true, false, none, some, List, [], ◌∷◌, ◌++◌, if◌then◌else◌,
}
use libworkflow.Prelude.Int.{ℤ, pos, negsuc}
use libworkflow.Prelude.Key.{string_key, ◌==◌}
use libworkflow.Prelude.Map.{lookup}
use libworkflow.Prelude.Outcome.{ok}
use libworkflow.Storage.Tree.{PropertyTree, PropertyTreeLaws, text_of}
use libworkflow.Storage.Keys.{to_string, read_int, read_int-to_string}

mutual
  pub data Node : Type 0 where
    node : String → Nodes → Node

  pub data Nodes : Type 0 where
    leaves : Nodes
    below : String → Node → Nodes → Nodes

abbrev text_at : Node → String
text_at (node text below_it) = text

abbrev listed : Nodes → List (String × Node)
listed leaves = []
listed (below k n rest) = (k, n) ∷ listed rest

abbrev children_at : Node → List (String × Node)
children_at (node text nodes) = listed nodes

abbrev added_last : String → Node → Nodes → Nodes
added_last k n leaves = below k n leaves
added_last k n (below j m rest) = below j m (added_last k n rest)

abbrev put_at : String → String → Nodes → Nodes
put_at k text leaves = below k (node text leaves) leaves
put_at k text (below j m rest) =
    let more = below j m (put_at k text rest) in
    if j == k then below j (elim m [ node old nodes ↦ node text nodes ]) rest else more

abbrev with_child : String → Node → Node → Node
with_child k n (node text nodes) = node text (added_last k n nodes)

abbrev with_text : String → String → Node → Node
with_text k value (node text nodes) = node text (put_at k value nodes)

abbrev natural : ℤ → ℕ
natural (pos n) = n
natural (negsuc n) = n

abbrev bool_name : Bool → String
bool_name true = "true"
bool_name false = "false"

abbrev pub sample_tree : PropertyTree Node
sample_tree = record {
  empty = node "" leaves;
  leaf = λ text. node text leaves;
  put = λ k text t. with_text k text t;
  add_child = λ k n t. with_child k n t;
  push_back = λ n t. with_child "" n t;
  text = text_at;
  children = children_at;
  get_child_optional = λ k t. lookup k (children_at t);
  get_optional = λ k t. text_of text_at (lookup k (children_at t));
  int_text = to_string;
  uint_text = λ n. to_string (pos n);
  bool_text = bool_name;
  double_text = λ n. to_string (pos n);
  uuid_text = λ n. to_string (pos n);
  int_of = λ s. some (read_int s);
  uint_of = λ s. some (natural (read_int s));
  bool_of = λ s. some (s == "true");
  double_of = λ s. some (natural (read_int s));
  uuid_of = λ s. ok (natural (read_int s));
}

listed-added_last :
    (k : String) (n : Node) (nodes : Nodes)
    → listed (added_last k n nodes) ≡ listed nodes ++ (k, n) ∷ []
listed-added_last k n leaves = refl
listed-added_last k n (below j m rest) = ap (λ l. (j, m) ∷ l) (listed-added_last k n rest)

children-with_child :
    (k : String) (n t : Node) → children_at (with_child k n t) ≡ children_at t ++ (k, n) ∷ []
children-with_child k n (node text nodes) = listed-added_last k n nodes

listed-put_at :
    (k text : String) (nodes : Nodes)
    → lookup k (listed nodes) ≡ none
    → listed (put_at k text nodes) ≡ listed nodes ++ (k, node text leaves) ∷ []
unfolding lookup
listed-put_at k text leaves absent = refl
listed-put_at k text (below j m rest) absent =
    elim (◌==◌ {K = String} j k)
        as (λ c.
          (if c then some m else lookup k (listed rest)) ≡ none
          → listed (
              if c
              then below j (elim m [ node old nodes ↦ node text nodes ]) rest
              else below j m (put_at k text rest))
            ≡ listed (below j m rest) ++ (k, node text leaves) ∷ []) [
              | true ↦ λ gone. absurd (cc)
              | false ↦ λ absent'. ap (λ l. (j, m) ∷ l) (listed-put_at k text rest absent')
            ]
      absent

children-with_text :
    (k value : String) (t : Node)
    → lookup k (children_at t) ≡ none
    → children_at (with_text k value t) ≡ children_at t ++ (k, node value leaves) ∷ []
children-with_text k value (node text nodes) absent = listed-put_at k value nodes absent

bool_back : (b : Bool) → ◌≡◌ {A = Bool} (bool_name b == "true") b
bool_back true = refl
bool_back false = refl

pub sample_laws : PropertyTreeLaws sample_tree
sample_laws = record {
  children_empty = refl;
  text_leaf = λ text. refl;
  children_put = λ k text t plain absent. children-with_text k text t absent;
  children_add_child = λ k c t plain. children-with_child k c t;
  children_push_back = λ c t. children-with_child "" c t;
  get_child = λ k t plain. refl;
  get_text = λ k t plain. refl;
  int = λ i range. ap some (read_int-to_string i);
  uint = λ n small. ap (λ i. some (natural i)) (read_int-to_string (pos n));
  bool = λ b. ap some (bool_back b);
  double = λ d finite. ap (λ i. some (natural i)) (read_int-to_string (pos d));
  uuid = λ u small. ap (λ i. ok (natural i)) (read_int-to_string (pos u));
}
