-- ===== src/Storage/Tree.antt =====
-- `boost::property_tree::ptree`, which the methods `save` and `load` write to and read from, and
-- the macros of tools/jsonable.h over it. The tree and the texts of its values belong to Boost:
-- they are a parameter, with the documented behaviour that the code relies on.
use Prim.Native.Char.{code}
use Prim.Native.String.{String}
use libworkflow.Prelude.{
  ℕ, ◌<◌, ◌^◌, ◌/◌, ◌%◌, ◌≡◌, ap, ◌∙◌, Bool, true, false, ◌||◌, Option, none, some, List, [], ◌∷◌,
  ◌++◌, ◌==◌ as nat_eq,
}
use libworkflow.Prelude.Int.{ℤ, pos, negsuc}
use libworkflow.Prelude.Key.{string_key}
use libworkflow.Prelude.Map.{lookup}
use libworkflow.Prelude.Outcome.{Outcome, ok}

-- A tree has a text and children, each under a key. `leaf` is the constructor from a text, and
-- `push_back` adds a child under the empty key. The rest are the texts that the translators of
-- Boost write for a value, and the value that they read.
pub record PropertyTree (T : Type 0) : Type 0 where
  pub empty : T
  pub leaf : String → T
  pub put : (path text : String) → T → T
  pub add_child : (path : String) (child tree : T) → T
  pub push_back : (child tree : T) → T
  pub text : T → String
  pub children : T → List (String × T)
  pub get_child_optional : (path : String) → T → Option T
  pub get_optional : (path : String) → T → Option String
  pub int_text : ℤ → String
  pub uint_text : ℕ → String
  pub bool_text : Bool → String
  pub double_text : ℕ → String
  pub uuid_text : ℕ → String
  pub int_of : String → Option ℤ
  pub uint_of : String → Option ℕ
  pub bool_of : String → Option Bool
  pub double_of : String → Option ℕ
  pub uuid_of : String → Outcome ℕ

-- A dot in a path separates the keys of a child and of its child.
abbrev pub has_dot : String → Bool
has_dot String.[] = false
has_dot (String.◌∷◌ c s) = nat_eq (code c) b'.' || has_dot s

-- A path that is not the key of one child: the empty path stands for the node itself, and a dot
-- leads further down.
abbrev pub is_path : String → Bool
is_path String.[] = true
is_path (String.◌∷◌ c s) = has_dot (String.◌∷◌ c s)

-- The text of a child, where there is one.
abbrev pub text_of {ℓ} : {T : Type ℓ} → (T → String) → Option T → Option String
text_of text none = none
text_of text (some t) = some (text t)

-- The 64 bits of a `double` that is neither an infinity nor a NaN.
abbrev pub IsFinite : ℕ → Type 0
IsFinite d = (d / 2 ^ 52) % 2 ^ 11 < 2047

pub data IsInt32 : ℤ → Type 0 where
  not_negative : {n : ℕ} → n < 2 ^ 31 → IsInt32 (pos n)
  negative : {n : ℕ} → n < 2 ^ 31 → IsInt32 (negsuc n)

-- What Boost documents of one tree operation each, for a path that is the key of one child.
pub record PropertyTreeLaws {T : Type 0} (p : PropertyTree T) : Type 0 where
  pub children_empty : p.children p.empty ≡ []
  pub text_leaf : (text : String) → p.text (p.leaf text) ≡ text
  pub children_put :
      (k text : String) (t : T)
      → is_path k ≡ false
      → lookup k (p.children t) ≡ none
      → p.children (p.put k text t) ≡ p.children t ++ (k, p.leaf text) ∷ []
  pub children_add_child :
      (k : String) (c t : T)
      → is_path k ≡ false
      → p.children (p.add_child k c t) ≡ p.children t ++ (k, c) ∷ []
  pub children_push_back : (c t : T) → p.children (p.push_back c t) ≡ p.children t ++ ("", c) ∷ []
  pub get_child :
      (k : String) (t : T) → is_path k ≡ false → p.get_child_optional k t ≡ lookup k (p.children t)
  pub get_text :
      (k : String) (t : T)
      → is_path k ≡ false
      → p.get_optional k t ≡ text_of p.text (lookup k (p.children t))
  pub int : (i : ℤ) → IsInt32 i → p.int_of (p.int_text i) ≡ some i
  pub uint : (n : ℕ) → n < 2 ^ 32 → p.uint_of (p.uint_text n) ≡ some n
  pub bool : (b : Bool) → p.bool_of (p.bool_text b) ≡ some b
  pub double : (d : ℕ) → IsFinite d → p.double_of (p.double_text d) ≡ some d
  pub uuid : (u : ℕ) → u < 2 ^ 128 → p.uuid_of (p.uuid_text u) ≡ ok u

-- The macro `GET_OPT`: a member keeps its value where the tree has no readable one.
abbrev pub get_opt {ℓ} : {A : Type ℓ} → A → Option A → A
get_opt old none = old
get_opt old (some new) = new

-- A value is read from a text that is there.
abbrev pub bind {ℓ κ} : {A : Type ℓ} {B : Type κ} → Option A → (A → Option B) → Option B
bind none f = none
bind (some a) f = f a

-- A value put under a new key comes after those before.
pub put_last :
    {T : Type 0} {p : PropertyTree T} (laws : PropertyTreeLaws p) {k : String} (text : String)
    {t : T} {m : List (String × T)}
    → p.children t ≡ m
    → is_path k ≡ false
    → lookup k m ≡ none
    → p.children (p.put k text t) ≡ m ++ (k, p.leaf text) ∷ []
put_last {p} laws {k} text {t} holds plain new =
    laws.children_put k text t plain (ap (lookup k) holds ∙ new)
    ∙ ap (λ l. l ++ (k, p.leaf text) ∷ []) holds

pub add_last :
    {T : Type 0} {p : PropertyTree T} (laws : PropertyTreeLaws p) {k : String} (c : T) {t : T}
    {m : List (String × T)}
    → p.children t ≡ m
    → is_path k ≡ false
    → p.children (p.add_child k c t) ≡ m ++ (k, c) ∷ []
add_last {p} laws {k} c {t} holds plain =
    laws.children_add_child k c t plain ∙ ap (λ l. l ++ (k, c) ∷ []) holds

pub text_found :
    {T : Type 0} {p : PropertyTree T} (laws : PropertyTreeLaws p) {k text : String} {t : T}
    {m : List (String × T)}
    → p.children t ≡ m
    → is_path k ≡ false
    → lookup k m ≡ some (p.leaf text)
    → p.get_optional k t ≡ some text
text_found {p} laws {k} {text} {t} holds plain found =
    laws.get_text k t plain
    ∙ ap (text_of p.text) (ap (lookup k) holds ∙ found)
    ∙ ap some (laws.text_leaf text)

pub child_found :
    {T : Type 0} {p : PropertyTree T} (laws : PropertyTreeLaws p) {k : String} {child t : T}
    {m : List (String × T)}
    → p.children t ≡ m
    → is_path k ≡ false
    → lookup k m ≡ some child
    → p.get_child_optional k t ≡ some child
child_found laws {k} {t} holds plain found = laws.get_child k t plain ∙ ap (lookup k) holds ∙ found
