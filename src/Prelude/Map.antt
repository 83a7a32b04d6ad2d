-- ===== src/Prelude/Map.antt =====
-- `std::map` as the list of its entries in key order. The lemmas hold for every list of entries.
use libworkflow.Prelude.{
  ◌≡◌, refl, Bool, false, Option, none, some, List, [], ◌∷◌, arith, if◌then◌else◌, is_some,
}
use libworkflow.Prelude.Key.{Key, ◌==◌, ==_refl}

abbrev pub Map {ℓ κ} : Type ℓ → Type κ → Type (ℓ ⊔ κ)
Map K V = List (K × V)

module _ {ℓ κ} {K : Type ℓ} {V : Type κ} ⦃k : Key K⦄ where
  unfoldable pub lookup : K → Map K V → Option V
  lookup a [] = none
  lookup a ((b, v) ∷ m) = if b == a then some v else lookup a m

  -- `m.count(a) > 0`
  abbrev pub has : K → Map K V → Bool
  has a m = is_some (lookup a m)

  -- `m[a] = v`
  unfoldable pub insert : K → V → Map K V → Map K V
  insert a v [] = (a, v) ∷ []
  insert a v ((b, w) ∷ m) =
      if b == a
      then (a, v) ∷ m
      else if k.less a b
      then (a, v) ∷ (b, w) ∷ m
      else (b, w) ∷ insert a v m

  -- `m.erase(a)`
  unfoldable pub erase : K → Map K V → Map K V
  erase a [] = []
  erase a ((b, w) ∷ m) = if b == a then erase a m else (b, w) ∷ erase a m

  pub lookup-insert :
      (a b : K) (v : V) (m : Map K V)
      → lookup b (insert a v m) ≡ (if a == b then some v else lookup b m)
  unfolding lookup insert
  lookup-insert a b v [] = refl
  lookup-insert a b v ((c, w) ∷ m) =
      ground (arith, k.eqb_iff a b, k.eqb_iff c a, k.eqb_iff c b, lookup-insert a b v m)

  pub lookup-insert_self : (a : K) (v : V) (m : Map K V) → lookup a (insert a v m) ≡ some v
  lookup-insert_self a v m = rw (lookup-insert a a v m, ==_refl a)

  pub lookup-insert_ne :
      (a b : K) (v : V) (m : Map K V) → (a == b) ≡ false → lookup b (insert a v m) ≡ lookup b m
  lookup-insert_ne a b v m h = rw (lookup-insert a b v m, h)

  pub lookup-erase :
      (a b : K) (m : Map K V) → lookup b (erase a m) ≡ (if a == b then none else lookup b m)
  unfolding lookup erase
  lookup-erase a b [] = ground arith
  lookup-erase a b ((c, w) ∷ m) =
      ground (arith, k.eqb_iff a b, k.eqb_iff c a, k.eqb_iff c b, lookup-erase a b m)

  pub insert-insert : (a : K) (v w : V) (m : Map K V) → insert a v (insert a w m) ≡ insert a v m
  unfolding insert
  insert-insert a v w [] = rw (==_refl a)
  insert-insert a v w ((b, x) ∷ m) = ground (arith, k.eqb_iff b a, ==_refl a, insert-insert a v w m)
