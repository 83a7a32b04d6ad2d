-- ===== src/Prelude/IdSet.antt =====
-- `std::set<int32_t>`: the identifiers in increasing order, so that `begin()` is the head.
use libworkflow.Prelude.{
  ◌≤◌, suc, ◌≡◌, refl, Bool, true, false, ◌||◌, ◌&&◌, not, List, [], ◌∷◌, arith, if◌then◌else◌,
  length,
}
use libworkflow.Prelude.Int.{ℤ, eqb_ℤ, ltb_ℤ, eqb_ℤ_iff}

unfoldable pub mem : ℤ → List ℤ → Bool
mem a [] = false
mem a (b ∷ s) = eqb_ℤ b a || mem a s

unfoldable pub insert : ℤ → List ℤ → List ℤ
insert a [] = a ∷ []
insert a (b ∷ s) = if eqb_ℤ b a then b ∷ s else if ltb_ℤ a b then a ∷ b ∷ s else b ∷ insert a s

unfoldable pub erase : ℤ → List ℤ → List ℤ
erase a [] = []
erase a (b ∷ s) = if eqb_ℤ b a then erase a s else b ∷ erase a s

pub mem-insert : (a b : ℤ) (s : List ℤ) → mem b (insert a s) ≡ (eqb_ℤ a b || mem b s)
unfolding mem insert
mem-insert a b [] = refl
mem-insert a b (c ∷ s) =
    ground (arith, eqb_ℤ_iff a b, eqb_ℤ_iff c a, eqb_ℤ_iff c b, mem-insert a b s)

pub mem-erase : (a b : ℤ) (s : List ℤ) → mem b (erase a s) ≡ (not (eqb_ℤ a b) && mem b s)
unfolding mem erase
mem-erase a b [] = ground arith
mem-erase a b (c ∷ s) = ground (arith, eqb_ℤ_iff a b, eqb_ℤ_iff c a, eqb_ℤ_iff c b, mem-erase a b s)

-- Erasing shortens the set by its own members only.
pub length-erase-le : (a : ℤ) (s : List ℤ) → length (erase a s) ≤ length s
unfolding erase
length-erase-le a [] = omega arith
length-erase-le a (b ∷ s) = ground (arith, length-erase-le a s)

pub length-erase-lt : (a : ℤ) (s : List ℤ) → mem a s ≡ true → suc (length (erase a s)) ≤ length s
unfolding erase mem
length-erase-lt a [] h = absurd (cc)
length-erase-lt a (b ∷ s) h = ground (arith, length-erase-le a s, length-erase-lt a s)
