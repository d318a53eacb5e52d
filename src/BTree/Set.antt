-- ===== src/BTree/Set.antt =====
-- `BTreeSet`: the elements in ascending order.
pub mod Laws
use entangrid.Prelude.{ℕ, Bool, true, false, List, [], ◌∷◌, Ordering, ◌||◌}
use entangrid.BTree.Key.{Key}

abbrev pub BTreeSet {ℓ} : Type ℓ → Type ℓ
BTreeSet K = List K

module _ {ℓ} {K : Type ℓ} ⦃o : Key K⦄ where
  -- `contains`, of a set and of a `Vec`
  unfoldable pub contains : List K → K → Bool
  contains [] k = false
  contains (j ∷ s) k = let rest = contains s k in elim (o.cmp k j) [ Ordering.eq ↦ true | _ ↦ rest ]

  -- `insert` without its result: `!contains` before it says whether the element is new
  unfoldable pub insert : BTreeSet K → K → BTreeSet K
  insert [] k = k ∷ []
  insert (j ∷ s) k =
      let rest = insert s k in
      elim (o.cmp k j) [ Ordering.lt ↦ k ∷ j ∷ s | Ordering.eq ↦ j ∷ s | Ordering.gt ↦ j ∷ rest ]
