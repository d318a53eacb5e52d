-- ===== src/BTree/Map.antt =====
-- `BTreeMap`: the entries in ascending order of their keys.
pub mod Laws
pub mod Total
use entangrid.Prelude.{ℕ, ◌+◌, Bool, List, [], ◌∷◌, Option, none, some, Ordering, is_some, map}
use entangrid.BTree.Key.{Key}

abbrev pub BTreeMap {ℓ κ} : Type ℓ → Type κ → Type (ℓ ⊔ κ)
BTreeMap K V = List (K × V)

module _ {ℓ κ} {K : Type ℓ} {V : Type κ} ⦃o : Key K⦄ where
  -- `get`
  unfoldable pub get : BTreeMap K V → K → Option V
  get [] k = none
  get ((j, v) ∷ m) k = let rest = get m k in elim (o.cmp k j) [ Ordering.eq ↦ some v | _ ↦ rest ]

  -- `contains_key`
  abbrev pub contains_key : BTreeMap K V → K → Bool
  contains_key m k = is_some (get m k)

  -- `insert`, which replaces the value of a key that is there
  unfoldable pub insert : BTreeMap K V → K → V → BTreeMap K V
  insert [] k v = (k, v) ∷ []
  insert ((j, w) ∷ m) k v =
      let rest = insert m k v in
      elim (o.cmp k j) [
        | Ordering.lt ↦ (k, v) ∷ (j, w) ∷ m
        | Ordering.eq ↦ (k, v) ∷ m
        | Ordering.gt ↦ (j, w) ∷ rest
      ]

  -- `remove`
  unfoldable pub remove : BTreeMap K V → K → BTreeMap K V
  remove [] k = []
  remove ((j, w) ∷ m) k =
      let rest = remove m k in elim (o.cmp k j) [ Ordering.eq ↦ m | _ ↦ (j, w) ∷ rest ]

-- `values`
abbrev pub values {ℓ κ} : {K : Type ℓ} {V : Type κ} → BTreeMap K V → List V
values m = map (λ e. e.1) m
