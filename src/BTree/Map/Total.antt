-- ===== src/BTree/Map/Total.antt =====
-- The sum of the values of a map of numbers.
use entangrid.Prelude.{ℕ, ◌+◌, ◌≤◌, ◌≡◌, [], ◌∷◌, arith, unwrap_or}
use entangrid.BTree.Key.{Key}
use entangrid.BTree.Map.{BTreeMap, get, insert}
use entangrid.BTree.Map.Laws.{IsOrdered, get_of_Above, Above-trans}

unfoldable pub total {ℓ} : {K : Type ℓ} → BTreeMap K ℕ → ℕ
total [] = 0
total ((_, v) ∷ m) = v + total m

module _ {ℓ} {K : Type ℓ} ⦃o : Key K⦄ where
  pub total-insert :
      (m : BTreeMap K ℕ) (k : K) (v : ℕ)
      → IsOrdered m
      → total (insert m k v) + unwrap_or (get m k) 0 ≡ total m + v
  unfolding total insert get
  total-insert [] k v h = omega arith
  total-insert ((j, w) ∷ m) k v h =
      ground (arith, total-insert m k v, get_of_Above k m, Above-trans k j m)

  pub get-le-total : (m : BTreeMap K ℕ) (k : K) → unwrap_or (get m k) 0 ≤ total m
  unfolding total get
  get-le-total [] k = omega arith
  get-le-total ((j, w) ∷ m) k = ground (arith, get-le-total m k)
