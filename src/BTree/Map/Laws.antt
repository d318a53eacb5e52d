-- ===== src/BTree/Map/Laws.antt =====
-- Lookups after updates, and the order of the keys.
use entangrid.Prelude.{◌≡◌, ◌≢◌, refl, subst, sym, [], ◌∷◌, none, some, Ordering, arith}
use entangrid.BTree.Key.{Key}
use entangrid.BTree.Map.{BTreeMap, get, insert, remove}

module _ {ℓ κ} {K : Type ℓ} {V : Type κ} ⦃o : Key K⦄ where
  pub get-insert_self : (m : BTreeMap K V) (k : K) (v : V) → get (insert m k v) k ≡ some v
  unfolding get insert
  get-insert_self [] k v = ground (arith, o.cmp_self k)
  get-insert_self ((j, w) ∷ m) k v = ground (arith, o.cmp_self k, get-insert_self m k v)

  pub get-insert_ne :
      (m : BTreeMap K V) (k : K) (v : V) (i : K) → i ≢ k → get (insert m k v) i ≡ get m i
  unfolding get insert
  get-insert_ne [] k v i h = ground (arith, o.eq_of_cmp i k)
  get-insert_ne ((j, w) ∷ m) k v i h =
      ground (arith, o.eq_of_cmp i k, o.eq_of_cmp k j, get-insert_ne m k v i h)

  -- every key of the map is above `k`
  abbrev pub Above : K → BTreeMap K V → Type 0
  Above k [] = Unit
  Above k ((j, w) ∷ m) = (o.cmp k j ≡ Ordering.lt) × Above k m

  -- the keys ascend strictly
  abbrev pub IsOrdered : BTreeMap K V → Type 0
  IsOrdered [] = Unit
  IsOrdered ((j, w) ∷ m) = Above j m × IsOrdered m

  pub Above-trans : (i j : K) (m : BTreeMap K V) → o.cmp i j ≡ Ordering.lt → Above j m → Above i m
  Above-trans i j [] h a = tt
  Above-trans i j ((k, w) ∷ m) h (b, a) = (o.lt_of_cmp i j k h b, Above-trans i j m h a)

  pub get_of_Above : (k : K) (m : BTreeMap K V) → Above k m → get m k ≡ none
  unfolding get
  get_of_Above k [] a = refl
  get_of_Above k ((j, w) ∷ m) a = ground (arith, get_of_Above k m)

  Above-insert :
      (i : K) (m : BTreeMap K V) (k : K) (v : V)
      → o.cmp i k ≡ Ordering.lt
      → Above i m
      → Above i (insert m k v)
  unfolding insert
  Above-insert i [] k v h a = (h, tt)
  Above-insert i ((j, w) ∷ m) k v h a = ground (arith, Above-insert i m k v)

  pub insert-IsOrdered : (m : BTreeMap K V) (k : K) (v : V) → IsOrdered m → IsOrdered (insert m k v)
  unfolding insert
  insert-IsOrdered [] k v h = (tt, tt)
  insert-IsOrdered ((j, w) ∷ m) k v h = ground (
    arith,
    insert-IsOrdered m k v,
    Above-insert j m k v,
    Above-trans k j m,
    o.gt_of_cmp k j,
    o.eq_of_cmp k j,
  )

  pub get-remove_self : (m : BTreeMap K V) (k : K) → IsOrdered m → get (remove m k) k ≡ none
  unfolding get remove
  get-remove_self [] k h = refl
  get-remove_self ((j, w) ∷ m) k (a, h) =
      let gone : o.cmp k j ≡ Ordering.eq → get m k ≡ none =
        λ e. get_of_Above k m (subst (λ z. Above z m) (sym (o.eq_of_cmp k j e)) a) in
      ground (arith, gone, get-remove_self m k h)

  pub get-remove_ne : (m : BTreeMap K V) (k i : K) → i ≢ k → get (remove m k) i ≡ get m i
  unfolding get remove
  get-remove_ne [] k i h = refl
  get-remove_ne ((j, w) ∷ m) k i h =
      ground (arith, o.eq_of_cmp k j, o.eq_of_cmp i j, get-remove_ne m k i h)

  Above-remove : (i : K) (m : BTreeMap K V) (k : K) → Above i m → Above i (remove m k)
  unfolding remove
  Above-remove i [] k a = tt
  Above-remove i ((j, w) ∷ m) k (h, a) = ground (arith, Above-remove i m k a)

  pub remove-IsOrdered : (m : BTreeMap K V) (k : K) → IsOrdered m → IsOrdered (remove m k)
  unfolding remove
  remove-IsOrdered [] k h = tt
  remove-IsOrdered ((j, w) ∷ m) k (a, h) =
      ground (arith, remove-IsOrdered m k h, Above-remove j m k a)
