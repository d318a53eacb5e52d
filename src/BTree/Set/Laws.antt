-- ===== src/BTree/Set/Laws.antt =====
-- Membership and size after `insert`.
use entangrid.Prelude.{
  ℕ, suc, ◌<◌, ◌≤◌, ◌≡◌, refl, [], ◌∷◌, true, false, arith, length, ◌≢◌, Bool-cases, inl, inr, ◌==◌,
  ==_iff, if◌then◌else◌,
}
use entangrid.BTree.Key.{Key, nat_key}
use entangrid.BTree.Set.{BTreeSet, contains, insert}

module _ {ℓ} {K : Type ℓ} ⦃o : Key K⦄ where
  pub contains-insert_self : (s : BTreeSet K) (k : K) → contains (insert s k) k ≡ true
  unfolding contains insert
  contains-insert_self [] k = ground (arith, o.cmp_self k)
  contains-insert_self (j ∷ s) k = ground (arith, o.cmp_self k, contains-insert_self s k)

  pub contains-insert_ne :
      (s : BTreeSet K) (k i : K) → i ≢ k → contains (insert s k) i ≡ contains s i
  unfolding contains insert
  contains-insert_ne [] k i h = ground (arith, o.eq_of_cmp i k)
  contains-insert_ne (j ∷ s) k i h = ground (arith, o.eq_of_cmp i k, contains-insert_ne s k i h)

  pub length-insert :
      (s : BTreeSet K) (k : K) → contains s k ≡ false → length (insert s k) ≡ suc (length s)
  unfolding contains insert
  length-insert [] k h = refl
  length-insert (j ∷ s) k h = ground (arith, length-insert s k)

-- The two laws of membership in one, for numbers.
pub contains-insert :
    (s : BTreeSet ℕ) (k i : ℕ) → contains (insert s k) i ≡ (if i == k then true else contains s i)
contains-insert s k i = elim (Bool-cases (i == k)) [
  | inl same ↦ let p : i ≡ k = (==_iff i k).0 same in rw (same, p) (contains-insert_self s k)
  | inr other ↦ rw other (contains-insert_ne s k i (ground arith))
]

-- Every element of the set is above `k`.
abbrev Above : ℕ → BTreeSet ℕ → Type 0
Above k [] = Unit
Above k (j ∷ s) = (k < j) × Above k s

-- The elements ascend strictly.
abbrev pub IsAscending : BTreeSet ℕ → Type 0
IsAscending [] = Unit
IsAscending (j ∷ s) = Above j s × IsAscending s

Above-trans : (i j : ℕ) (s : BTreeSet ℕ) → i < j → Above j s → Above i s
Above-trans i j [] h a = tt
Above-trans i j (k ∷ s) h (b, a) = (omega arith, Above-trans i j s h a)

Above-insert : (i : ℕ) (s : BTreeSet ℕ) (k : ℕ) → i < k → Above i s → Above i (insert s k)
unfolding insert
Above-insert i [] k h a = (h, tt)
Above-insert i (j ∷ s) k h a = ground (arith, Above-insert i s k)

pub insert-IsAscending : (s : BTreeSet ℕ) (k : ℕ) → IsAscending s → IsAscending (insert s k)
unfolding insert
insert-IsAscending [] k h = (tt, tt)
insert-IsAscending (j ∷ s) k h =
    ground (arith, insert-IsAscending s k, Above-insert j s k, Above-trans k j s)

pub contains_of_Above : (k : ℕ) (s : BTreeSet ℕ) → Above k s → contains s k ≡ false
unfolding contains
contains_of_Above k [] a = refl
contains_of_Above k (j ∷ s) a = ground (arith, contains_of_Above k s)

-- Inserting adds at most one element.
pub length-insert-le : (s : BTreeSet ℕ) (k : ℕ) → length (insert s k) ≤ suc (length s)
unfolding insert
length-insert-le [] k = omega arith
length-insert-le (j ∷ s) k = ground (arith, length-insert-le s k)
