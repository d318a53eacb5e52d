-- ===== src/Quorum.antt =====
-- Counting in duplicate-free lists of validators: two large parts of a list overlap.
pub mod Distinct
use entangrid.Prelude.{
  ℕ, zero, suc, ◌+◌, ◌-◌, ◌*◌, ◌/◌, ◌<◌, ◌≤◌, ◌≡◌, ◌≢◌, refl, ◌∙◌, ap, List, [], ◌∷◌, ◌++◌, Bool,
  true, false, not, All, arith, length, filter, Ordering, compare, Bool-cases, inl, inr,
  if◌then◌else◌, ◌==◌,
}
use entangrid.BTree.Key.{nat_key}
use entangrid.BTree.Set
use entangrid.BTree.Set.{BTreeSet, contains}
use entangrid.BTree.Set.Laws.{IsAscending, contains_of_Above}

-- No element stands twice.
abbrev pub IsNodup : List ℕ → Type 0
IsNodup [] = Unit
IsNodup (x ∷ xs) = (contains xs x ≡ false) × IsNodup xs

abbrev pub IsSubset : List ℕ → List ℕ → Type 0
IsSubset xs ys = All (λ x. contains ys x ≡ true) xs

-- The elements of the first list that the second one has.
unfoldable pub shared : List ℕ → List ℕ → List ℕ
shared xs ys = filter (λ x. contains ys x) xs

-- Drops the first occurrence.
erase : List ℕ → ℕ → List ℕ
erase [] x = []
erase (y ∷ ys) x = let rest = erase ys x in if x == y then ys else y ∷ rest

contains-erase : (ys : List ℕ) (x z : ℕ) → z ≢ x → contains (erase ys x) z ≡ contains ys z
unfolding contains erase
contains-erase [] x z h = refl
contains-erase (y ∷ ys) x z h = ground (arith, contains-erase ys x z)

length-erase : (ys : List ℕ) (x : ℕ) → contains ys x ≡ true → length (erase ys x) + 1 ≡ length ys
unfolding contains erase
length-erase [] x h = cc
length-erase (y ∷ ys) x h = ground (arith, length-erase ys x)

erase-IsSubset :
    (xs ys : List ℕ) (x : ℕ) → contains xs x ≡ false → IsSubset xs ys → IsSubset xs (erase ys x)
unfolding contains
erase-IsSubset [] ys x h s = tt
erase-IsSubset (z ∷ xs) ys x h (m, s) =
    (contains-erase ys x z (ground arith) ∙ m, erase-IsSubset xs ys x (ground arith) s)

pub length-IsSubset : (xs zs : List ℕ) → IsNodup xs → IsSubset xs zs → length xs ≤ length zs
length-IsSubset [] zs n s = omega arith
length-IsSubset (x ∷ xs) zs (x_new, n) (x_in, s) =
    let ih = length-IsSubset xs (erase zs x) n (erase-IsSubset xs zs x x_new s) in
    omega (arith, length-erase zs x x_in, ih)

-- Two duplicate-free parts of a list share at least as many elements as they have too many.
pub length-shared :
    (xs ys zs : List ℕ)
    → IsNodup xs
    → IsSubset xs zs
    → IsSubset ys zs
    → IsNodup ys
    → length xs + length ys ≤ length zs + length (shared xs ys)
unfolding shared
length-shared [] ys zs n s t d = omega (arith, length-IsSubset ys zs d t)
length-shared (x ∷ xs) ys zs (x_new, n) (x_in, s) t d = elim (Bool-cases (contains ys x)) [
  | inl both ↦ rw both (omega (arith, length-shared xs ys zs n s t d))
  | inr only ↦
      let ih =
        length-shared xs ys (erase zs x) n (erase-IsSubset xs zs x x_new s)
          (erase-IsSubset ys zs x only t) d in
      rw only (omega (arith, length-erase zs x x_in, ih))
]

-- Two parts with more than two thirds each overlap in more than a third.
pub shared_third :
    (xs ys zs : List ℕ)
    → IsNodup xs
    → IsNodup ys
    → IsSubset xs zs
    → IsSubset ys zs
    → length zs * 2 / 3 + 1 ≤ length xs
    → length zs * 2 / 3 + 1 ≤ length ys
    → length zs < 3 * length (shared xs ys)
shared_third xs ys zs n d s t h k = omega (arith, length-shared xs ys zs n s t d)

-- A `BTreeSet` has no duplicates.
pub IsAscending-IsNodup : (s : BTreeSet ℕ) → IsAscending s → IsNodup s
IsAscending-IsNodup [] h = tt
IsAscending-IsNodup (j ∷ s) (a, h) = (contains_of_Above j s a, IsAscending-IsNodup s h)

pub insert-IsSubset :
    (s ys : List ℕ) (k : ℕ) → contains ys k ≡ true → IsSubset s ys → IsSubset (Set.insert s k) ys
unfolding Set.insert
insert-IsSubset [] ys k h t = (h, tt)
insert-IsSubset (j ∷ s) ys k h t = ground (arith, insert-IsSubset s ys k)
