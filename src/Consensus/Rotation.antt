-- ===== src/Consensus/Rotation.antt =====
-- The targets that the loop over offsets picks from a duplicate-free list.
use native.Mathlib.Nat.{mod-eq_of_lt, mod-eq-sub-mod}
use entangrid.Prelude.{
  ℕ, zero, suc, ◌+◌, ◌-◌, ◌%◌, ◌<◌, ◌≤◌, ◌≡◌, ◌≢◌, refl, ◌∙◌, ap, List, [], ◌∷◌, true, false, some,
  arith, length, take, drop, get_elem?, if◌then◌else◌, ◌==◌, Bool-cases, inl, inr, length-append,
  ltb, ==_iff,
}
use entangrid.BTree.Key.{nat_key}
use entangrid.BTree.Set.{contains}
use entangrid.Quorum.{IsNodup, IsSubset}
use entangrid.Quorum.Distinct.{
  contains-append, contains-cons, contains-nil, append_comm-IsNodup, take-append-drop,
  get_elem?-some, contains-get_elem?, get_elem?-injective,
}
use entangrid.Consensus.Engine.{insert_sorted, sort, rotate_left, relations}

-- The index that an offset reaches.
pub wrapped :
    (p o n : ℕ) → p < n → o < n → (p + o) % n ≡ (if ltb (p + o) n then p + o else p + o - n)
wrapped p o n hp ho = elim (Bool-cases (ltb (p + o) n)) [
  | inl small ↦ rw small (mod-eq_of_lt (ground arith))
  | inr large ↦
      let le : n ≤ p + o = ground arith in
      let lt : p + o - n < n = omega arith in rw large (mod-eq-sub-mod le ∙ mod-eq_of_lt lt)
]

-- Different offsets reach different indices.
wrapped-injective : (p o o' n : ℕ) → p < n → o < n → o' < n → (p + o) % n ≡ (p + o') % n → o ≡ o'
wrapped-injective p o o' n hp ho ho' e = ground (arith, wrapped p o n hp ho, wrapped p o' n hp ho')

module _ (rotated : List ℕ) (distinct : IsNodup rotated) (p v : ℕ)
    (own : get_elem? rotated p ≡ some v) (below : p < length rotated) where
  not_own :
      (o t : ℕ)
      → 0 < o
      → o < length rotated
      → get_elem? rotated ((p + o) % length rotated) ≡ some t
      → (t == v) ≡ false
  not_own o t ho h found = elim (Bool-cases (t == v)) [
    | inl same ↦
        let found' : get_elem? rotated ((p + o) % length rotated) ≡ some v =
          found ∙ ap some ((==_iff t v).0 same) in
        let e = get_elem?-injective rotated ((p + o) % length rotated) p v distinct found' own in
        absurd (ground (arith, wrapped p o (length rotated) below h))
    | inr other ↦ other
  ]

  distinct_targets :
      (j o t u : ℕ)
      → j < o
      → o < length rotated
      → get_elem? rotated ((p + j) % length rotated) ≡ some t
      → get_elem? rotated ((p + o) % length rotated) ≡ some u
      → t ≢ u
  distinct_targets j o t u hj ho ft fu e =
      let n = length rotated in
      let i =
        get_elem?-injective rotated ((p + j) % n) ((p + o) % n) u distinct (ft ∙ ap some e) fu in
      omega (arith, wrapped-injective p j o n below (omega arith) ho i)

  -- What the loop picks at the offsets from `o` on.
  pub record IsPicked (o k : ℕ) (targets : List ℕ) : Type 0 where
    pub counted : length targets ≡ k
    pub different : IsNodup targets
    pub members : IsSubset targets rotated
    pub others : contains targets v ≡ false
    pub later :
        (j t : ℕ)
        → j < o
        → get_elem? rotated ((p + j) % length rotated) ≡ some t
        → contains targets t ≡ false

  pub relations-IsPicked :
      (o k : ℕ) → 0 < o → o + k ≤ length rotated → IsPicked o k (relations rotated p v o k)
  unfolding relations
  relations-IsPicked o zero ho h = record {
    counted = refl;
    different = tt;
    members = tt;
    others = contains-nil v;
    later = λ j t _ _. contains-nil t;
  }
  relations-IsPicked o (suc k) ho h =
      let n = length rotated in
      let (target, found) =
        get_elem?-some rotated ((p + o) % n) (ground (arith, wrapped p o n below)) in
      let ih = relations-IsPicked (suc o) k (omega arith) (omega arith) in
      let ne : (target == v) ≡ false = not_own o target ho (omega arith) found in
      rw (found, ne, relations)
        (record {
          counted = ap suc ih.counted;
          different = (ih.later o target (omega arith) found, ih.different);
          members = (contains-get_elem? rotated ((p + o) % n) target found, ih.members);
          others =
              ground (arith, contains-cons (relations rotated p v (suc o) k) target v, ih.others);
          later = λ j t lt e. ground (
            arith,
            contains-cons (relations rotated p v (suc o) k) target t,
            ih.later j t (omega arith) e,
            distinct_targets j o t target (omega arith) (omega arith) e found,
          );
        })

pub contains-insert_sorted :
    (x : ℕ) (xs : List ℕ) (z : ℕ)
    → contains (insert_sorted x xs) z ≡ (if z == x then true else contains xs z)
unfolding insert_sorted contains
contains-insert_sorted x [] z = ground arith
contains-insert_sorted x (y ∷ ys) z = ground (arith, contains-insert_sorted x ys z)

pub contains-sort : (xs : List ℕ) (z : ℕ) → contains (sort xs) z ≡ contains xs z
unfolding sort contains
contains-sort [] z = refl
contains-sort (x ∷ xs) z = ground (arith, contains-insert_sorted x (sort xs) z, contains-sort xs z)

insert_sorted-IsNodup :
    (x : ℕ) (xs : List ℕ) → contains xs x ≡ false → IsNodup xs → IsNodup (insert_sorted x xs)
unfolding insert_sorted contains
insert_sorted-IsNodup x [] new n = (refl, tt)
insert_sorted-IsNodup x (y ∷ ys) new n =
    ground (arith, contains-insert_sorted x ys y, insert_sorted-IsNodup x ys)

-- Sorting keeps a list free of duplicates.
pub sort-IsNodup : (xs : List ℕ) → IsNodup xs → IsNodup (sort xs)
unfolding sort
sort-IsNodup [] n = tt
sort-IsNodup (x ∷ xs) (new, n) =
    insert_sorted-IsNodup x (sort xs) (contains-sort xs x ∙ new) (sort-IsNodup xs n)

-- Rotating keeps a list free of duplicates, its length and its elements.
pub rotate_left-IsNodup : (xs : List ℕ) (n : ℕ) → IsNodup xs → IsNodup (rotate_left xs n)
unfolding rotate_left
rotate_left-IsNodup xs n h = append_comm-IsNodup (take n xs) (drop n xs) (rw take-append-drop h)

pub length-rotate_left : (xs : List ℕ) (n : ℕ) → length (rotate_left xs n) ≡ length xs
unfolding rotate_left
length-rotate_left xs n = omega (
  arith,
  length-append (take n xs) (drop n xs),
  length-append (drop n xs) (take n xs),
  ap length (take-append-drop n xs),
)

pub contains-rotate_left : (xs : List ℕ) (n z : ℕ) → contains (rotate_left xs n) z ≡ contains xs z
unfolding rotate_left
contains-rotate_left xs n z = ground (
  arith,
  contains-append (take n xs) (drop n xs) z,
  contains-append (drop n xs) (take n xs) z,
  ap (λ l. contains l z) (take-append-drop n xs),
)
