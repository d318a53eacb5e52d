-- ===== src/Node/SyncPolicy/Anchors.antt =====
-- The anchors that `merge_sync_qc_anchors` keeps.
use Prim.Native.Nat.Ordering.{lt}
use entangrid.Prelude.{
  ℕ, zero, suc, ◌≤◌, List, [], ◌∷◌, ◌++◌, true, false, ◌==◌, ◌≡◌, All, length, take, arith,
  Bool-cases, inl, inr, ◌⊎◌, refl, sym, ap, subst, ==_iff,
}
use entangrid.Types.Records.{SyncQcAnchor}
use entangrid.Node.Quality.{is_greater}
use entangrid.Node.SyncPolicy.{
  compare_anchors, insert_anchor, sort_anchors, dedup_after, dedup_anchors, merge_sync_qc_anchors,
}

-- The first anchor stands strictly before, or not after, the second one.
abbrev pub Before : SyncQcAnchor → SyncQcAnchor → Type 0
Before a b = compare_anchors a b ≡ lt

abbrev NotAfter : SyncQcAnchor → SyncQcAnchor → Type 0
NotAfter a b = is_greater (compare_anchors a b) ≡ false

Before-trans : (a b c : SyncQcAnchor) → Before a b → Before b c → Before a c
Before-trans a b c p q = ground arith

NotAfter-trans : (a b c : SyncQcAnchor) → NotAfter a b → NotAfter b c → NotAfter a c
NotAfter-trans a b c p q = ground arith

NotAfter-swap : (a b : SyncQcAnchor) → is_greater (compare_anchors a b) ≡ true → NotAfter b a
NotAfter-swap a b p = ground arith

Before-of_NotAfter :
    (a b : SyncQcAnchor) → NotAfter a b → (b.block_hash == a.block_hash) ≡ false → Before a b
Before-of_NotAfter a b p q = ground arith

Before-then : (a b c : SyncQcAnchor) → Before a b → NotAfter b c → Before a c
Before-then a b c p q = ground arith

length-take_le {ℓ} : {A : Type ℓ} (n : ℕ) (xs : List A) → length (take n xs) ≤ n
length-take_le zero xs = omega arith
length-take_le (suc n) [] = omega arith
length-take_le (suc n) (x ∷ xs) = omega (arith, length-take_le n xs)

module _ (P : SyncQcAnchor → Type 0) where
  All-take : (n : ℕ) (xs : List SyncQcAnchor) → All P xs → All P (take n xs)
  All-take zero xs ps = tt
  All-take (suc n) [] ps = tt
  All-take (suc n) (x ∷ xs) (p, ps) = (p, All-take n xs ps)

  insert_anchor-All :
      (a : SyncQcAnchor) (xs : List SyncQcAnchor) → P a → All P xs → All P (insert_anchor a xs)
  unfolding insert_anchor
  insert_anchor-All a [] p ps = (p, tt)
  insert_anchor-All a (x ∷ xs) p (q, ps) = elim (Bool-cases (is_greater (compare_anchors a x))) [
    | inl after ↦ rw (after, insert_anchor) (q, insert_anchor-All a xs p ps)
    | inr before ↦ rw (before, insert_anchor) (p, (q, ps))
  ]

  All-map :
      (Q : SyncQcAnchor → Type 0)
      → ((x : SyncQcAnchor) → P x → Q x)
      → (xs : List SyncQcAnchor) → All P xs
      → All Q xs
  All-map Q h [] ps = tt
  All-map Q h (x ∷ xs) (p, ps) = (h x p, All-map Q h xs ps)

abbrev IsSorted : List SyncQcAnchor → Type 0
IsSorted [] = Unit
IsSorted (a ∷ rest) = All (NotAfter a) rest × IsSorted rest

-- Strictly by height and then hash, from the highest.
abbrev pub IsDescending : List SyncQcAnchor → Type 0
IsDescending [] = Unit
IsDescending (a ∷ rest) = All (Before a) rest × IsDescending rest

insert_anchor-IsSorted :
    (a : SyncQcAnchor) (xs : List SyncQcAnchor) → IsSorted xs → IsSorted (insert_anchor a xs)
unfolding insert_anchor
insert_anchor-IsSorted a [] h = (tt, tt)
insert_anchor-IsSorted a (x ∷ xs) (first, rest) =
    elim (Bool-cases (is_greater (compare_anchors a x))) [
      | inl after ↦
          rw (after, insert_anchor)
            (
              insert_anchor-All (NotAfter x) a xs (NotAfter-swap a x after) first,
              insert_anchor-IsSorted a xs rest,
            )
      | inr before ↦
          rw (before, insert_anchor)
            (
              (
                before,
                All-map (NotAfter x) (NotAfter a) (λ y p. NotAfter-trans a x y before p) xs first,
              ),
              (first, rest),
            )
    ]

sort_anchors-IsSorted : (xs : List SyncQcAnchor) → IsSorted (sort_anchors xs)
unfolding sort_anchors
sort_anchors-IsSorted [] = tt
sort_anchors-IsSorted (x ∷ xs) =
    insert_anchor-IsSorted x (sort_anchors xs) (sort_anchors-IsSorted xs)

-- What comes after the anchor that is kept is strictly after it, and descends.
dedup_after-IsDescending :
    (kept : SyncQcAnchor) (xs : List SyncQcAnchor)
    → All (NotAfter kept) xs
    → IsSorted xs
    → All (Before kept) (dedup_after kept xs) × IsDescending (dedup_after kept xs)
unfolding dedup_after
dedup_after-IsDescending kept [] h k = (tt, tt)
dedup_after-IsDescending kept (x ∷ xs) (h, hs) (first, rest) =
    elim (Bool-cases (x.block_hash == kept.block_hash)) [
      | inl same ↦ rw (same, dedup_after) (dedup_after-IsDescending kept xs hs rest)
      | inr other ↦
          let before = Before-of_NotAfter kept x h other in
          let (later, descends) = dedup_after-IsDescending x xs first rest in
          rw (other, dedup_after)
            (
              (
                before,
                All-map (Before x) (Before kept) (λ y p. Before-trans kept x y before p) _ later,
              ),
              (later, descends),
            )
    ]

dedup_anchors-IsDescending :
    (xs : List SyncQcAnchor) → IsSorted xs → IsDescending (dedup_anchors xs)
unfolding dedup_anchors
dedup_anchors-IsDescending [] h = tt
dedup_anchors-IsDescending (x ∷ xs) (first, rest) = dedup_after-IsDescending x xs first rest

take-IsDescending : (n : ℕ) (xs : List SyncQcAnchor) → IsDescending xs → IsDescending (take n xs)
take-IsDescending zero xs h = tt
take-IsDescending (suc n) [] h = tt
take-IsDescending (suc n) (x ∷ xs) (first, rest) =
    (All-take (Before x) n xs first, take-IsDescending n xs rest)

-- Every anchor of the merge is one of the two lists'.
module _ (P : SyncQcAnchor → Type 0) where
  sort_anchors-All : (xs : List SyncQcAnchor) → All P xs → All P (sort_anchors xs)
  unfolding sort_anchors
  sort_anchors-All [] ps = tt
  sort_anchors-All (x ∷ xs) (p, ps) =
      insert_anchor-All (P) x (sort_anchors xs) p (sort_anchors-All xs ps)

  dedup_after-All :
      (kept : SyncQcAnchor) (xs : List SyncQcAnchor) → All P xs → All P (dedup_after kept xs)
  unfolding dedup_after
  dedup_after-All kept [] ps = tt
  dedup_after-All kept (x ∷ xs) (p, ps) = elim (Bool-cases (x.block_hash == kept.block_hash)) [
    | inl same ↦ rw (same, dedup_after) (dedup_after-All kept xs ps)
    | inr other ↦ rw (other, dedup_after) (p, dedup_after-All x xs ps)
  ]

  dedup_anchors-All : (xs : List SyncQcAnchor) → All P xs → All P (dedup_anchors xs)
  unfolding dedup_anchors
  dedup_anchors-All [] ps = tt
  dedup_anchors-All (x ∷ xs) (p, ps) = (p, dedup_after-All x xs ps)

-- An anchor of the list has the anchor's hash and does not stand after it.
abbrev pub IsRepresented : List SyncQcAnchor → SyncQcAnchor → Type 0
IsRepresented [] a = ⊥
IsRepresented (m ∷ ms) a = ((m.block_hash ≡ a.block_hash) × NotAfter m a) ⊎ IsRepresented ms a

-- The anchor is represented, or the list is full of anchors that stand before it.
abbrev pub IsKeptOrWorse : ℕ → List SyncQcAnchor → SyncQcAnchor → Type 0
IsKeptOrWorse limit ms a = IsRepresented ms a ⊎ ((length ms ≡ limit) × All (λ m. Before m a) ms)

Before-represented :
    (m : SyncQcAnchor) (ms : List SyncQcAnchor) (a : SyncQcAnchor)
    → All (Before m) ms
    → IsRepresented ms a
    → Before m a
Before-represented m [] a ps r = elim r [ ]
Before-represented m (x ∷ xs) a (p, ps) (inl (same, q)) = Before-then m x a p q
Before-represented m (x ∷ xs) a (p, ps) (inr r) = Before-represented m xs a ps r

NotAfter-self : (a : SyncQcAnchor) → NotAfter a a
NotAfter-self a = ground arith

-- Every anchor after the one that is kept is represented.
dedup_after-IsRepresented :
    (kept : SyncQcAnchor) (xs : List SyncQcAnchor)
    → All (NotAfter kept) xs
    → IsSorted xs
    → All (IsRepresented (kept ∷ dedup_after kept xs)) xs
unfolding dedup_after
dedup_after-IsRepresented kept [] h k = tt
dedup_after-IsRepresented kept (x ∷ xs) (h, hs) (first, rest) =
    elim (Bool-cases (x.block_hash == kept.block_hash)) [
      | inl same ↦
          let e : dedup_after kept (x ∷ xs) ≡ dedup_after kept xs = rw (same, dedup_after) refl in
          subst (λ l. All (IsRepresented (kept ∷ l)) (x ∷ xs)) (sym e)
            (
              inl (sym ((==_iff x.block_hash kept.block_hash).0 same), h),
              dedup_after-IsRepresented kept xs hs rest,
            )
      | inr other ↦
          let later = x ∷ dedup_after x xs in
          let e : dedup_after kept (x ∷ xs) ≡ later = rw (other, dedup_after) refl in
          subst (λ l. All (IsRepresented (kept ∷ l)) (x ∷ xs)) (sym e)
            (
              inr (inl (refl, NotAfter-self x)),
              All-map (IsRepresented later) (IsRepresented (kept ∷ later)) (λ a r. inr r) xs
                  (dedup_after-IsRepresented x xs first rest),
            )
    ]

dedup_anchors-IsRepresented :
    (xs : List SyncQcAnchor) → IsSorted xs → All (IsRepresented (dedup_anchors xs)) xs
unfolding dedup_anchors
dedup_anchors-IsRepresented [] h = tt
dedup_anchors-IsRepresented (x ∷ xs) (first, rest) =
    (inl (refl, NotAfter-self x), dedup_after-IsRepresented x xs first rest)

-- What the limit cuts off stands after all that it leaves.
take-IsKeptOrWorse :
    (n : ℕ) (ms : List SyncQcAnchor) (a : SyncQcAnchor)
    → IsDescending ms
    → IsRepresented ms a
    → IsKeptOrWorse n (take n ms) a
take-IsKeptOrWorse zero ms a d r = inr (refl, tt)
take-IsKeptOrWorse (suc n) [] a d r = elim r [ ]
take-IsKeptOrWorse (suc n) (m ∷ ms) a d (inl here) = inl (inl here)
take-IsKeptOrWorse (suc n) (m ∷ ms) a (first, d) (inr r) = elim (take-IsKeptOrWorse n ms a d r) [
  | inl kept ↦ inl (inr kept)
  | inr (full, before) ↦ inr (ap (λ k. suc k) full, (Before-represented m ms a first r, before))
]

module _ (P : SyncQcAnchor → Type 0) where
  insert_anchor-All_back :
      (a : SyncQcAnchor) (xs : List SyncQcAnchor) → All P (insert_anchor a xs) → P a × All P xs
  unfolding insert_anchor
  insert_anchor-All_back a [] ps = ps
  insert_anchor-All_back a (x ∷ xs) ps = elim (Bool-cases (is_greater (compare_anchors a x))) [
    | inl after ↦
        let (q, rest) = rw (after, insert_anchor) at ps in
        let (p, qs) = insert_anchor-All_back a xs rest in (p, (q, qs))
    | inr before ↦ rw (before, insert_anchor) at ps
  ]

  sort_anchors-All_back : (xs : List SyncQcAnchor) → All P (sort_anchors xs) → All P xs
  unfolding sort_anchors
  sort_anchors-All_back [] ps = tt
  sort_anchors-All_back (x ∷ xs) ps =
      let (p, rest) = insert_anchor-All_back x (sort_anchors xs) ps in
      (p, sort_anchors-All_back xs rest)

-- What a merge of anchors up to a limit has to be.
pub record IsMerge (limit : ℕ) (anchors merged : List SyncQcAnchor) : Type 0 where
  pub descending : IsDescending merged
  pub bounded : length merged ≤ limit
  pub best : All (IsKeptOrWorse limit merged) anchors

-- The merge of two lists of anchors descends strictly by height and then hash and has at most
-- `limit` anchors. Each anchor of the two lists has an anchor of its hash in the merge that does
-- not stand after it, or else the merge has `limit` anchors and all of them stand before it. The
-- merge has no anchor that neither list has: what holds of all anchors of both lists holds of all
-- of the merge.
pub merge_sync_qc_anchors-IsMerge :
    (existing incoming : List SyncQcAnchor) (limit : ℕ) (P : SyncQcAnchor → Type 0)
    → All P (existing ++ incoming)
    → IsMerge limit (existing ++ incoming) (merge_sync_qc_anchors existing incoming limit)
      × All P (merge_sync_qc_anchors existing incoming limit)
unfolding merge_sync_qc_anchors
merge_sync_qc_anchors-IsMerge existing incoming limit P ps =
    let sorted = sort_anchors (existing ++ incoming) in
    let is_sorted = sort_anchors-IsSorted (existing ++ incoming) in
    let kept = dedup_anchors sorted in
    let descends = dedup_anchors-IsDescending sorted is_sorted in
    (
      record {
        descending = take-IsDescending limit kept descends;
        bounded = length-take_le limit kept;
        best =
            sort_anchors-All_back (IsKeptOrWorse limit (take limit kept)) (existing ++ incoming) (
              All-map (IsRepresented kept) (IsKeptOrWorse limit (take limit kept))
                (λ a r. take-IsKeptOrWorse limit kept a descends r) sorted
                (dedup_anchors-IsRepresented sorted is_sorted));
      },
      All-take (P) limit kept
          (dedup_anchors-All P sorted (sort_anchors-All P (existing ++ incoming) ps)),
    )
