-- ===== src/Node/Quality/Order.antt =====
-- The preference is a strict total order up to the tip: it is the order of one key.
use entangrid.Prelude.{
  ℕ, List, [], ◌∷◌, none, ◌≡◌, ◌∙◌, sym, ap, refl, Ordering, compare, ltb, if◌then◌else◌, last,
  map_option, unwrap_or, arith,
}
use Prim.Native.Nat.Ordering.{lt, eq, gt}
use entangrid.BTree.Key.{compare_bytes, compare_bytes-IsLawful, then_with}
use entangrid.Types.Records.{HashBytes, Block}
use entangrid.Types.Encoding.{empty_hash}
use entangrid.Node.State.{NodeState}
use entangrid.Node.Quality.{
  Quality, latest_certified_height, tip_certified, certified_hash, bool_number,
  branch_quality_with_extra_tip_vote, compare_branch_quality, compare_quality,
}

abbrev quality_key : Quality → List ℕ
quality_key q = q.0 ∷ q.1 ∷ q.2 ∷ q.3 ∷ q.4 ∷ q.5 ∷ []

-- What a chain is ranked by, the most important first.
unfoldable pub rank : NodeState → List Block → List ℕ
rank s chain =
    let height = latest_certified_height s chain in
    let q = branch_quality_with_extra_tip_vote s chain none in
    height
    ∷ (if ltb 0 height then bool_number (tip_certified s chain) else 0)
    ∷ (if ltb 0 height then certified_hash s chain else 0)
    ∷ quality_key q

compare_quality-eq :
    (a b : Quality) → compare_quality a b ≡ compare_bytes (quality_key a) (quality_key b)
compare_quality-eq a b = ground arith

-- The nested comparisons, over the values that they read.
by_key :
    (h h' t t' c c' : ℕ) (q : Ordering) (k k' : List ℕ)
    → q ≡ compare_bytes k k'
    → then_with
        (compare h h')
        (if ltb 0 h then then_with (compare t t') (then_with (compare c c') q) else q)
      ≡ compare_bytes
          (h ∷ (if ltb 0 h then t else 0) ∷ (if ltb 0 h then c else 0) ∷ k)
          (h' ∷ (if ltb 0 h' then t' else 0) ∷ (if ltb 0 h' then c' else 0) ∷ k')
by_key h h' t t' c c' q k k' e = ground arith

-- The comparison with its early returns is the comparison of the ranks.
pub compare_branch_quality-eq :
    (s : NodeState) (a b : List Block)
    → compare_branch_quality s a b ≡ compare_bytes (rank s a) (rank s b)
unfolding compare_branch_quality rank
compare_branch_quality-eq s a b =
    let qa = branch_quality_with_extra_tip_vote s a none in
    let qb = branch_quality_with_extra_tip_vote s b none in
    by_key (latest_certified_height s a) (latest_certified_height s b)
      (bool_number (tip_certified s a)) (bool_number (tip_certified s b)) (certified_hash s a)
      (certified_hash s b) (compare_quality qa qb) (quality_key qa) (quality_key qb)
      (compare_quality-eq qa qb)

abbrev pub swapped : Ordering → Ordering
swapped lt = gt
swapped eq = eq
swapped gt = lt

swapped-compare : (a b : ℕ) → compare a b ≡ swapped (compare b a)
swapped-compare a b = ground arith

compare_bytes-swap : (a b : List ℕ) → compare_bytes a b ≡ swapped (compare_bytes b a)
compare_bytes-swap [] [] = refl
compare_bytes-swap [] (y ∷ ys) = refl
compare_bytes-swap (x ∷ xs) [] = refl
compare_bytes-swap (x ∷ xs) (y ∷ ys) = ground (arith, swapped-compare x y, compare_bytes-swap xs ys)

-- Exchanging the chains exchanges the answer: never are two chains better than each other.
pub compare_branch_quality-swap :
    (s : NodeState) (a b : List Block)
    → compare_branch_quality s a b ≡ swapped (compare_branch_quality s b a)
compare_branch_quality-swap s a b =
    compare_branch_quality-eq s a b
    ∙ compare_bytes-swap (rank s a) (rank s b)
    ∙ ap swapped (sym (compare_branch_quality-eq s b a))

-- By the votes and certificates of one state, a chain that is better than a better chain is better.
pub compare_branch_quality_trans :
    (s : NodeState) (a b c : List Block)
    → compare_branch_quality s a b ≡ gt
    → compare_branch_quality s b c ≡ gt
    → compare_branch_quality s a c ≡ gt
compare_branch_quality_trans s a b c h k =
    let ba : compare_bytes (rank s b) (rank s a) ≡ lt =
      compare_bytes-IsLawful.gt_of_cmp (rank s a) (rank s b)
        (sym (compare_branch_quality-eq s a b) ∙ h) in
    let cb : compare_bytes (rank s c) (rank s b) ≡ lt =
      compare_bytes-IsLawful.gt_of_cmp (rank s b) (rank s c)
        (sym (compare_branch_quality-eq s b c) ∙ k) in
    let ca = compare_bytes-IsLawful.lt_of_cmp (rank s c) (rank s b) (rank s a) cb ba in
    compare_branch_quality-eq s a c ∙ compare_bytes-swap (rank s a) (rank s c) ∙ ap swapped ca

abbrev pub tip_hash_of : List Block → HashBytes
tip_hash_of chain = unwrap_or (map_option (λ b. b.block_hash) (last chain)) empty_hash

quality-tip :
    (s : NodeState) (a : List Block)
    → (branch_quality_with_extra_tip_vote s a none).5 ≡ tip_hash_of a
unfolding branch_quality_with_extra_tip_vote
quality-tip s a = ground arith

abbrev sixth : List ℕ → ℕ
sixth (_ ∷ _ ∷ _ ∷ _ ∷ _ ∷ _ ∷ _ ∷ _ ∷ x ∷ _) = x
sixth _ = 0

-- Only chains with the same tip are equally good.
pub compare_branch_quality-tie :
    (s : NodeState) (a b : List Block)
    → compare_branch_quality s a b ≡ eq
    → tip_hash_of a ≡ tip_hash_of b
unfolding rank
compare_branch_quality-tie s a b h =
    let same =
      compare_bytes-IsLawful.eq_of_cmp (rank s a) (rank s b)
        (sym (compare_branch_quality-eq s a b) ∙ h) in
    sym (quality-tip s a) ∙ ap sixth same ∙ quality-tip s b
