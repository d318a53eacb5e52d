-- ===== src/Node/Adoption/Keeps.antt =====
-- What an adoption keeps and improves.
use Prim.Native.Nat.Ordering.{gt}
use entangrid.Prelude.{
  List, [], ◌∷◌, ◌++◌, some, Bool, true, false, not, ◌&&◌, ◌||◌, filter, is_empty, ◌≡◌, ◌≢◌, refl,
  sym, option_eq, ok, >>=-eq-ok, ◌==◌, ==_iff, arith, Bool-cases, Option-cases, inl, inr, subst,
  ◌⊎◌,
}
use entangrid.Types.Records.{HashBytes, Block}
use entangrid.Types.Encoding.{Crypto, empty_hash}
use entangrid.Ledger.{replay_blocks}
use entangrid.Node.State.{NodeState, all_blocks}
use entangrid.Node.Chains.{build_chain_to_tip, has_block}
use entangrid.Node.Chains.Links.{IsLinked, build_chain_to_tip-IsChainTo}
use entangrid.Node.Quality.{compare_branch_quality}
use entangrid.Node.Adoption.{
  adopt_canonical_chain, adopt_if_better, maybe_adopt_certified_branch, tip_hash,
}

pub has_block-append :
    (h : HashBytes) (xs ys : List Block)
    → has_block h (xs ++ ys) ≡ (has_block h xs || has_block h ys)
has_block-append h [] ys = refl
has_block-append h (x ∷ xs) ys = ground (arith, has_block-append h xs ys)

-- What is not in the chain is kept beside it.
has_block-filter :
    (h : HashBytes) (chain xs : List Block)
    → has_block h xs ≡ true
    → has_block h chain ≡ false
    → has_block h (filter (λ b. not (has_block b.block_hash chain)) xs) ≡ true
has_block-filter h chain [] p q = cc
has_block-filter h chain (x ∷ xs) p q = elim (Bool-cases (x.block_hash == h)) [
  | inl same ↦
      let e : has_block x.block_hash chain ≡ false =
        subst (λ z. has_block z chain ≡ false) (sym ((==_iff x.block_hash h).0 same)) q in
      rw (e, same) refl
  | inr other ↦ let ih = has_block-filter h chain xs (rw other at p) q in ground (arith, ih)
]

-- The node's chain starts at the empty hash and counts up, and its ledger is the replay of it.
pub record IsCanonical (c : Crypto) (s : NodeState) : Type 0 where
  pub linked : IsLinked empty_hash 1 s.blocks
  pub replayed : replay_blocks c s.genesis s.blocks ≡ ok s.ledger

module _ (c : Crypto) (s : NodeState) where
  -- No block gets lost when a chain is adopted: each one that was known before is known after.
  pub adopt_canonical_chain-known :
      (chain : List Block) (h : HashBytes) {s' : NodeState}
      → adopt_canonical_chain c s chain ≡ ok s'
      → has_block h (all_blocks s) ≡ true
      → has_block h (all_blocks s') ≡ true
  unfolding adopt_canonical_chain
  adopt_canonical_chain-known chain h {s'} e known =
      let old = s.blocks ++ (s.orphan_blocks ++ s.pending_certified_children) in
      let rest = filter (λ b. not (has_block b.block_hash chain)) old in
      let (ledger, _, same) = >>=-eq-ok (replay_blocks c s.genesis chain) _ e in
      let blocks : s'.blocks ≡ chain = ground arith in
      let orphans : s'.orphan_blocks ≡ rest = ground arith in
      let pending : s'.pending_certified_children ≡ [] = ground arith in
      let before : has_block h old ≡ true = ground (
        arith,
        has_block-append h s.blocks (s.pending_certified_children ++ s.orphan_blocks),
        has_block-append h s.pending_certified_children s.orphan_blocks,
        has_block-append h s.blocks (s.orphan_blocks ++ s.pending_certified_children),
        has_block-append h s.orphan_blocks s.pending_certified_children,
      ) in
      rw (blocks, orphans, pending)
        (elim (Bool-cases (has_block h chain)) [
          | inl on ↦ ground (arith, has_block-append h chain rest)
          | inr off ↦
              ground (arith, has_block-append h chain rest, has_block-filter h chain old before off)
        ])

  -- The ledger after an adoption is the replay of the chain, linked or not.
  pub adopt_canonical_chain-replayed :
      (chain : List Block) {s' : NodeState}
      → adopt_canonical_chain c s chain ≡ ok s'
      → replay_blocks c s'.genesis s'.blocks ≡ ok s'.ledger
  unfolding adopt_canonical_chain
  adopt_canonical_chain-replayed chain {s'} e =
      let (ledger, replay, same) = >>=-eq-ok (replay_blocks c s.genesis chain) _ e in
      let blocks : s'.blocks ≡ chain = ground arith in
      let genesis : s'.genesis ≡ s.genesis = ground arith in
      let led : s'.ledger ≡ ledger = ground arith in rw (blocks, genesis, led) replay

  pub adopt_canonical_chain-IsCanonical :
      (chain : List Block) {s' : NodeState}
      → IsLinked empty_hash 1 chain
      → adopt_canonical_chain c s chain ≡ ok s'
      → IsCanonical c s'
  unfolding adopt_canonical_chain
  adopt_canonical_chain-IsCanonical chain {s'} l e =
      let (ledger, replay, same) = >>=-eq-ok (replay_blocks c s.genesis chain) _ e in
      let blocks : s'.blocks ≡ chain = ground arith in
      record { linked = rw blocks l; replayed = adopt_canonical_chain-replayed chain e }

  -- What `adopt_if_better` answers.
  pub adopt_if_better-cases :
      (chain : List Block) {adopted : Bool} {s' : NodeState}
      → adopt_if_better c s chain ≡ ok (adopted, s')
      → ((adopted ≡ false) × (s' ≡ s))
        ⊎ ((adopted ≡ true)
            × (compare_branch_quality s chain s.blocks ≡ gt)
            × (adopt_canonical_chain c s chain ≡ ok s'))
  unfolding adopt_if_better
  adopt_if_better-cases chain {adopted} {s'} e = ground arith

  pub maybe_adopt_certified_branch-cases :
      (tip : HashBytes) {adopted : Bool} {s' : NodeState}
      → maybe_adopt_certified_branch c s tip ≡ ok (adopted, s')
      → ((adopted ≡ false) × (s' ≡ s))
        ⊎ ((chain : List Block) × (build_chain_to_tip s tip ≡ some chain)
            × (adopt_if_better c s chain ≡ ok (adopted, s')))
  unfolding maybe_adopt_certified_branch
  maybe_adopt_certified_branch-cases tip {adopted} {s'} e =
      elim (Option-cases (build_chain_to_tip s tip)) [
        | inl missing ↦ inl (ground arith)
        | inr (chain, found) ↦
            elim (Bool-cases (
              is_empty chain
              || (not (option_eq (tip_hash s.blocks) (some tip)) && has_block tip s.blocks))) [
                | inl skip ↦ inl (ground arith)
                | inr go ↦ inr (chain, found, ground arith)
              ]
      ]

  -- What holds after an attempt to adopt the branch of a tip.
  pub record IsAttempt (tip : HashBytes) (adopted : Bool) (s' : NodeState) : Type 0 where
    pub known :
        (h : HashBytes) → has_block h (all_blocks s) ≡ true → has_block h (all_blocks s') ≡ true
    pub outcome :
        ((adopted ≡ false) × (s' ≡ s))
        ⊎ ((adopted ≡ true)
            × (compare_branch_quality s s'.blocks s.blocks ≡ gt)
            × (tip_hash s'.blocks ≡ some tip)
            × IsCanonical c s')

  unchanged :
      (tip : HashBytes) {adopted : Bool} {s' : NodeState}
      → adopted ≡ false
      → s' ≡ s
      → IsAttempt tip adopted s'
  unchanged tip no_change same = record {
    known = λ h k. rw same k;
    outcome = inl (no_change, same);
  }

  blocks-adopt_canonical_chain :
      (chain : List Block) {s' : NodeState}
      → adopt_canonical_chain c s chain ≡ ok s'
      → s'.blocks ≡ chain
  unfolding adopt_canonical_chain
  blocks-adopt_canonical_chain chain {s'} e =
      let (ledger, _, same) = >>=-eq-ok (replay_blocks c s.genesis chain) _ e in ground arith

  -- When an attempt to adopt a certified branch returns, for a tip other than the empty hash, the
  -- branch is adopted only if it is better than the node's chain by the votes and certificates
  -- that the node has; then the new chain ends in the tip, is linked from the empty hash, and has
  -- the ledger as its replay, whatever the chain was before. Otherwise nothing changes. In both
  -- cases the node knows every block that it knew.
  pub maybe_adopt_certified_branch-IsAttempt :
      (tip : HashBytes) {adopted : Bool} {s' : NodeState}
      → tip ≢ empty_hash
      → maybe_adopt_certified_branch c s tip ≡ ok (adopted, s')
      → IsAttempt tip adopted s'
  maybe_adopt_certified_branch-IsAttempt tip {adopted} {s'} ne e =
      elim (maybe_adopt_certified_branch-cases tip {adopted = adopted} {s' = s'} e) [
        | inl (no_change, same) ↦ unchanged tip no_change same
        | inr (chain, found, tried) ↦
            let ok_chain = build_chain_to_tip-IsChainTo s tip found in
            elim (adopt_if_better-cases chain {adopted = adopted} {s' = s'} tried) [
              | inl (no_change, same) ↦ unchanged tip no_change same
              | inr (yes_change, better, done) ↦
                  let blocks = blocks-adopt_canonical_chain chain done in
                  record {
                    known = λ h k. adopt_canonical_chain-known chain h done k;
                    outcome = inr (
                      yes_change,
                      rw blocks better,
                      rw blocks (ok_chain.ends ne),
                      adopt_canonical_chain-IsCanonical chain ok_chain.linked done,
                    );
                  }
            ]
      ]
