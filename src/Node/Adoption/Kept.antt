-- ===== src/Node/Adoption/Kept.antt =====
-- Steps of a node that keep its chain replayed and linked and its blocks known: adoptions.
use entangrid.Prelude.{
  false, ◌||◌, is_some, last, List, some, Bool, true, not, ◌&&◌, ◌≡◌, inl, inr, arith, String, ok,
  err, ◌>>=◌, >>=-eq-ok, is_empty, Bool-cases, Option-cases,
}
use entangrid.BTree.Key.{nat_key}
use entangrid.Types.Records.{HashBytes, Block}
use entangrid.Types.Encoding.{Crypto}
use entangrid.Node.State.{
  NodeState, Fault, Outcome, at, LocalVote, highest_local_qc, all_blocks,
  known_uncertified_children_for_certified_head, best_known_uncertified_child_for_certified_head,
  highest_locked_qc_hash, certified_head_only_active,
}
use entangrid.Node.State.Outcomes.{at-eq-ok}
use entangrid.Node.Chains.{build_chain_to_tip, has_block}
use entangrid.Node.Chains.Links.{build_chain_to_tip-IsChainTo}
use entangrid.Ledger.{replay_blocks}
use entangrid.Node.Adoption.{
  vote_if_adopted, vote_for_current_pre_qc_tip, adopt_canonical_chain, adopt_if_better,
  maybe_adopt_certified_branch, respects_lock, adopt_vote_supported_branch,
  adopt_better_uncertified_child, child_may_change, current_uncertified_child_for_certified_head,
}
use entangrid.Node.Adoption.Keeps.{
  IsCanonical, adopt_canonical_chain-IsCanonical, adopt_canonical_chain-known,
  adopt_if_better-cases, maybe_adopt_certified_branch-cases,
}

-- The two states differ in votes and certificates at most.
pub record SameBlocks (s s' : NodeState) : Type 0 where
  pub genesis : s'.genesis ≡ s.genesis
  pub ledger : s'.ledger ≡ s.ledger
  pub blocks : s'.blocks ≡ s.blocks
  pub orphans : s'.orphan_blocks ≡ s.orphan_blocks
  pub pending : s'.pending_certified_children ≡ s.pending_certified_children

-- The ledger is the replay of the chain.
abbrev pub IsReplayed : Crypto → NodeState → Type 0
IsReplayed c s = replay_blocks c s.genesis s.blocks ≡ ok s.ledger

-- A step that keeps a replayed chain replayed, a linked one linked, and every block known.
pub record IsKept (c : Crypto) (s s' : NodeState) : Type 0 where
  pub canonical : IsCanonical c s → IsCanonical c s'
  pub replayed : IsReplayed c s → IsReplayed c s'
  pub known :
      (h : HashBytes) → has_block h (all_blocks s) ≡ true → has_block h (all_blocks s') ≡ true

-- What the proofs ask of the node's own vote, when it succeeds and when it fails.
abbrev pub Keeps : Crypto → LocalVote → Type 0
Keeps c local_vote =
    (s : NodeState) (b : Block) (s' : NodeState) → local_vote s b ≡ ok s' → IsKept c s s'

abbrev pub Fails : Crypto → LocalVote → Type 0
Fails c local_vote =
    (s : NodeState) (b : Block) (text : String) (s' : NodeState)
    → local_vote s b ≡ err (Fault.refused text s')
    → IsKept c s s'

module _ (c : Crypto) where
  pub SameBlocks-IsKept : {s s' : NodeState} → SameBlocks s s' → IsKept c s s'
  SameBlocks-IsKept {s} {s'} k = record {
    canonical = λ p. record {
      linked = rw k.blocks p.linked;
      replayed = rw (k.genesis, k.blocks, k.ledger) p.replayed;
    };
    replayed = λ p. rw (k.genesis, k.blocks, k.ledger) p;
    known = λ h p. rw (k.blocks, k.pending, k.orphans) p;
  }

  pub IsKept-self : (s : NodeState) → IsKept c s s
  IsKept-self s = record { canonical = λ p. p; replayed = λ p. p; known = λ h p. p }

  pub IsKept-trans : {s t u : NodeState} → IsKept c s t → IsKept c t u → IsKept c s u
  IsKept-trans p q = record {
    canonical = λ k. q.canonical (p.canonical k);
    replayed = λ k. q.replayed (p.replayed k);
    known = λ h k. q.known h (p.known h k);
  }

  pub adopt_canonical_chain-IsKept :
      (s : NodeState) (tip : HashBytes) (chain : List Block) {s' : NodeState}
      → build_chain_to_tip s tip ≡ some chain
      → adopt_canonical_chain c s chain ≡ ok s'
      → IsKept c s s'
  adopt_canonical_chain-IsKept s tip chain found e =
      let linked = (build_chain_to_tip-IsChainTo s tip found).linked in
      let sound = adopt_canonical_chain-IsCanonical c s chain linked e in
      record {
        canonical = λ _. sound;
        replayed = λ _. sound.replayed;
        known = λ h k. adopt_canonical_chain-known c s chain h e k;
      }

  pub adopt_if_better-IsKept :
      (s : NodeState) (tip : HashBytes) (chain : List Block) {adopted : Bool} {s' : NodeState}
      → build_chain_to_tip s tip ≡ some chain
      → adopt_if_better c s chain ≡ ok (adopted, s')
      → IsKept c s s'
  adopt_if_better-IsKept s tip chain {adopted} {s'} found e =
      elim (adopt_if_better-cases c s chain {adopted = adopted} {s' = s'} e) [
        | inl (_, same) ↦ rw same (IsKept-self s)
        | inr (_, _, done) ↦ adopt_canonical_chain-IsKept s tip chain found done
      ]

  pub maybe_adopt_certified_branch-IsKept :
      (s : NodeState) (tip : HashBytes) {adopted : Bool} {s' : NodeState}
      → maybe_adopt_certified_branch c s tip ≡ ok (adopted, s')
      → IsKept c s s'
  maybe_adopt_certified_branch-IsKept s tip {adopted} {s'} e =
      elim (maybe_adopt_certified_branch-cases c s tip {adopted = adopted} {s' = s'} e) [
        | inl (_, same) ↦ rw same (IsKept-self s)
        | inr (chain, found, tried) ↦ adopt_if_better-IsKept s tip chain found tried
      ]

  module _ (local_vote : LocalVote) (keeps : Keeps c local_vote) where
    vote_for_tip-IsKept :
        (s : NodeState) {s' : NodeState}
        → vote_for_current_pre_qc_tip local_vote s ≡ ok s'
        → IsKept c s s'
    unfolding vote_for_current_pre_qc_tip
    vote_for_tip-IsKept s {s'} e = elim (Option-cases (last s.blocks)) [
      | inl empty ↦ let same : s' ≡ s = ground arith in rw same (IsKept-self s)
      | inr (tip, at_tip) ↦ elim (Bool-cases (not s.consensus_v2 || is_some (highest_local_qc s))) [
        | inl skip ↦ let same : s' ≡ s = ground arith in rw same (IsKept-self s)
        | inr go ↦ keeps s tip s' (ground arith)
      ]
    ]

    pub vote_if_adopted-IsKept :
        (adopted : Bool) (s : NodeState) {out : Bool} {s' : NodeState}
        → vote_if_adopted local_vote (adopted, s) ≡ ok (out, s')
        → IsKept c s s'
    unfolding vote_if_adopted vote_for_current_pre_qc_tip
    vote_if_adopted-IsKept false s {out} {s'} e =
        let same : s' ≡ s = ground arith in rw same (IsKept-self s)
    vote_if_adopted-IsKept true s {out} {s'} e =
        let (t, voted, same) = >>=-eq-ok (vote_for_current_pre_qc_tip local_vote s) _ e in
        let at_end : s' ≡ t = ground arith in rw at_end (vote_for_tip-IsKept s voted)

    pub adopt_vote_supported_branch-IsKept :
        (s : NodeState) (tip : HashBytes) {adopted : Bool} {s' : NodeState}
        → adopt_vote_supported_branch c local_vote s tip ≡ ok (adopted, s')
        → IsKept c s s'
    unfolding adopt_vote_supported_branch
    adopt_vote_supported_branch-IsKept s tip {adopted} {s'} e =
        elim (Option-cases (build_chain_to_tip s tip)) [
          | inl missing ↦ let same : s' ≡ s = ground arith in rw same (IsKept-self s)
          | inr (chain, found) ↦
              elim (Bool-cases (
                s.consensus_v2
                && not (certified_head_only_active s)
                && respects_lock (highest_locked_qc_hash s) chain)) [
                  | inl go ↦
                      let e' : (at s (adopt_if_better c s chain) >>= vote_if_adopted local_vote)
                          ≡ ok (adopted, s') =
                        ground arith in
                      let ((a, t), tried, voted) = at-eq-ok s (adopt_if_better c s chain) _ e' in
                      IsKept-trans (adopt_if_better-IsKept s tip chain found tried)
                        (vote_if_adopted-IsKept a t voted)
                  | inr stop ↦ let same : s' ≡ s = ground arith in rw same (IsKept-self s)
                ]
        ]

    pub adopt_better_uncertified_child-IsKept :
        (s : NodeState) {adopted : Bool} {s' : NodeState}
        → adopt_better_uncertified_child c local_vote s ≡ ok (adopted, s')
        → IsKept c s s'
    unfolding adopt_better_uncertified_child
    adopt_better_uncertified_child-IsKept s {adopted} {s'} e =
        let children = known_uncertified_children_for_certified_head s in
        let current = current_uncertified_child_for_certified_head s in
        elim (Option-cases (best_known_uncertified_child_for_certified_head s)) [
          | inl no_best ↦ let same : s' ≡ s = ground arith in rw same (IsKept-self s)
          | inr (best, is_best) ↦ elim (Option-cases (build_chain_to_tip s best.block_hash)) [
            | inl missing ↦ let same : s' ≡ s = ground arith in rw same (IsKept-self s)
            | inr (chain, found) ↦
                elim (Bool-cases
                  (not (is_empty children) && child_may_change current best children)) [
                    | inl go ↦
                        let done_with : NodeState → Outcome (Bool × NodeState) =
                          λ t. ok (true, t) in
                        let next : NodeState → Outcome (Bool × NodeState) =
                          λ t. local_vote t best >>= done_with in
                        let e' : (at s (adopt_canonical_chain c s chain) >>= next)
                            ≡ ok (adopted, s') =
                          ground arith in
                        let (t, done, rest) =
                          at-eq-ok s (adopt_canonical_chain c s chain) next e' in
                        let (u, voted, same) = >>=-eq-ok (local_vote t best) done_with rest in
                        let at_end : s' ≡ u = ground arith in
                        rw at_end (
                          IsKept-trans
                            (adopt_canonical_chain-IsKept s best.block_hash chain found done)
                            (keeps t best u voted))
                    | inr stop ↦ let same : s' ≡ s = ground arith in rw same (IsKept-self s)
                  ]
          ]
        ]
