-- ===== src/Node/Adoption/Failed.antt =====
-- Adoptions that fail: the state that is left, with what was changed before the error.
use entangrid.Prelude.{
  String, ◌||◌, is_some, last, Bool, true, false, not, ◌&&◌, ◌≡◌, inl, inr, arith, ok, err, ◌>>=◌,
  >>=-eq-err, is_empty, Bool-cases, Option-cases,
}
use entangrid.BTree.Key.{nat_key}
use entangrid.Types.Records.{HashBytes}
use entangrid.Types.Encoding.{Crypto}
use entangrid.Node.State.{
  NodeState, Fault, Outcome, at, LocalVote, highest_local_qc, highest_locked_qc_hash,
  known_uncertified_children_for_certified_head, best_known_uncertified_child_for_certified_head,
  certified_head_only_active,
}
use entangrid.Node.State.Outcomes.{at-eq-err}
use entangrid.Node.Chains.{build_chain_to_tip}
use entangrid.Node.Adoption.{
  vote_if_adopted, vote_for_current_pre_qc_tip, adopt_canonical_chain, adopt_if_better,
  respects_lock, adopt_vote_supported_branch, adopt_better_uncertified_child, child_may_change,
  current_uncertified_child_for_certified_head,
}
use entangrid.Node.Adoption.Kept.{
  IsKept, Keeps, Fails, IsKept-self, IsKept-trans, adopt_canonical_chain-IsKept,
  adopt_if_better-IsKept,
}

module _ (c : Crypto) (local_vote : LocalVote) (keeps : Keeps c local_vote)
    (fails : Fails c local_vote) where
  vote_for_tip-fails :
      (s : NodeState) {text : String} {s' : NodeState}
      → vote_for_current_pre_qc_tip local_vote s ≡ err (Fault.refused text s')
      → IsKept c s s'
  unfolding vote_for_current_pre_qc_tip
  vote_for_tip-fails s {text} {s'} e = elim (Option-cases (last s.blocks)) [
    | inl empty ↦ absurd (ground arith)
    | inr (tip, at_tip) ↦ elim (Bool-cases (not s.consensus_v2 || is_some (highest_local_qc s))) [
      | inl skip ↦ absurd (ground arith)
      | inr go ↦ fails s tip text s' (ground arith)
    ]
  ]

  vote_if_adopted-fails :
      (adopted : Bool) (s : NodeState) {text : String} {s' : NodeState}
      → vote_if_adopted local_vote (adopted, s) ≡ err (Fault.refused text s')
      → IsKept c s s'
  unfolding vote_if_adopted vote_for_current_pre_qc_tip
  vote_if_adopted-fails false s {text} {s'} e = absurd (ground arith)
  vote_if_adopted-fails true s {text} {s'} e =
      elim (>>=-eq-err (vote_for_current_pre_qc_tip local_vote s) _ e) [
        | inl failed ↦ vote_for_tip-fails s failed
        | inr (t, voted, impossible) ↦ absurd (ground arith)
      ]

  pub adopt_vote_supported_branch-fails :
      (s : NodeState) (tip : HashBytes) {text : String} {s' : NodeState}
      → adopt_vote_supported_branch c local_vote s tip ≡ err (Fault.refused text s')
      → IsKept c s s'
  unfolding adopt_vote_supported_branch
  adopt_vote_supported_branch-fails s tip {text} {s'} e =
      elim (Option-cases (build_chain_to_tip s tip)) [
        | inl missing ↦ absurd (ground arith)
        | inr (chain, found) ↦
            elim (Bool-cases (
              s.consensus_v2
              && not (certified_head_only_active s)
              && respects_lock (highest_locked_qc_hash s) chain)) [
                | inr stop ↦ absurd (ground arith)
                | inl go ↦
                    let e' : (at s (adopt_if_better c s chain) >>= vote_if_adopted local_vote)
                        ≡ err (Fault.refused text s') =
                      ground arith in
                    elim (at-eq-err s (adopt_if_better c s chain) _ e') [
                      | inl same ↦ rw same (IsKept-self c s)
                      | inr ((a, t), tried, failed) ↦
                          IsKept-trans c (adopt_if_better-IsKept c s tip chain found tried)
                            (vote_if_adopted-fails a t failed)
                    ]
              ]
      ]

  pub adopt_better_uncertified_child-fails :
      (s : NodeState) {text : String} {s' : NodeState}
      → adopt_better_uncertified_child c local_vote s ≡ err (Fault.refused text s')
      → IsKept c s s'
  unfolding adopt_better_uncertified_child
  adopt_better_uncertified_child-fails s {text} {s'} e =
      let children = known_uncertified_children_for_certified_head s in
      let current = current_uncertified_child_for_certified_head s in
      elim (Option-cases (best_known_uncertified_child_for_certified_head s)) [
        | inl no_best ↦ absurd (ground arith)
        | inr (best, is_best) ↦ elim (Option-cases (build_chain_to_tip s best.block_hash)) [
          | inl missing ↦ absurd (ground arith)
          | inr (chain, found) ↦
              elim (Bool-cases
                (not (is_empty children) && child_may_change current best children)) [
                  | inr stop ↦ absurd (ground arith)
                  | inl go ↦
                      let done_with : NodeState → Outcome (Bool × NodeState) = λ t. ok (true, t) in
                      let next : NodeState → Outcome (Bool × NodeState) =
                        λ t. local_vote t best >>= done_with in
                      let e' : (at s (adopt_canonical_chain c s chain) >>= next)
                          ≡ err (Fault.refused text s') =
                        ground arith in
                      elim (at-eq-err s (adopt_canonical_chain c s chain) next e') [
                        | inl same ↦ rw same (IsKept-self c s)
                        | inr (t, done, rest) ↦
                            IsKept-trans c
                              (adopt_canonical_chain-IsKept c s best.block_hash chain found done)
                              (elim (>>=-eq-err (local_vote t best) done_with rest) [
                                | inl failed ↦ fails t best text s' failed
                                | inr (u, voted, impossible) ↦ absurd (ground arith)
                              ])
                      ]
                ]
        ]
      ]
