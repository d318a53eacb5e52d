-- ===== src/Node/Acceptance/Kept.antt =====
-- The votes, certificates and adoptions inside `accept_block` are steps, too.
use entangrid.Prelude.{
  ap, List, [], ◌∷◌, Option, Bool, not, ◌&&◌, ◌≡◌, refl, inl, inr, arith, ok, ◌>>=◌, ◌>>◌,
  >>=-eq-ok, Bool-cases, Option-cases, Result-cases, ok-injective, if◌then◌else◌, ◌++◌,
}
use entangrid.BTree.Key.{nat_key}
use entangrid.BTree.Map
use entangrid.BTree.Map.{values}
use entangrid.Types.Records.{HashBytes, Block, ProposalVote, QuorumCertificate}
use entangrid.Types.Encoding.{Crypto}
use entangrid.Ledger.{apply_block, LedgerState, replay_blocks}
use entangrid.Node.State.{
  NodeState, Fault, Outcome, at, LocalVote, certified_head_only_active, highest_locked_qc_hash,
}
use entangrid.Node.State.Outcomes.{at-eq-ok}
use entangrid.Node.Chains.{build_parent_chain_for_block}
use entangrid.Node.Adoption.{
  adopt_better_uncertified_child, adopt_preferred_competing_branch, adopt_if_better, respects_lock,
  vote_if_adopted,
}
use entangrid.Node.Adoption.Keeps.{
  adopt_if_better-cases, adopt_canonical_chain-known, adopt_canonical_chain-replayed,
}
use entangrid.Node.Adoption.Kept.{
  IsKept, Keeps, Fails, IsKept-self, IsKept-trans, SameBlocks, SameBlocks-IsKept,
  adopt_better_uncertified_child-IsKept, vote_if_adopted-IsKept,
}
use entangrid.Node.Finality.{import_proposal_vote, maybe_finalize_quorum_certificate}
use entangrid.Node.Finality.Imports.{vote_import-IsKept, maybe_finalize_quorum_certificate-IsKept}
use entangrid.Node.Finality.Failed.{vote_import-fails}
use entangrid.Node.BlockChecks.{can_vote_for_competing_block}
use entangrid.Node.Acceptance.{
  BlockAcceptance, maybe_broadcast_vote_for_competing_block, import_each_vote,
  import_buffered_proposal_votes_for_block, settle_competing_block, settle_unless_tip, is_tip,
}
use entangrid.Node.Acceptance.Steps.{IsStep, IsKept-IsStep, IsStep-self, IsStep-trans}

module _ (c : Crypto) (local_vote : LocalVote) (keeps : Keeps c local_vote)
    (fails : Fails c local_vote) where
  pub import_each_vote-IsKept :
      (s : NodeState) (votes : List ProposalVote) {s' : NodeState}
      → import_each_vote c local_vote s votes ≡ ok s'
      → IsKept c s s'
  unfolding import_each_vote
  import_each_vote-IsKept s [] {s'} h = rw (← ok-injective h) (IsKept-self c s)
  import_each_vote-IsKept s (vote ∷ votes) {s'} h =
      elim (Result-cases (import_proposal_vote c local_vote s vote)) [
        | inl ((i, t), done) ↦
            IsKept-trans c (vote_import-IsKept c local_vote keeps s vote done)
              (import_each_vote-IsKept t votes (rw (done, import_each_vote) at h))
        | inr (Fault.refused text t, failed) ↦
            IsKept-trans c (vote_import-fails c local_vote keeps fails s vote failed)
              (import_each_vote-IsKept t votes (rw (failed, import_each_vote) at h))
        | inr (Fault.out_of_fuel, failed) ↦ absurd (cc (rw (failed, import_each_vote) at h))
      ]

  pub buffered-IsKept :
      (s : NodeState) (block : Block) {s' : NodeState}
      → import_buffered_proposal_votes_for_block c local_vote s block ≡ ok s'
      → IsKept c s s'
  unfolding import_buffered_proposal_votes_for_block
  buffered-IsKept s block {s'} h =
      elim (Option-cases (Map.get s.buffered_proposal_votes block.block_hash)) [
        | inl nothing ↦
            rw (← ok-injective (rw (nothing, import_buffered_proposal_votes_for_block) at h))
              (IsKept-self c s)
        | inr (votes, found) ↦
            let t : NodeState = record s {
              buffered_proposal_votes = Map.remove s.buffered_proposal_votes block.block_hash;
            } in
            let same : SameBlocks s t = record {
              genesis = refl;
              ledger = refl;
              blocks = refl;
              orphans = refl;
              pending = refl;
            } in
            IsKept-trans c (SameBlocks-IsKept c same) (
              import_each_vote-IsKept t (values votes)
                (rw (found, import_buffered_proposal_votes_for_block) at h))
      ]

  pub buffered-IsStep :
      (s : NodeState) (block : Block) {s' : NodeState}
      → import_buffered_proposal_votes_for_block c local_vote s block ≡ ok s'
      → IsStep c s s'
  buffered-IsStep s block h = IsKept-IsStep c (buffered-IsKept s block h)

  pub voted-IsStep :
      (s : NodeState) (block : Block) {s' : NodeState} → local_vote s block ≡ ok s' → IsStep c s s'
  voted-IsStep s block {s'} h = IsKept-IsStep c (keeps s block s' h)

  competing_vote-IsStep :
      (s : NodeState) (block : Block) {s' : NodeState}
      → maybe_broadcast_vote_for_competing_block c local_vote s block ≡ ok s'
      → IsStep c s s'
  unfolding maybe_broadcast_vote_for_competing_block
  competing_vote-IsStep s block {s'} h = elim (Bool-cases s.consensus_v2) [
    | inr v1 ↦ let same : s' ≡ s = ground arith in rw same (IsStep-self c s)
    | inl v2 ↦
        let next : Bool → Outcome NodeState = λ m. if m then local_vote s block else ok s in
        let h1 : (at s (can_vote_for_competing_block c s block) >>= next) ≡ ok s' = ground arith in
        let (may_vote, decided, h2) = at-eq-ok s (can_vote_for_competing_block c s block) next h1 in
        elim (Bool-cases may_vote) [
          | inl may ↦ voted-IsStep s block (ground arith)
          | inr may_not ↦ let same : s' ≡ s = ground arith in rw same (IsStep-self c s)
        ]
  ]

  pub finalized-IsStep :
      (s : NodeState) (hash : HashBytes) {qc : Option QuorumCertificate} {s' : NodeState}
      → maybe_finalize_quorum_certificate c local_vote s hash ≡ ok (qc, s')
      → IsStep c s s'
  finalized-IsStep s hash h =
      IsKept-IsStep c (maybe_finalize_quorum_certificate-IsKept c local_vote keeps s hash h)

  pub moved-IsStep :
      (s : NodeState) {adopted : Bool} {s' : NodeState}
      → adopt_better_uncertified_child c local_vote s ≡ ok (adopted, s')
      → IsStep c s s'
  moved-IsStep s h = IsKept-IsStep c (adopt_better_uncertified_child-IsKept c local_vote keeps s h)

  adopt_if_better-IsStep :
      (s : NodeState) (chain : List Block) {adopted : Bool} {s' : NodeState}
      → adopt_if_better c s chain ≡ ok (adopted, s')
      → IsStep c s s'
  adopt_if_better-IsStep s chain {adopted} {s'} h =
      elim (adopt_if_better-cases c s chain {adopted = adopted} {s' = s'} h) [
        | inl (_, same) ↦ rw same (IsStep-self c s)
        | inr (_, _, done) ↦ record {
          replayed = λ _. adopt_canonical_chain-replayed c s chain done;
          known = λ hash k. adopt_canonical_chain-known c s chain hash done k;
        }
      ]

  preferred-IsStep :
      (s : NodeState) (block : Block) {adopted : Bool} {s' : NodeState}
      → adopt_preferred_competing_branch c local_vote s block ≡ ok (adopted, s')
      → IsStep c s s'
  unfolding adopt_preferred_competing_branch
  preferred-IsStep s block {adopted} {s'} h =
      elim (Option-cases (build_parent_chain_for_block s block)) [
        | inl missing ↦ let same : s' ≡ s = ground arith in rw same (IsStep-self c s)
        | inr (parents, found) ↦
            elim (Bool-cases (
              s.consensus_v2
              && not (certified_head_only_active s)
              && respects_lock (highest_locked_qc_hash s) parents)) [
                | inr stop ↦ let same : s' ≡ s = ground arith in rw same (IsStep-self c s)
                | inl go ↦
                    let last_part =
                      at s (adopt_if_better c s (parents ++ block ∷ []))
                      >>= vote_if_adopted local_vote in
                    let with_ledger : LedgerState → Outcome (Bool × NodeState) =
                      λ ledger. at s (apply_block c ledger block).0 >> last_part in
                    let h1 : (at s (replay_blocks c s.genesis parents) >>= with_ledger)
                        ≡ ok (adopted, s') =
                      ground arith in
                    let (ledger, replayed, h2) =
                      at-eq-ok s (replay_blocks c s.genesis parents) with_ledger h1 in
                    let (_, applied, h3) =
                      at-eq-ok s (apply_block c ledger block).0 (λ _. last_part) h2 in
                    let ((a, t), tried, voted) =
                      at-eq-ok s (adopt_if_better c s (parents ++ block ∷ []))
                        (vote_if_adopted local_vote) h3 in
                    IsStep-trans c (adopt_if_better-IsStep s (parents ++ block ∷ []) tried)
                      (IsKept-IsStep c (vote_if_adopted-IsKept c local_vote keeps a t voted))
              ]
      ]

  pub settle_competing-IsStep :
      (s : NodeState) (block : Block) {a : BlockAcceptance} {s' : NodeState}
      → settle_competing_block c local_vote s block ≡ ok (a, s')
      → IsStep c s s'
  unfolding settle_competing_block
  settle_competing-IsStep s block {a} {s'} h =
      let (t, voted, h1) =
        >>=-eq-ok (maybe_broadcast_vote_for_competing_block c local_vote s block) _ h in
      let ((_, u), finalized, h2) =
        >>=-eq-ok (maybe_finalize_quorum_certificate c local_vote t block.block_hash) _ h1 in
      let ((_, v), adopted, h3) =
        >>=-eq-ok (adopt_preferred_competing_branch c local_vote u block) _ h2 in
      let same : s' ≡ v = ground arith in
      rw same (
        IsStep-trans c (competing_vote-IsStep s block voted) (
          IsStep-trans c (finalized-IsStep t block.block_hash finalized)
            (preferred-IsStep u block adopted)))

  pub unless_tip-IsStep :
      (block : Block) (b : Bool) (s : NodeState) {a : BlockAcceptance} {s' : NodeState}
      → settle_unless_tip c local_vote block (b, s) ≡ ok (a, s')
      → IsStep c s s'
  unfolding settle_unless_tip
  unless_tip-IsStep block b s {a} {s'} h = elim (Bool-cases (is_tip s block)) [
    | inl at_tip ↦
        let e = ok-injective (rw (at_tip, settle_unless_tip) at h) in
        rw (← ap (λ r. r.1) e) (IsStep-self c s)
    | inr below ↦ settle_competing-IsStep s block (rw (below, settle_unless_tip) at h)
  ]
