-- ===== src/Node/Votes/Conflicts.antt =====
-- Which votes of its own validator a stored vote may stand beside.
use entangrid.Prelude.{
  ◌≡◌, ◌≢◌, refl, List, [], ◌∷◌, Option, some, Bool, true, false, inl, inr, arith, All, ok, ◌>>=◌,
  >>=-eq-ok, sym, subst, ◌∙◌, ok-injective, none, ◌==◌, ◌&&◌, Bool-cases, Option-cases, and_then,
  ==_iff, unwrap_or,
}
use entangrid.BTree.Key.{nat_key}
use entangrid.BTree.Map
use entangrid.BTree.Map.{BTreeMap}
use entangrid.BTree.Map.Laws.{get-insert_self, get-insert_ne}
use entangrid.Types.Records.{ValidatorId, ProposalVote}
use entangrid.Types.Encoding.{Crypto}
use entangrid.Node.State.{NodeState, VoteMap}
use entangrid.Node.State.Outcomes.{at-eq-ok}
use entangrid.Node.Certificates.{proposal_vote_signing_hash}
use entangrid.Node.Chains.{proposal_vote_branches_are_compatible}
use entangrid.Node.Votes.Gone.{IsGone, AreBooks, remove_all-AreGone}
use entangrid.Node.Votes.Removed.{vote_on}
use entangrid.Node.Votes.{
  collect_conflicts, can_replace_conflicting_proposal_vote, vote_maps, put_vote,
  resolve_conflicting_proposal_vote, store_proposal_vote,
}

-- What became of a validator's vote that the node had, in the state after a new vote was stored:
-- it is for the same block; or the new vote may replace it, and it is gone; or it lies at another
-- height and slot of the new vote's branch.
pub data IsReconciled (s s' : NodeState) (existing vote : ProposalVote) : Type 0 where
  same_block : existing.block_hash ≡ vote.block_hash → IsReconciled s s' existing vote
  replaced :
      can_replace_conflicting_proposal_vote s existing vote ≡ true
      → IsGone s' existing
      → IsReconciled s s' existing vote
  other_height :
      existing.block_number ≢ vote.block_number
      → (existing.epoch == vote.epoch && existing.slot == vote.slot) ≡ false
      → proposal_vote_branches_are_compatible s existing.block_hash vote.block_hash ≡ true
      → IsReconciled s s' existing vote

-- Every vote that the block's votes have for the validator is reconciled with the new one.
abbrev pub AreReconciled :
    NodeState → NodeState → ProposalVote → BTreeMap ValidatorId ProposalVote → Type 0
AreReconciled s s' vote votes =
    (existing : ProposalVote)
    → Map.get votes vote.validator_id ≡ some existing
    → IsReconciled s s' existing vote

-- A vote for another block than the new one's is gone.
abbrev IsGoneBut : NodeState → ProposalVote → ProposalVote → Type 0
IsGoneBut s' vote existing = existing.block_hash ≢ vote.block_hash → IsGone s' existing

collect_conflicts-skip :
    (s : NodeState) (vote : ProposalVote) (votes : BTreeMap ValidatorId ProposalVote)
    (rest : List (BTreeMap ValidatorId ProposalVote))
    → Map.get votes vote.validator_id ≡ none
    → collect_conflicts s vote (votes ∷ rest) ≡ collect_conflicts s vote rest
unfolding collect_conflicts
collect_conflicts-skip s vote votes rest missing = rw (collect_conflicts, missing) refl

-- What the first loop finds for a vote, and what it collects from the other maps.
collect_conflicts-found :
    (s s' : NodeState) (vote : ProposalVote) (votes : BTreeMap ValidatorId ProposalVote)
    (rest : List (BTreeMap ValidatorId ProposalVote)) (existing : ProposalVote)
    {out : List ProposalVote}
    → collect_conflicts s vote (votes ∷ rest) ≡ ok out
    → All (IsGoneBut s' vote) out
    → Map.get votes vote.validator_id ≡ some existing
    → IsReconciled s s' existing vote
      × (left : List ProposalVote) × (collect_conflicts s vote rest ≡ ok left)
      × All (IsGoneBut s' vote) left
unfolding collect_conflicts
collect_conflicts-found s s' vote votes rest existing {out} h gone found =
    elim (Bool-cases (existing.block_hash == vote.block_hash)) [
      | inl same ↦ (
        IsReconciled.same_block ((==_iff existing.block_hash vote.block_hash).0 same),
        out,
        rw (collect_conflicts, found, same) at h,
        gone,
      )
      | inr other ↦ elim (Bool-cases (can_replace_conflicting_proposal_vote s existing vote)) [
        | inl better ↦
            let h' : (collect_conflicts s vote rest >>= (λ conflicts. ok (existing ∷ conflicts)))
                ≡ ok out =
              ground arith in
            let (left, collected, e) = >>=-eq-ok (collect_conflicts s vote rest) _ h' in
            let (here, others) =
              subst (λ l. All (IsGoneBut s' vote) l) (sym (ok-injective e)) gone in
            let ne : existing.block_hash ≢ vote.block_hash =
              ground (arith, ==_iff existing.block_hash vote.block_hash) in
            (IsReconciled.replaced better (here ne), left, collected, others)
        | inr worse ↦ (
          IsReconciled.other_height (ground arith) (ground arith) (ground arith),
          out,
          ground arith,
          gone,
        )
      ]
    ]

collect_conflicts-AreReconciled :
    (s s' : NodeState) (vote : ProposalVote) (maps : List (BTreeMap ValidatorId ProposalVote))
    {out : List ProposalVote}
    → collect_conflicts s vote maps ≡ ok out
    → All (IsGoneBut s' vote) out
    → All (AreReconciled s s' vote) maps
collect_conflicts-AreReconciled s s' vote [] h gone = tt
collect_conflicts-AreReconciled s s' vote (votes ∷ rest) {out} h gone =
    elim (Option-cases (Map.get votes vote.validator_id)) [
      | inl missing ↦ (
        λ existing found. absurd (cc (sym missing ∙ found)),
        collect_conflicts-AreReconciled s s' vote rest
            (sym (collect_conflicts-skip s vote votes rest missing) ∙ h) gone,
      )
      | inr (known, at_validator) ↦
          let (_, left, collected, others) =
            collect_conflicts-found s s' vote votes rest known h gone at_validator in
          (
            λ existing found.
                (collect_conflicts-found s s' vote votes rest existing h gone found).0,
            collect_conflicts-AreReconciled s s' vote rest collected others,
          )
    ]

-- The vote of a validator on a block.
abbrev pub vote_of : VoteMap → ProposalVote → Option ProposalVote
vote_of votes vote =
    and_then (Map.get votes vote.block_hash)
      (λ by_validator. Map.get by_validator vote.validator_id)

-- The entry holds the vote, up to a signature that the vote's hash leaves out.
abbrev pub Holds : Crypto → VoteMap → ProposalVote → Type 0
Holds c votes vote =
    (stored : ProposalVote) × (vote_of votes vote ≡ some stored)
    × (proposal_vote_signing_hash c stored ≡ proposal_vote_signing_hash c vote)

vote_of_entry :
    (votes : VoteMap) (vote existing : ProposalVote)
    → Map.get (unwrap_or (Map.get votes vote.block_hash) []) vote.validator_id ≡ some existing
    → vote_of votes vote ≡ some existing
unfolding Map.get
vote_of_entry votes vote existing h = ground arith

put_vote-Holds :
    (c : Crypto) (votes : VoteMap) (vote : ProposalVote) {inserted : Bool} {votes' : VoteMap}
    → put_vote c votes vote ≡ ok (inserted, votes')
    → Holds c votes' vote
unfolding put_vote
put_vote-Holds c votes vote {inserted} {votes'} h =
    let by_validator = unwrap_or (Map.get votes vote.block_hash) [] in
    elim (Option-cases (Map.get by_validator vote.validator_id)) [
      | inl missing ↦
          let by_validator' = Map.insert by_validator vote.validator_id vote in
          let e : votes' ≡ Map.insert votes vote.block_hash by_validator' = ground arith in
          (
            vote,
            rw (e, get-insert_self votes vote.block_hash by_validator')
                (get-insert_self by_validator vote.validator_id vote),
            refl,
          )
      | inr (existing, found) ↦
          let e : votes' ≡ votes = ground arith in
          (existing, rw e (vote_of_entry votes vote existing found), ground arith)
    ]

-- The new vote's entry is the only one that changes.
put_vote-IsGone :
    (c : Crypto) (votes : VoteMap) (vote existing : ProposalVote) {inserted : Bool}
    {votes' : VoteMap}
    → put_vote c votes vote ≡ ok (inserted, votes')
    → existing.block_hash ≢ vote.block_hash
    → vote_on votes existing.block_hash existing.validator_id ≡ none
    → vote_on votes' existing.block_hash existing.validator_id ≡ none
unfolding put_vote
put_vote-IsGone c votes vote existing {inserted} {votes'} h ne gone =
    let by_validator = unwrap_or (Map.get votes vote.block_hash) [] in
    elim (Option-cases (Map.get by_validator vote.validator_id)) [
      | inl missing ↦
          let by_validator' = Map.insert by_validator vote.validator_id vote in
          let e : votes' ≡ Map.insert votes vote.block_hash by_validator' = ground arith in
          rw (e, get-insert_ne votes vote.block_hash by_validator' existing.block_hash ne) gone
      | inr (stored, found) ↦ let e : votes' ≡ votes = ground arith in rw e gone
    ]

AreGone-after :
    (r s' : NodeState) (vote : ProposalVote)
    → ((e : ProposalVote) → e.block_hash ≢ vote.block_hash → IsGone r e → IsGone s' e)
    → (out : List ProposalVote) → All (IsGone r) out
    → All (IsGoneBut s' vote) out
AreGone-after r s' vote step [] h = tt
AreGone-after r s' vote step (x ∷ xs) (p, ps) =
    (λ ne. step x ne p, AreGone-after r s' vote step xs ps)

-- Let the maps of votes have ascending keys. A vote that a node stores is stored, and every vote
-- of its validator that the node had before is reconciled with it: it is for the same block, or at
-- another height and slot of the same branch, or the new vote may replace it and neither the
-- stored nor the buffered votes have it any more.
pub store_proposal_vote-reconciled :
    (c : Crypto) (s : NodeState) (vote : ProposalVote) {inserted : Bool} {s' : NodeState}
    → AreBooks s
    → store_proposal_vote c s vote ≡ ok (inserted, s')
    → All (AreReconciled s s' vote) (vote_maps s) × Holds c s'.proposal_votes vote
unfolding store_proposal_vote resolve_conflicting_proposal_vote
store_proposal_vote-reconciled c s vote {inserted} {s'} books h =
    let (r, e, h') = at-eq-ok s (resolve_conflicting_proposal_vote s vote) _ h in
    let (conflicts, collected, removed) = >>=-eq-ok (collect_conflicts s vote (vote_maps s)) _ e in
    let ((i, votes), put, same) = at-eq-ok r (put_vote c r.proposal_votes vote) _ h' in
    let stored : s'.proposal_votes ≡ votes = ground arith in
    let buffered : s'.buffered_proposal_votes ≡ r.buffered_proposal_votes = ground arith in
    let gone : All (IsGone r) conflicts =
      subst (λ t. All (IsGone t) conflicts) (ok-injective removed)
        (remove_all-AreGone s conflicts books) in
    let step : (x : ProposalVote) → x.block_hash ≢ vote.block_hash → IsGone r x → IsGone s' x =
      λ x ne g. record {
        stored = rw stored (put_vote-IsGone c r.proposal_votes vote x put ne g.stored);
        buffered = rw buffered g.buffered;
      } in
    (
      collect_conflicts-AreReconciled s s' vote (vote_maps s) collected
          (AreGone-after r s' vote step conflicts gone),
      rw stored (put_vote-Holds c r.proposal_votes vote put),
    )
