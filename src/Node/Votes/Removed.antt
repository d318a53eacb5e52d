-- ===== src/Node/Votes/Removed.antt =====
-- What the removal of a vote leaves of a map of votes.
use entangrid.Prelude.{
  ◌≡◌, ◌≢◌, refl, [], Option, none, some, inl, inr, arith, ◌==◌, Bool-cases, Option-cases, and_then,
  ==_iff, is_empty, ap, sym, subst, ◌⊎◌, ◌∙◌,
}
use mathlib.Core.Option.{some-injective}
use entangrid.BTree.Key.{nat_key}
use entangrid.BTree.Map
use entangrid.BTree.Map.{BTreeMap}
use entangrid.BTree.Map.Laws.{
  IsOrdered, get-insert_self, get-insert_ne, insert-IsOrdered, get-remove_self, get-remove_ne,
  remove-IsOrdered,
}
use entangrid.Types.Records.{ValidatorId, HashBytes, ProposalVote}
use entangrid.Node.State.{VoteMap}
use entangrid.Node.Votes.{remove_vote}

-- The maps of a node: ascending keys, for the blocks and for the votes of each block.
pub record IsBook (votes : VoteMap) : Type 0 where
  pub blocks : IsOrdered votes
  pub validators :
      (hash : HashBytes) (by_validator : BTreeMap ValidatorId ProposalVote)
      → Map.get votes hash ≡ some by_validator
      → IsOrdered by_validator

-- The vote of a validator on a block.
abbrev pub vote_on : VoteMap → HashBytes → ValidatorId → Option ProposalVote
vote_on votes hash validator_id =
    and_then (Map.get votes hash) (λ by_validator. Map.get by_validator validator_id)

-- The votes of the block without the validator's.
remove_vote-cases :
    (votes : VoteMap) (vote : ProposalVote) (by_validator : BTreeMap ValidatorId ProposalVote)
    → Map.get votes vote.block_hash ≡ some by_validator
    → ((remove_vote votes vote ≡ Map.remove votes vote.block_hash)
        × (Map.remove by_validator vote.validator_id ≡ []))
      ⊎ (remove_vote votes vote
          ≡ Map.insert votes vote.block_hash (Map.remove by_validator vote.validator_id))
unfolding remove_vote
remove_vote-cases votes vote by_validator found =
    elim (Bool-cases (is_empty (Map.remove by_validator vote.validator_id))) [
      | inl empty ↦ inl (rw (remove_vote, found, empty) refl, ground arith)
      | inr full ↦ inr (rw (remove_vote, found, full) refl)
    ]

-- The votes on the other blocks are the same.
remove_vote-other :
    (votes : VoteMap) (vote : ProposalVote) (hash : HashBytes)
    → hash ≢ vote.block_hash
    → Map.get (remove_vote votes vote) hash ≡ Map.get votes hash
unfolding remove_vote
remove_vote-other votes vote hash ne = elim (Option-cases (Map.get votes vote.block_hash)) [
  | inl nothing ↦ rw (remove_vote, nothing) refl
  | inr (by_validator, found) ↦ elim (remove_vote-cases votes vote by_validator found) [
    | inl (e, _) ↦ rw e (get-remove_ne votes vote.block_hash hash ne)
    | inr e ↦ rw e (get-insert_ne votes vote.block_hash _ hash ne)
  ]
]

-- The validator's vote on a block whose entry is known.
vote_on-found :
    (votes : VoteMap) (hash : HashBytes) (validator_id : ValidatorId)
    {entry : Option (BTreeMap ValidatorId ProposalVote)}
    → Map.get votes hash ≡ entry
    → vote_on votes hash validator_id ≡ and_then entry (λ m. Map.get m validator_id)
vote_on-found votes hash validator_id e = ap (λ o. and_then o (λ m. Map.get m validator_id)) e

-- The entry of the block after the removal.
remove_vote-entry :
    (votes : VoteMap) (vote : ProposalVote) (by_validator : BTreeMap ValidatorId ProposalVote)
    → IsBook votes
    → Map.get votes vote.block_hash ≡ some by_validator
    → ((Map.get (remove_vote votes vote) vote.block_hash ≡ none)
        × (Map.remove by_validator vote.validator_id ≡ []))
      ⊎ (Map.get (remove_vote votes vote) vote.block_hash
          ≡ some (Map.remove by_validator vote.validator_id))
remove_vote-entry votes vote by_validator book found =
    elim (remove_vote-cases votes vote by_validator found) [
      | inl (e, empty) ↦ inl (rw e (get-remove_self votes vote.block_hash book.blocks), empty)
      | inr e ↦ inr (rw e (get-insert_self votes vote.block_hash _))
    ]

remove_vote-missing :
    (votes : VoteMap) (vote : ProposalVote)
    → Map.get votes vote.block_hash ≡ none
    → remove_vote votes vote ≡ votes
unfolding remove_vote
remove_vote-missing votes vote nothing = rw (remove_vote, nothing) refl

-- The vote is gone.
pub remove_vote-gone :
    (votes : VoteMap) (vote : ProposalVote)
    → IsBook votes
    → vote_on (remove_vote votes vote) vote.block_hash vote.validator_id ≡ none
remove_vote-gone votes vote book = elim (Option-cases (Map.get votes vote.block_hash)) [
  | inl nothing ↦
      rw (remove_vote-missing votes vote nothing)
        (vote_on-found votes vote.block_hash vote.validator_id nothing)
  | inr (by_validator, found) ↦ elim (remove_vote-entry votes vote by_validator book found) [
    | inl (e, _) ↦ vote_on-found (remove_vote votes vote) vote.block_hash vote.validator_id e
    | inr e ↦
        vote_on-found (remove_vote votes vote) vote.block_hash vote.validator_id e
        ∙ get-remove_self by_validator vote.validator_id
            (book.validators vote.block_hash by_validator found)
  ]
]

removed_at :
    (m : BTreeMap ValidatorId ProposalVote) (k i : ValidatorId)
    → IsOrdered m
    → Map.get m i ≡ none
    → Map.get (Map.remove m k) i ≡ none
removed_at m k i ordered missing = elim (Bool-cases (i == k)) [
  | inl same ↦
      subst (λ z. Map.get (Map.remove m k) z ≡ none) (sym ((==_iff i k).0 same))
        (get-remove_self m k ordered)
  | inr other ↦ get-remove_ne m k i (ground (arith, ==_iff i k)) ∙ missing
]

stays_gone_at :
    (votes : VoteMap) (vote : ProposalVote) (validator_id : ValidatorId)
    → IsBook votes
    → vote_on votes vote.block_hash validator_id ≡ none
    → vote_on (remove_vote votes vote) vote.block_hash validator_id ≡ none
stays_gone_at votes vote validator_id book before =
    elim (Option-cases (Map.get votes vote.block_hash)) [
      | inl nothing ↦ rw (remove_vote-missing votes vote nothing) before
      | inr (by_validator, found) ↦ elim (remove_vote-entry votes vote by_validator book found) [
        | inl (e, _) ↦ vote_on-found (remove_vote votes vote) vote.block_hash validator_id e
        | inr e ↦
            vote_on-found (remove_vote votes vote) vote.block_hash validator_id e
            ∙ removed_at by_validator vote.validator_id validator_id
                (book.validators vote.block_hash by_validator found)
                (sym (vote_on-found votes vote.block_hash validator_id found) ∙ before)
      ]
    ]

-- A vote that is not there stays away.
pub remove_vote-stays_gone :
    (votes : VoteMap) (vote : ProposalVote) (hash : HashBytes) (validator_id : ValidatorId)
    → IsBook votes
    → vote_on votes hash validator_id ≡ none
    → vote_on (remove_vote votes vote) hash validator_id ≡ none
remove_vote-stays_gone votes vote hash validator_id book none_before =
    elim (Bool-cases (hash == vote.block_hash)) [
      | inr other ↦
          vote_on-found (remove_vote votes vote) hash validator_id
            (remove_vote-other votes vote hash (ground (arith, ==_iff hash vote.block_hash)))
          ∙ none_before
      | inl same ↦
          subst (λ h. vote_on (remove_vote votes vote) h validator_id ≡ none)
            (sym ((==_iff hash vote.block_hash).0 same))
            (stays_gone_at votes vote validator_id book (
              subst (λ h. vote_on votes h validator_id ≡ none)
                ((==_iff hash vote.block_hash).0 same) none_before))
    ]

remove_vote-blocks :
    (votes : VoteMap) (vote : ProposalVote) → IsBook votes → IsOrdered (remove_vote votes vote)
remove_vote-blocks votes vote book = elim (Option-cases (Map.get votes vote.block_hash)) [
  | inl nothing ↦ rw (remove_vote-missing votes vote nothing) book.blocks
  | inr (by_validator, found) ↦ elim (remove_vote-cases votes vote by_validator found) [
    | inl (e, _) ↦ rw e (remove-IsOrdered votes vote.block_hash book.blocks)
    | inr e ↦ rw e (insert-IsOrdered votes vote.block_hash _ book.blocks)
  ]
]

remove_vote-validators :
    (votes : VoteMap) (vote : ProposalVote) (left : BTreeMap ValidatorId ProposalVote)
    → IsBook votes
    → Map.get (remove_vote votes vote) vote.block_hash ≡ some left
    → IsOrdered left
remove_vote-validators votes vote left book kept =
    elim (Option-cases (Map.get votes vote.block_hash)) [
      | inl nothing ↦
          book.validators vote.block_hash left (rw (remove_vote-missing votes vote nothing) at kept)
      | inr (by_validator, found) ↦ elim (remove_vote-entry votes vote by_validator book found) [
        | inl (e, _) ↦ absurd (cc (sym e ∙ kept))
        | inr e ↦
            subst (λ m. IsOrdered m) (some-injective _ _ (sym e ∙ kept))
              (remove-IsOrdered by_validator vote.validator_id
                (book.validators vote.block_hash by_validator found))
      ]
    ]

pub remove_vote-IsBook :
    (votes : VoteMap) (vote : ProposalVote) → IsBook votes → IsBook (remove_vote votes vote)
remove_vote-IsBook votes vote book = record {
  blocks = remove_vote-blocks votes vote book;
  validators = λ hash left kept. elim (Bool-cases (hash == vote.block_hash)) [
    | inr other ↦ book.validators hash left (
        sym (remove_vote-other votes vote hash (ground (arith, ==_iff hash vote.block_hash)))
        ∙ kept)
    | inl same ↦ remove_vote-validators votes vote left book (
        subst (λ h. Map.get (remove_vote votes vote) h ≡ some left)
          ((==_iff hash vote.block_hash).0 same) kept)
  ];
}
