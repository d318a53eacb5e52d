-- ===== src/Node/Votes/Gone.antt =====
-- Votes that are gone from a node after their removal.
use entangrid.Prelude.{◌≡◌, refl, List, [], ◌∷◌, none, All, sym, subst}
use entangrid.BTree.Key.{nat_key}
use entangrid.Types.Records.{ProposalVote}
use entangrid.Node.State.{NodeState}
use entangrid.Node.Votes.{remove_proposal_vote_from_maps, remove_all}
use entangrid.Node.Votes.Removed.{
  IsBook, vote_on, remove_vote-IsBook, remove_vote-gone, remove_vote-stays_gone,
}

-- Both maps of a node.
pub record AreBooks (s : NodeState) : Type 0 where
  pub stored : IsBook s.proposal_votes
  pub buffered : IsBook s.buffered_proposal_votes

-- Neither map has the vote.
pub record IsGone (s : NodeState) (vote : ProposalVote) : Type 0 where
  pub stored : vote_on s.proposal_votes vote.block_hash vote.validator_id ≡ none
  pub buffered : vote_on s.buffered_proposal_votes vote.block_hash vote.validator_id ≡ none

from_maps-AreBooks :
    (s : NodeState) (vote : ProposalVote)
    → AreBooks s
    → AreBooks (remove_proposal_vote_from_maps s vote)
unfolding remove_proposal_vote_from_maps
from_maps-AreBooks s vote books = record {
  stored = remove_vote-IsBook s.proposal_votes vote books.stored;
  buffered = remove_vote-IsBook s.buffered_proposal_votes vote books.buffered;
}

from_maps-IsGone :
    (s : NodeState) (vote : ProposalVote)
    → AreBooks s
    → IsGone (remove_proposal_vote_from_maps s vote) vote
unfolding remove_proposal_vote_from_maps
from_maps-IsGone s vote books = record {
  stored = remove_vote-gone s.proposal_votes vote books.stored;
  buffered = remove_vote-gone s.buffered_proposal_votes vote books.buffered;
}

from_maps-stays-IsGone :
    (s : NodeState) (vote other : ProposalVote)
    → AreBooks s
    → IsGone s other
    → IsGone (remove_proposal_vote_from_maps s vote) other
unfolding remove_proposal_vote_from_maps
from_maps-stays-IsGone s vote other books gone = record {
  stored =
      remove_vote-stays_gone s.proposal_votes vote other.block_hash other.validator_id books.stored
        gone.stored;
  buffered =
      remove_vote-stays_gone s.buffered_proposal_votes vote other.block_hash other.validator_id
        books.buffered gone.buffered;
}

remove_all-stays-IsGone :
    (s : NodeState) (votes : List ProposalVote) (other : ProposalVote)
    → AreBooks s
    → IsGone s other
    → IsGone (remove_all s votes) other
unfolding remove_all
remove_all-stays-IsGone s [] other books gone = gone
remove_all-stays-IsGone s (vote ∷ votes) other books gone =
    remove_all-stays-IsGone (remove_proposal_vote_from_maps s vote) votes other
      (from_maps-AreBooks s vote books) (from_maps-stays-IsGone s vote other books gone)

remove_all-cons :
    (s : NodeState) (vote : ProposalVote) (votes : List ProposalVote)
    → remove_all s (vote ∷ votes) ≡ remove_all (remove_proposal_vote_from_maps s vote) votes
unfolding remove_all
remove_all-cons s vote votes = refl

-- All the votes are gone after their removal.
pub remove_all-AreGone :
    (s : NodeState) (votes : List ProposalVote)
    → AreBooks s
    → All (IsGone (remove_all s votes)) votes
remove_all-AreGone s [] books = tt
remove_all-AreGone s (vote ∷ votes) books =
    let t = remove_proposal_vote_from_maps s vote in
    let later = from_maps-AreBooks s vote books in
    subst (λ u. All (IsGone u) (vote ∷ votes)) (sym (remove_all-cons s vote votes))
      (
        remove_all-stays-IsGone t votes vote later (from_maps-IsGone s vote books),
        remove_all-AreGone t votes later,
      )
