-- ===== src/Node/Certificates/Accountable.antt =====
-- Two certificates at one height convict the validators that signed both.
use entangrid.Prelude.{
  ℕ, ◌*◌, ◌<◌, ◌≡◌, ◌≢◌, refl, List, [], ◌∷◌, Bool, true, false, all, ◌==◌, length, arith, All, ok,
  filter, Bool-cases, inl, inr, ==_iff, sym, ◌∙◌,
}
use entangrid.BTree.Set.{contains}
use entangrid.BTree.Key.{nat_key}
use entangrid.Quorum.{IsNodup, shared}
use entangrid.Types.Records.{ValidatorId, Block, ProposalVote, QuorumCertificate}
use entangrid.Types.Encoding.{Crypto}
use entangrid.Node.State.{NodeState}
use entangrid.Node.Certificates.{validate_quorum_certificate_for_block}
use entangrid.Node.Certificates.Voters.{
  voters, IsVoteFor, validate_quorum_certificate_for_block-IsCertified, certificates_overlap,
}

contains-filter :
    (p : ℕ → Bool) (xs : List ℕ) (x : ℕ) → contains xs x ≡ false → contains (filter p xs) x ≡ false
unfolding contains
contains-filter p [] x h = refl
contains-filter p (y ∷ ys) x h = ground (arith, contains-filter p ys x)

filter-IsNodup : (p : ℕ → Bool) (xs : List ℕ) → IsNodup xs → IsNodup (filter p xs)
filter-IsNodup p [] h = tt
filter-IsNodup p (x ∷ xs) (fresh, rest) = elim (Bool-cases (p x)) [
  | inl keep ↦ rw keep (contains-filter p xs x fresh, filter-IsNodup p xs rest)
  | inr skip ↦ rw skip (filter-IsNodup p xs rest)
]

module _ (c : Crypto) (s : NodeState) where
  -- A signed vote for the block: also its hash is the block's.
  pub record IsSigned (block : Block) (vote : ProposalVote) : Type 0 where
    pub for_block : IsVoteFor c s block vote
    pub block_hash : vote.block_hash ≡ block.block_hash

  -- The validator has signed a vote for each of the two blocks: votes of one height for different
  -- hashes.
  pub record IsDoubleVoter (block_a block_b : Block) (v : ValidatorId) : Type 0 where
    pub first : ProposalVote
    pub second : ProposalVote
    pub first_by : first.validator_id ≡ v
    pub second_by : second.validator_id ≡ v
    pub first_signed : IsSigned block_a first
    pub second_signed : IsSigned block_b second
    pub one_height : first.block_number ≡ second.block_number
    pub two_blocks : first.block_hash ≢ second.block_hash

  all-IsSigned :
      (block : Block) (votes : List ProposalVote)
      → All (IsVoteFor c s block) votes
      → all (λ vote. vote.block_hash == block.block_hash) votes ≡ true
      → All (IsSigned block) votes
  all-IsSigned block [] ps h = tt
  all-IsSigned block (vote ∷ rest) (p, ps) h = (
    record {
      for_block = p;
      block_hash = (==_iff vote.block_hash block.block_hash).0 (ground arith);
    },
    all-IsSigned block rest ps (ground arith),
  )

  find-IsSigned :
      (block : Block) (votes : List ProposalVote) (v : ValidatorId)
      → All (IsSigned block) votes
      → contains (voters votes) v ≡ true
      → (vote : ProposalVote) × (vote.validator_id ≡ v) × IsSigned block vote
  unfolding contains
  find-IsSigned block [] v ps h = absurd (ground arith)
  find-IsSigned block (vote ∷ rest) v (p, ps) h = elim (Bool-cases (v == vote.validator_id)) [
    | inl here ↦ let same : vote.validator_id ≡ v = ground arith in (vote, same, p)
    | inr there ↦ find-IsSigned block rest v ps (ground arith)
  ]

  shared_double :
      (block_a block_b : Block) (xs ys : List ProposalVote)
      → block_a.header.block_number ≡ block_b.header.block_number
      → block_a.block_hash ≢ block_b.block_hash
      → All (IsSigned block_a) xs
      → All (IsSigned block_b) ys
      → All (IsDoubleVoter block_a block_b) (shared (voters xs) (voters ys))
  unfolding shared
  shared_double block_a block_b [] ys height other_hash ps qs = tt
  shared_double block_a block_b (vote ∷ rest) ys height other_hash (p, ps) qs =
      elim (Bool-cases (contains (voters ys) vote.validator_id)) [
        | inl both ↦
            let (other, by, signed) = find-IsSigned block_b ys vote.validator_id qs both in
            rw both (
              record {
                first = vote;
                second = other;
                first_by = refl;
                second_by = by;
                first_signed = p;
                second_signed = signed;
                one_height = p.for_block.block_number ∙ height ∙ sym signed.for_block.block_number;
                two_blocks = λ e. other_hash (sym p.block_hash ∙ e ∙ signed.block_hash);
              },
              shared_double block_a block_b rest ys height other_hash ps qs,
            )
        | inr only ↦ rw only (shared_double block_a block_b rest ys height other_hash ps qs)
      ]

  -- Two certificates that a node accepts, each with pairwise different voters, for two blocks of
  -- one height with different hashes convict more than a third of the validators: there are that
  -- many different validators, each with two votes that it signed for this height, one for the
  -- hash, number, epoch and slot of each block.
  pub certificates_convict :
      (a b : QuorumCertificate) (block_a block_b : Block)
      → 0 < length s.genesis.validators
      → block_a.header.block_number ≡ block_b.header.block_number
      → block_a.block_hash ≢ block_b.block_hash
      → validate_quorum_certificate_for_block c s a block_a ≡ ok tt
      → validate_quorum_certificate_for_block c s b block_b ≡ ok tt
      → IsNodup (voters a.votes)
      → IsNodup (voters b.votes)
      → (culprits : List ValidatorId) × (length s.genesis.validators < 3 * length culprits)
        × IsNodup culprits
        × All (IsDoubleVoter block_a block_b) culprits
  unfolding shared
  certificates_convict a b block_a block_b some_validators height other_hash ha hb da db =
      let ca = validate_quorum_certificate_for_block-IsCertified c s a block_a ha in
      let cb = validate_quorum_certificate_for_block-IsCertified c s b block_b hb in
      (
        shared (voters a.votes) (voters b.votes),
        certificates_overlap c s a b block_a block_b some_validators ha hb da db,
        filter-IsNodup (λ x. contains (voters b.votes) x) (voters a.votes) da,
        shared_double block_a block_b a.votes b.votes height other_hash
            (all-IsSigned block_a a.votes ca.votes ca.named)
            (all-IsSigned block_b b.votes cb.votes cb.named),
      )
