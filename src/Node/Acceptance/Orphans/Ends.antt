-- ===== src/Node/Acceptance/Orphans/Ends.antt =====
-- Where `try_promote_orphans` ends: a node without `consensus_v2`.
use entangrid.Prelude.{
  ℕ, zero, suc, ◌<◌, List, [], ◌∷◌, none, some, false, ◌==◌, ◌≡◌, refl, arith, String, ok, err,
  ◌>>◌, ◌⊎◌, Bool-cases, Option-cases, Result-cases, inl, inr, is_some, ==_iff, length,
  ok-injective, ap, >>=-eq-ok,
}
use mathlib.Core.Option.{some-injective}
use entangrid.BTree.Key.{nat_key}
use entangrid.BTree.Map
use entangrid.Types.Records.{HashBytes, Block}
use entangrid.Types.Encoding.{Crypto}
use entangrid.Types.Floats.{Floats}
use entangrid.Ledger.{LedgerState, apply_block}
use entangrid.Node.State.{NodeState, Fault, LocalVote, at, known_block, certified_head_only_active}
use entangrid.Node.State.Outcomes.{at-eq-ok}
use entangrid.Node.Finality.{maybe_build_qc, maybe_finalize_quorum_certificate}
use entangrid.Node.Voting.{maybe_broadcast_local_proposal_vote}
use entangrid.Node.BlockChecks.{check_block, check_proposal}
use entangrid.Node.Acceptance.{
  BlockAcceptance, accept_block, extend_tip, append_block, remove_transactions,
  import_buffered_proposal_votes_for_block,
}
use entangrid.Node.Acceptance.Orphans.{take_child, promote_orphan, try_promote_orphans}

-- A node without `consensus_v2`, which has no votes and no certificates.
pub record IsV1 (s : NodeState) : Type 0 where
  pub version : s.consensus_v2 ≡ false
  pub votes : s.proposal_votes ≡ []
  pub buffered : s.buffered_proposal_votes ≡ []
  pub certificates : s.quorum_certificates ≡ []

-- What a round leaves: such a node, and the orphans.
record IsRound (s s' : NodeState) : Type 0 where
  v1 : IsV1 s'
  orphans : s'.orphan_blocks ≡ s.orphan_blocks

take_child-some :
    (tip : HashBytes) (blocks : List Block) {block : Block} {rest : List Block}
    → take_child tip blocks ≡ some (block, rest)
    → (block.header.parent_hash ≡ tip) × (length blocks ≡ suc (length rest))
unfolding take_child
take_child-some tip [] {block} {rest} h = absurd (ground arith)
take_child-some tip (x ∷ xs) {block} {rest} h = elim (Bool-cases (x.header.parent_hash == tip)) [
  | inl here ↦
      let e = some-injective _ _ (rw (here, take_child) at h) in
      let x_is : x ≡ block = ap (λ r. r.0) e in
      let rest_is : xs ≡ rest = ap (λ r. r.1) e in
      (rw (← x_is) ((==_iff x.header.parent_hash tip).0 here), ap (λ r. suc (length r)) rest_is)
  | inr there ↦ elim (Option-cases (take_child tip xs)) [
    | inl nothing ↦ absurd (cc (rw (there, nothing) at h))
    | inr ((b, r), found) ↦
        let (child, shorter) = take_child-some tip xs found in
        let e = some-injective _ _ (rw (there, found) at h) in
        let b_is : b ≡ block = ap (λ r. r.0) e in
        let rest_is : x ∷ r ≡ rest = ap (λ r. r.1) e in
        (rw (← b_is) child, rw (← rest_is) (ap (λ n. suc n) shorter))
  ]
]

module _ (c : Crypto) (fuel : ℕ) where
  abbrev vote_v1 : LocalVote
  vote_v1 = maybe_broadcast_local_proposal_vote c (suc fuel)

  vote_v1-skips : (s : NodeState) (block : Block) → s.consensus_v2 ≡ false → vote_v1 s block ≡ ok s
  unfolding maybe_broadcast_local_proposal_vote
  vote_v1-skips s block h = ground arith

  buffered-none :
      (s : NodeState) (block : Block)
      → s.buffered_proposal_votes ≡ []
      → import_buffered_proposal_votes_for_block c vote_v1 s block ≡ ok s
  unfolding import_buffered_proposal_votes_for_block Map.get
  buffered-none s block h =
      let nothing : Map.get s.buffered_proposal_votes block.block_hash ≡ none = rw h refl in
      rw (import_buffered_proposal_votes_for_block, nothing) refl

  build-none :
      (s : NodeState) (hash : HashBytes)
      → s.proposal_votes ≡ []
      → s.quorum_certificates ≡ []
      → maybe_build_qc c s hash ≡ ok (none, s)
  unfolding maybe_build_qc Map.get
  build-none s hash votes certificates =
      let no_qc : Map.get s.quorum_certificates hash ≡ none = rw certificates refl in
      let no_votes : Map.get s.proposal_votes hash ≡ none = rw votes refl in
      elim (Option-cases (known_block s hash)) [
        | inl unknown ↦ rw (maybe_build_qc, no_qc, unknown) refl
        | inr (block, known) ↦ rw (maybe_build_qc, no_qc, known, no_votes) refl
      ]

  finalize-none :
      (s : NodeState) (hash : HashBytes)
      → s.proposal_votes ≡ []
      → s.quorum_certificates ≡ []
      → maybe_finalize_quorum_certificate c vote_v1 s hash ≡ ok (none, s)
  unfolding maybe_finalize_quorum_certificate at
  finalize-none s hash votes certificates =
      rw (maybe_finalize_quorum_certificate, build-none s hash votes certificates, at) refl

  -- The state after a block on top of the tip.
  abbrev extended : NodeState → LedgerState → Block → NodeState
  extended s ledger block =
      let appended = append_block c s ledger block in
      record appended { mempool = remove_transactions appended.mempool block.transactions }

  extend_tip-v1 :
      (s : NodeState) (ledger : LedgerState) (block : Block)
      → IsV1 s
      → extend_tip c vote_v1 s ledger block ≡ ok (BlockAcceptance.accepted, extended s ledger block)
  unfolding extend_tip append_block
  extend_tip-v1 s ledger block v =
      let t = append_block c s ledger block in
      rw
        (
          extend_tip,
          buffered-none t block v.buffered,
          finalize-none t block.block_hash v.votes v.certificates,
          vote_v1-skips (extended s ledger block) block v.version,
        )
        refl

  not_certified_only : (s : NodeState) → IsV1 s → certified_head_only_active s ≡ false
  unfolding certified_head_only_active
  not_certified_only s v = rw v.version refl

  IsRound-self : (s : NodeState) → IsV1 s → IsRound s s
  IsRound-self s v = record { v1 = v; orphans = refl }

  accept_block-IsRound :
      (f : Floats) (s : NodeState) (block : Block) {a : BlockAcceptance} {s' : NodeState}
      → IsV1 s
      → block.header.parent_hash ≡ s.ledger.tip_hash
      → accept_block c vote_v1 f s block false ≡ ok (a, s')
      → IsRound s s'
  unfolding accept_block append_block at
  accept_block-IsRound f s block {a} {s'} v child h =
      let at_tip = (==_iff block.header.parent_hash s.ledger.tip_hash).1 child in
      elim (Bool-cases (is_some (known_block s block.block_hash))) [
        | inl known ↦
            let e = ok-injective (rw (known, accept_block) at h) in
            rw (← ap (λ r. r.1) e) (IsRound-self s v)
        | inr unknown ↦
            let (_, checked, h1) =
              at-eq-ok s (check_block f c s block) _ (rw (unknown, accept_block) at h) in
            let (_, both, h2) =
              >>=-eq-ok
                (at s (check_proposal f c s block false) >> at s (apply_block c s.ledger block).0) _
                (rw at_tip at h1) in
            let ledger = (apply_block c s.ledger block).1 in
            let e =
              ok-injective (rw (not_certified_only s v, extend_tip-v1 s ledger block v) at h2) in
            rw (← ap (λ r. r.1) e) (record {
              v1 = record {
                version = v.version;
                votes = v.votes;
                buffered = v.buffered;
                certificates = v.certificates;
              };
              orphans = refl;
            })
      ]

  -- Such a node answers, or refuses the block before it changes anything.
  accept_block-v1 :
      (f : Floats) (s : NodeState) (block : Block)
      → IsV1 s
      → block.header.parent_hash ≡ s.ledger.tip_hash
      → ((r : BlockAcceptance × NodeState) × (accept_block c vote_v1 f s block false ≡ ok r))
        ⊎ ((text : String) × (accept_block c vote_v1 f s block false ≡ err (Fault.refused text s)))
  unfolding accept_block at
  accept_block-v1 f s block v child =
      let at_tip = (==_iff block.header.parent_hash s.ledger.tip_hash).1 child in
      let ledger = (apply_block c s.ledger block).1 in
      elim (Bool-cases (is_some (known_block s block.block_hash))) [
        | inl known ↦ inl ((BlockAcceptance.duplicate, s), rw (known, accept_block) refl)
        | inr unknown ↦ elim (Result-cases (check_block f c s block)) [
          | inr (text, failed) ↦ inr (text, rw (accept_block, unknown, failed, at) refl)
          | inl (_, checked) ↦ elim (Result-cases (check_proposal f c s block false)) [
            | inr (text, failed) ↦
                inr (text, rw (accept_block, unknown, checked, at_tip, failed, at) refl)
            | inl (_, proposed) ↦ elim (Result-cases (apply_block c s.ledger block).0) [
              | inr (text, failed) ↦
                  inr (text, rw (accept_block, unknown, checked, at_tip, proposed, failed, at) refl)
              | inl (_, applied) ↦ inl (
                (BlockAcceptance.accepted, extended s ledger block),
                rw
                    (
                      accept_block,
                      unknown,
                      checked,
                      at_tip,
                      proposed,
                      applied,
                      at,
                      not_certified_only s v,
                      extend_tip-v1 s ledger block v,
                    )
                    refl,
              )
            ]
          ]
        ]
      ]

  promote_orphan-IsRound :
      (f : Floats) (s : NodeState) (block : Block)
      → IsV1 s
      → block.header.parent_hash ≡ s.ledger.tip_hash
      → (t : NodeState) × (promote_orphan c vote_v1 f s block ≡ some t) × IsRound s t
  unfolding promote_orphan
  promote_orphan-IsRound f s block v child = elim (accept_block-v1 f s block v child) [
    | inl ((a, t), answered) ↦
        (t, rw (answered, promote_orphan) refl, accept_block-IsRound f s block v child answered)
    | inr (text, failed) ↦ (s, rw (failed, promote_orphan) refl, IsRound-self s v)
  ]

  -- Without `consensus_v2`, and so without votes and certificates, one round for each orphan and
  -- one more are enough for `try_promote_orphans`, and no orphan that is left extends the tip.
  pub try_promote_orphans-ends :
      (f : Floats) (rounds : ℕ) (s : NodeState)
      → IsV1 s
      → length s.orphan_blocks < rounds
      → (s' : NodeState) × (try_promote_orphans c vote_v1 f rounds s ≡ some s')
        × (take_child s'.ledger.tip_hash s'.orphan_blocks ≡ none)
  unfolding try_promote_orphans
  try_promote_orphans-ends f zero s v h = absurd (omega arith)
  try_promote_orphans-ends f (suc rounds) s v h =
      elim (Option-cases (take_child s.ledger.tip_hash s.orphan_blocks)) [
        | inl done ↦ (s, rw (try_promote_orphans, done) refl, done)
        | inr ((block, rest), found) ↦
            let (child, shorter) = take_child-some s.ledger.tip_hash s.orphan_blocks found in
            let taken : NodeState = record s { orphan_blocks = rest } in
            let v' : IsV1 taken = record {
              version = v.version;
              votes = v.votes;
              buffered = v.buffered;
              certificates = v.certificates;
            } in
            let (t, promoted, round) = promote_orphan-IsRound f taken block v' child in
            let same : t.orphan_blocks ≡ rest = round.orphans in
            let bound : length t.orphan_blocks < rounds = rw same (omega arith) in
            let (s', ends, none_left) = try_promote_orphans-ends f rounds t round.v1 bound in
            (s', rw (try_promote_orphans, found, promoted) ends, none_left)
      ]
