-- ===== src/Consensus/Aggregates.antt =====
-- What `validate_service_aggregate` guarantees of the attesters.
use entangrid.Prelude.{
  ℕ, ◌+◌, ◌*◌, ◌<◌, ◌≤◌, ◌≡◌, refl, ◌∙◌, sym, List, [], ◌∷◌, map, true, false, ok, arith, length,
  ok-injective, is_empty, subst, ap,
}
use entangrid.BTree.Key.{nat_key}
use entangrid.BTree.Set
use entangrid.BTree.Set.{BTreeSet, contains}
use entangrid.BTree.Set.Laws.{contains-insert, contains-insert_self, length-insert}
use entangrid.Quorum.{IsNodup, IsSubset, shared, shared_third}
use entangrid.Types.Records.{ValidatorId, ServiceAttestation, ServiceAggregate}
use entangrid.Types.Encoding.{Crypto}
use entangrid.Types.Evidence.{aggregate_is_well_formed}
use entangrid.Consensus.Engine.{ConsensusEngine}
use entangrid.Consensus.Committee.{
  service_committee_threshold, to_set, attest_members, service_committee_for,
  validate_service_aggregate,
}

contains-to_set : (xs : List ℕ) (x : ℕ) → contains (to_set xs) x ≡ contains xs x
unfolding contains to_set
contains-to_set [] x = refl
contains-to_set (y ∷ ys) x = ground (arith, contains-insert (to_set ys) y x, contains-to_set ys x)

IsSubset-to_set : (xs ys : List ℕ) → IsSubset xs (to_set ys) → IsSubset xs ys
IsSubset-to_set [] ys s = tt
IsSubset-to_set (x ∷ xs) ys (m, s) = (sym (contains-to_set ys x) ∙ m, IsSubset-to_set xs ys s)

abbrev pub attesters : List ServiceAttestation → List ValidatorId
attesters = map (λ a. a.committee_member_id)

attest_members-cons :
    (members attested : BTreeSet ValidatorId) (a : ServiceAttestation)
    (rest : List ServiceAttestation) {out : BTreeSet ValidatorId}
    → attest_members members attested (a ∷ rest) ≡ ok out
    → (contains members a.committee_member_id ≡ true)
      × (contains attested a.committee_member_id ≡ false)
      × (attest_members members (Set.insert attested a.committee_member_id) rest ≡ ok out)
unfolding attest_members
attest_members-cons members attested a rest h = ground arith

-- The loop accepts attesters that are in the committee, new and different, and counts them.
pub record IsAttested (members attested : BTreeSet ValidatorId) (ids : List ValidatorId)
    (out : BTreeSet ValidatorId) : Type 0 where
  pub distinct : IsNodup ids
  pub assigned : IsSubset ids members
  pub fresh : (x : ValidatorId) → contains attested x ≡ true → contains ids x ≡ false
  pub counted : length out ≡ length attested + length ids

fresh-cons :
    (attested : BTreeSet ValidatorId) (x : ValidatorId) (ids : List ValidatorId) (y : ValidatorId)
    → contains attested x ≡ false
    → contains attested y ≡ true
    → (contains (Set.insert attested x) y ≡ true → contains ids y ≡ false)
    → contains (x ∷ ids) y ≡ false
unfolding contains
fresh-cons attested x ids y new old f = ground (arith, contains-insert attested x y)

attest_members-IsAttested :
    (members attested : BTreeSet ValidatorId) (atts : List ServiceAttestation)
    {out : BTreeSet ValidatorId}
    → attest_members members attested atts ≡ ok out
    → IsAttested members attested (attesters atts) out
attest_members-IsAttested members attested [] {out} h =
    let e : attested ≡ out = unfold attest_members in ok-injective h in
    record {
      distinct = tt;
      assigned = tt;
      fresh = λ x p. unfold contains in refl;
      counted = rw (← e) (omega arith);
    }
attest_members-IsAttested members attested (a ∷ rest) h =
    let x = a.committee_member_id in
    let (member, new, h') = attest_members-cons members attested a rest h in
    let ih = attest_members-IsAttested members (Set.insert attested x) rest h' in
    record {
      distinct = (ih.fresh x (contains-insert_self attested x), ih.distinct);
      assigned = (member, ih.assigned);
      fresh = λ y p. fresh-cons attested x (attesters rest) y new p (ih.fresh y);
      counted = omega (arith, ih.counted, length-insert attested x new);
    }

nonempty_of_IsSubset :
    (atts : List ServiceAttestation) (ids : List ValidatorId)
    → is_empty atts ≡ false
    → IsSubset (attesters atts) ids
    → 0 < length ids
unfolding contains
nonempty_of_IsSubset [] ids h s = absurd (cc)
nonempty_of_IsSubset (a ∷ rest) [] h s = absurd (cc (s.0))
nonempty_of_IsSubset (a ∷ rest) (x ∷ ids) h s = omega arith

module _ (c : Crypto) (e : ConsensusEngine) where
  validate_service_aggregate-parts :
      (aggregate : ServiceAggregate)
      → validate_service_aggregate c e aggregate ≡ ok tt
      → let committee = service_committee_for c e aggregate.epoch aggregate.subject_validator_id in
        (aggregate_is_well_formed c aggregate ≡ true)
        × (out : BTreeSet ValidatorId) × (attest_members
              (to_set committee)
              []
              aggregate.attestations
            ≡ ok out)
        × (service_committee_threshold (length committee) ≤ length out)
  unfolding validate_service_aggregate
  validate_service_aggregate-parts aggregate h = ground arith

  -- An aggregate is valid only if it is well formed and attested by pairwise different members
  -- of its subject's committee, at least as many as the threshold.
  pub validate_service_aggregate-ok :
      (aggregate : ServiceAggregate)
      → validate_service_aggregate c e aggregate ≡ ok tt
      → let committee = service_committee_for c e aggregate.epoch aggregate.subject_validator_id in
        let ids = attesters aggregate.attestations in
        (aggregate_is_well_formed c aggregate ≡ true)
        × IsNodup ids
        × IsSubset ids committee
        × (service_committee_threshold (length committee) ≤ length ids)
  validate_service_aggregate-ok aggregate h =
      let committee = service_committee_for c e aggregate.epoch aggregate.subject_validator_id in
      let ids = attesters aggregate.attestations in
      let (formed, out, attested, enough) = validate_service_aggregate-parts aggregate h in
      let a = attest_members-IsAttested (to_set committee) [] aggregate.attestations attested in
      (formed, a.distinct, IsSubset-to_set ids committee a.assigned, omega (arith, a.counted))

  -- A valid aggregate has an attester, so its committee is not empty.
  committee_nonempty :
      (aggregate : ServiceAggregate)
      → validate_service_aggregate c e aggregate ≡ ok tt
      → 0 < length (service_committee_for c e aggregate.epoch aggregate.subject_validator_id)
  unfolding aggregate_is_well_formed
  committee_nonempty aggregate h =
      let (formed, d, s, _) = validate_service_aggregate-ok aggregate h in
      nonempty_of_IsSubset aggregate.attestations
        (service_committee_for c e aggregate.epoch aggregate.subject_validator_id) (ground arith) s

  -- Two valid aggregates on the same subject and epoch share more than a third of the committee
  -- as attesters.
  pub aggregates_overlap :
      (a b : ServiceAggregate)
      → validate_service_aggregate c e a ≡ ok tt
      → validate_service_aggregate c e b ≡ ok tt
      → a.epoch ≡ b.epoch
      → a.subject_validator_id ≡ b.subject_validator_id
      → length (service_committee_for c e a.epoch a.subject_validator_id)
        < 3 * length (shared (attesters a.attestations) (attesters b.attestations))
  unfolding service_committee_threshold
  aggregates_overlap a b ha hb epoch subject =
      let committee = service_committee_for c e a.epoch a.subject_validator_id in
      let same : service_committee_for c e b.epoch b.subject_validator_id ≡ committee = cc in
      let (_, da, sa, ta) = validate_service_aggregate-ok a ha in
      let (_, db, sb, tb) = validate_service_aggregate-ok b hb in
      let nonempty = committee_nonempty a ha in
      let n : length (service_committee_for c e b.epoch b.subject_validator_id) ≡ length committee =
        ap length same in
      shared_third (attesters a.attestations) (attesters b.attestations) committee da db sa
        (subst (λ z. IsSubset (attesters b.attestations) z) same sb) (ground arith)
        (ground (arith, n))
