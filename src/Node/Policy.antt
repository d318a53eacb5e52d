-- ===== src/Node/Policy.antt =====
-- The hybrid signature policies of a node: `validate_hybrid_*_policy`.
use entangrid.Prelude.{List, [], ◌∷◌, not, Result, ok, ◌>>◌, bail_if, if◌then◌else◌}
use entangrid.Types.Scheme.{SignatureScheme, signature_scheme_eq}
use entangrid.Types.Records.{Block, SignedTransaction, RelayReceipt, ServiceAttestation}
use entangrid.Node.State.{NodeState}

module _ (s : NodeState) where
  unfoldable pub validate_hybrid_block_policy : Block → Result (Unit {0})
  validate_hybrid_block_policy block =
      if not s.require_hybrid_validator_signatures
      then ok tt
      else bail_if (not (signature_scheme_eq block.signature.scheme SignatureScheme.hybrid))
          "hybrid enforcement requires block proposer to sign with a hybrid signature"

  unfoldable pub validate_hybrid_transaction_policy : SignedTransaction → Result (Unit {0})
  validate_hybrid_transaction_policy transaction =
      if not s.require_hybrid_validator_signatures
      then ok tt
      else bail_if (not (signature_scheme_eq transaction.signature.scheme SignatureScheme.hybrid))
          "hybrid enforcement requires transaction from validator to use a hybrid signature"

  unfoldable pub validate_hybrid_receipt_policy : RelayReceipt → Result (Unit {0})
  validate_hybrid_receipt_policy receipt =
      if not s.require_hybrid_validator_signatures
      then ok tt
      else bail_if (not (signature_scheme_eq receipt.signature.scheme SignatureScheme.hybrid))
          "hybrid enforcement requires relay receipt from validator to use a hybrid signature"

  unfoldable pub validate_hybrid_service_attestation_policy : ServiceAttestation → Result (Unit {0})
  validate_hybrid_service_attestation_policy attestation =
      if not s.require_hybrid_validator_signatures
      then ok tt
      else bail_if (not (signature_scheme_eq attestation.signature.scheme SignatureScheme.hybrid))
          "hybrid enforcement requires service attestation to use a hybrid signature"

  -- The loop over a block's transactions.
  unfoldable pub validate_transaction_policies : List SignedTransaction → Result (Unit {0})
  unfolding validate_hybrid_transaction_policy
  validate_transaction_policies [] = ok tt
  validate_transaction_policies (transaction ∷ rest) =
      let next = validate_transaction_policies rest in
      validate_hybrid_transaction_policy transaction >> next
