-- ===== src/Bundle/Extract.antt =====
-- bundle.rs: the extraction of one receipt and its anchors from an AuditProof.
use nanorix_verify.Prelude.{
  ℕ, Bool, Option, none, some, List, [], ◌∷◌, ◌||◌, Text, text, text_eq, get_elem?, length,
  is_empty, if◌then◌else◌,
}
use nanorix_verify.Libs.{Libs}
use nanorix_verify.Steps.{strip_hash_prefix}
use nanorix_verify.Receipts.{str_field}
use nanorix_verify.Signature.{non_empty, or_else, recompute_canonical_hash}
use nanorix_verify.Pipeline.Walk.{array_field}
use nanorix_verify.Bundle.{
  AuditProofAnchors, PortableReceiptBundle, no_receipts, index_out_of_bounds, missing_field,
  missing_canonical_hash_anchor, Outcome, ok, ◌>>=◌, ok_or,
  signature_target_document_canonical_hash,
}
use mathlib.Core.Option

abbrev last_step : {A : Type 0} → List A → Option A
last_step [] = none
last_step (s ∷ []) = some s
last_step (s ∷ t ∷ steps) = last_step (t ∷ steps)

-- `matches!(cdp_version, "2.1" | "2.2")`
unfoldable pub signed_version : Text → Bool
signed_version v = text_eq v (text "2.1") || text_eq v (text "2.2")

-- `PORTABLE_RECEIPT_BUNDLE_DISCLAIMER`
unfoldable pub portable_receipt_bundle_disclaimer : Text
portable_receipt_bundle_disclaimer =
    text
      "This Portable Receipt Bundle carries cryptographic evidence of one record's structural execution. Verifying party uses the audit_proof_anchors to verify the receipt's merkle inclusion + outer Ed25519 signature. Control framework references are NOT included in this bundle; consult the specification mapping artifact at schema.nanorix.com/control-map/{framework_version}.json to apply current control mappings at consumption time."

module _ (lib : Libs) where
  open lib use {Value, get, pointer, as_str}

  abbrev text_of : Option Value → Option Text
  text_of none = none
  text_of (some v) = as_str v

  -- the fallback for an empty recomputation
  unfoldable pub canonical_anchor : Value → Outcome Text
  canonical_anchor proof =
      let recomputed = recompute_canonical_hash lib proof in
      if is_empty recomputed
      then ok_or
          (non_empty (Option.map strip_hash_prefix (str_field lib proof (text "canonical_hash"))))
          missing_canonical_hash_anchor
      else ok recomputed

  -- the pair of the signature target and the canonical hash
  unfoldable pub target_anchor : Value → Outcome (Option Text × Option Text)
  target_anchor proof =
      if signed_version (Option.get_or (str_field lib proof (text "cdp_version")) [])
      then (do
        canonical ← canonical_anchor proof
        ok (some signature_target_document_canonical_hash, some canonical))
      else ok (none, none)

  unfoldable pub last_step_hash : Value → Option Text
  last_step_hash proof = elim (array_field lib proof (text "chain")) [
    | none ↦ none
    | some chain ↦ elim (last_step chain) [
      | none ↦ none
      | some s ↦ str_field lib s (text "chain_hash")
    ]
  ]

  unfoldable pub framework_version : Value → Option Text
  framework_version proof = elim (get proof (text "regulatory_context")) [
    | none ↦ none
    | some v ↦ str_field lib v (text "framework_version")
  ]

  -- the anchors, in the order in which their absence is reported
  unfoldable pub extract_anchors : Value → Outcome AuditProofAnchors
  extract_anchors proof = do
    capsule_id ← ok_or (str_field lib proof (text "capsule_id")) (missing_field (text "capsule_id"))
    timestamp ←
        ok_or (str_field lib proof (text "destroyed_at")) (missing_field (text "destroyed_at"))
    key_id ←
        ok_or
          (text_of
            (or_else (pointer proof (text "/attestation/key_id")) (get proof (text "key_id"))))
          (missing_field (text "attestation.key_id"))
    verification_key ←
        ok_or
          (text_of (
            or_else (pointer proof (text "/attestation/verification_key")) (
              or_else (pointer proof (text "/attestation/public_key"))
                (get proof (text "verification_key")))))
          (missing_field (text "attestation.verification_key"))
    signature ←
        ok_or
          (text_of (
            or_else (pointer proof (text "/attestation/signature")) (get proof (text "signature"))))
          (missing_field (text "attestation.signature"))
    root ←
        ok_or (str_field lib proof (text "record_receipts_merkle_root"))
          (missing_field (text "record_receipts_merkle_root"))
    step_8 ← ok_or (last_step_hash proof) (missing_field (text "chain[7].chain_hash"))
    target ← target_anchor proof
    ok (record {
      capsule_id = capsule_id;
      key_id = key_id;
      verification_key = verification_key;
      step_8_chain_hash = step_8;
      signature = signature;
      record_receipts_merkle_root = root;
      timestamp = timestamp;
      framework_version_at_emit = framework_version proof;
      signature_target = target.0;
      document_canonical_hash = target.1;
    })

  -- `generated_at` is the clock, and the disclaimer is a constant text: both are arguments.
  unfoldable pub extract_receipt_bundle :
      Text → Text → Value → ℕ → Outcome (PortableReceiptBundle lib)
  extract_receipt_bundle generated_at disclaimer proof record_index = do
    receipts ← ok_or (array_field lib proof (text "record_receipts")) no_receipts
    receipt ←
        ok_or (get_elem? receipts record_index) (index_out_of_bounds record_index (length receipts))
    anchors ← extract_anchors proof
    ok (record {
      bundle_version = text "1.0";
      bundle_type = text "receipt";
      generated_at = generated_at;
      receipt = receipt;
      audit_proof_anchors = anchors;
      disclaimer = disclaimer;
    })
