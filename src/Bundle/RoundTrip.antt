-- ===== src/Bundle/RoundTrip.antt =====
-- bundle.rs: what an extracted bundle carries of its AuditProof.
use nanorix_verify.Prelude.{
  ℕ, ◌≡◌, refl, arith, true, false, some, List, Text, text, text_eq, text_eq-eq, get_elem?, inl,
  inr, Option-cases, Bool-cases, is_empty,
}
use nanorix_verify.Libs.{Libs}
use nanorix_verify.Steps.{strip_hash_prefix}
use nanorix_verify.Receipts.{str_field}
use nanorix_verify.Signature.{recompute_canonical_hash, signed_message}
use nanorix_verify.Pipeline.Walk.{array_field}
use nanorix_verify.Bundle.{AuditProofAnchors, PortableReceiptBundle, ok, bundle_message}
use nanorix_verify.Bundle.Binding.{Outcome-cases}
use nanorix_verify.Bundle.Extract.{
  signed_version, canonical_anchor, target_anchor, extract_anchors, extract_receipt_bundle,
}
use mathlib.Core.Option

module _ (lib : Libs) where
  open lib use {Value}

  extracted :
      (generated_at disclaimer : Text) (proof : Value) (i : ℕ) (b : PortableReceiptBundle lib)
      → extract_receipt_bundle lib generated_at disclaimer proof i ≡ ok b
      → (receipts : List Value) × (array_field lib proof (text "record_receipts") ≡ some receipts)
        × (get_elem? receipts i ≡ some b.receipt)
        × (extract_anchors lib proof ≡ ok b.audit_proof_anchors)
  unfolding extract_receipt_bundle
  extracted generated_at disclaimer proof i b h =
      elim (Option-cases (array_field lib proof (text "record_receipts"))) [
        | inl missing ↦ absurd (ground arith)
        | inr (rs, e) ↦ elim (Option-cases (get_elem? rs i)) [
          | inl out ↦ absurd (ground arith)
          | inr (r, er) ↦ elim (Outcome-cases (extract_anchors lib proof)) [
            | inr (bad, eb) ↦ absurd (ground arith)
            | inl (a, ea) ↦ (rs, e, ground arith, ground arith)
          ]
        ]
      ]

  anchors_root :
      (proof : Value) (a : AuditProofAnchors)
      → extract_anchors lib proof ≡ ok a
      → (str_field lib proof (text "record_receipts_merkle_root")
          ≡ some a.record_receipts_merkle_root)
        × (str_field lib proof (text "capsule_id") ≡ some a.capsule_id)
        × (target_anchor lib proof ≡ ok (a.signature_target, a.document_canonical_hash))
  unfolding extract_anchors
  anchors_root proof a h = (ground arith, ground arith, ground arith)

  target_message :
      (proof : Value) (v : Text) (a : AuditProofAnchors)
      → target_anchor lib proof ≡ ok (a.signature_target, a.document_canonical_hash)
      → str_field lib proof (text "cdp_version") ≡ some v
      → signed_version v ≡ true
      → is_empty (recompute_canonical_hash lib proof) ≡ false
      → bundle_message a ≡ ok (strip_hash_prefix (recompute_canonical_hash lib proof))
  unfolding target_anchor canonical_anchor bundle_message text_eq
  target_message proof v a h version signs full = ground arith

  nanorix_message :
      (proof : Value) (v : Text)
      → signed_version v ≡ true
      → Option.get_or (str_field lib proof (text "signing_mode")) (text "nanorix_only")
        ≡ text "nanorix_only"
      → signed_message lib proof v ≡ some (recompute_canonical_hash lib proof)
  unfolding signed_version signed_message text_eq
  nanorix_message proof v signs mode =
      let plain : text_eq
            (Option.get_or (str_field lib proof (text "signing_mode")) (text "nanorix_only"))
            (text "nanorix_only")
          ≡ true =
        rw mode refl in
      elim (Bool-cases (text_eq v (text "2.1"))) [
        | inl is_21 ↦ rw (text_eq-eq v (text "2.1") is_21, plain) refl
        | inr other ↦
            let is_22 : text_eq v (text "2.2") ≡ true = ground arith in
            rw (text_eq-eq v (text "2.2") is_22, plain) refl
      ]

  -- A bundle extracted from a document of version 2.1 or 2.2 in the `nanorix_only` mode, whose
  -- canonical view serialises, has the receipt at the index asked for and the document's capsule id
  -- and receipts root, and the message that it is checked against is the document's signed message,
  -- prefix aside.
  pub extract_receipt_bundle_sound :
      (generated_at disclaimer : Text) (proof : Value) (i : ℕ) (b : PortableReceiptBundle lib)
      (v : Text)
      → extract_receipt_bundle lib generated_at disclaimer proof i ≡ ok b
      → str_field lib proof (text "cdp_version") ≡ some v
      → signed_version v ≡ true
      → Option.get_or (str_field lib proof (text "signing_mode")) (text "nanorix_only")
        ≡ text "nanorix_only"
      → is_empty (recompute_canonical_hash lib proof) ≡ false
      → (receipts : List Value) × (message : Text) × (array_field lib proof (text "record_receipts")
          ≡ some receipts)
        × (get_elem? receipts i ≡ some b.receipt)
        × (str_field lib proof (text "record_receipts_merkle_root")
            ≡ some b.audit_proof_anchors.record_receipts_merkle_root)
        × (str_field lib proof (text "capsule_id") ≡ some b.audit_proof_anchors.capsule_id)
        × (signed_message lib proof v ≡ some message)
        × (bundle_message b.audit_proof_anchors ≡ ok (strip_hash_prefix message))
  extract_receipt_bundle_sound generated_at disclaimer proof i b v h version signs mode full =
      let (receipts, e, at, anchors) = extracted generated_at disclaimer proof i b h in
      let (root, capsule, target) = anchors_root proof b.audit_proof_anchors anchors in
      (
        receipts,
        recompute_canonical_hash lib proof,
        e,
        at,
        root,
        capsule,
        nanorix_message proof v signs mode,
        target_message proof v b.audit_proof_anchors target version signs full,
      )
