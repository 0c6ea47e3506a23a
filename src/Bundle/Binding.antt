-- ===== src/Bundle/Binding.antt =====
-- bundle.rs: what an accepted bundle shows, and what it leaves open.
use nanorix_verify.Prelude.{
  ◌≡◌, ◌↔◌, refl, arith, true, some, Text, Bytes, text, text_eq_iff, length, Option-cases, inl, inr,
  ◌⊎◌,
}
use nanorix_verify.Libs.{Libs}
use nanorix_verify.Steps.{strip_base64_prefix}
use nanorix_verify.Bundle.{
  AuditProofAnchors, PortableReceiptBundle, BundleError, Outcome, ok, err, ◌>>◌, bundle_message,
  check_receipt, check_signature, verify_receipt_bundle,
}

then-ok :
    {B : Type 0} (m : Outcome (Unit {0})) (k : Outcome B) (b : B)
    → (m >> k) ≡ ok b
    → (m ≡ ok tt) × (k ≡ ok b)
then-ok (ok u) k b h = (refl, h)
then-ok (err e) k b h = absurd (ground arith)

pub Outcome-cases :
    {A : Type 0} (o : Outcome A) → ((a : A) × (o ≡ ok a)) ⊎ ((e : BundleError) × (o ≡ err e))
Outcome-cases (ok a) = inl (a, refl)
Outcome-cases (err e) = inr (e, refl)

module _ (lib : Libs) (decode_error : Text → Text) where
  open lib use {Value, base64_decode, ed25519_key_valid, ed25519_verify}

  -- A bundle is accepted exactly when its version and type are the supported ones, its receipt
  -- passes against the capsule and the root that the bundle states, and its signature passes: the
  -- receipt and the root have no part in the signature check, nor the signature in theirs.
  pub verify_receipt_bundle_iff :
      (b : PortableReceiptBundle lib)
      → (verify_receipt_bundle lib decode_error b ≡ ok tt) ↔ (
          (b.bundle_version ≡ text "1.0")
          × (b.bundle_type ≡ text "receipt")
          × (check_receipt lib b.receipt b.audit_proof_anchors.capsule_id
                b.audit_proof_anchors.record_receipts_merkle_root
              ≡ ok tt)
          × (check_signature lib decode_error b.audit_proof_anchors ≡ ok tt))
  unfolding verify_receipt_bundle
  verify_receipt_bundle_iff b =
      let a = b.audit_proof_anchors in
      let receipt = check_receipt lib b.receipt a.capsule_id a.record_receipts_merkle_root in
      let signature = check_signature lib decode_error a in
      let v = text_eq_iff b.bundle_version (text "1.0") in
      let t = text_eq_iff b.bundle_type (text "receipt") in
      (
        λ h. (
          ground (arith, v),
          ground (arith, t),
          (then-ok receipt signature tt (ground arith)).0,
          (then-ok receipt signature tt (ground arith)).1,
        ),
        λ h. ground (arith, v, t),
      )

  -- What a bundle's anchors are signed over, in full.
  pub record IsSigned (a : AuditProofAnchors) : Type 0 where
    pub message : Text
    pub sig : Bytes
    pub key : Bytes
    pub signs : bundle_message a ≡ ok message
    pub signature_bytes : base64_decode (strip_base64_prefix a.signature) ≡ some sig
    pub key_bytes : base64_decode (strip_base64_prefix a.verification_key) ≡ some key
    pub signature_size : length sig ≡ 64
    pub key_size : length key ≡ 32
    pub key_valid : ed25519_key_valid key ≡ true
    pub verifies : ed25519_verify key message sig ≡ true

  check_signature_sound :
      (a : AuditProofAnchors) → check_signature lib decode_error a ≡ ok tt → IsSigned a
  unfolding check_signature
  check_signature_sound a h = elim (Outcome-cases (bundle_message a)) [
    | inr (e, bad) ↦ absurd (ground arith)
    | inl (m, em) ↦ elim (Option-cases (base64_decode (strip_base64_prefix a.signature))) [
      | inl bad ↦ absurd (ground arith)
      | inr (s, es) ↦ elim (Option-cases (base64_decode (strip_base64_prefix a.verification_key))) [
        | inl bad ↦ absurd (ground arith)
        | inr (k, ek) ↦ record {
          message = m;
          sig = s;
          key = k;
          signs = em;
          signature_bytes = es;
          key_bytes = ek;
          signature_size = ground arith;
          key_size = ground arith;
          key_valid = ground arith;
          verifies = ground arith;
        }
      ]
    ]
  ]

  -- The anchors of an accepted bundle carry an Ed25519 signature of the message that they name,
  -- under the key that they carry.
  pub verify_receipt_bundle_sound :
      (b : PortableReceiptBundle lib)
      → verify_receipt_bundle lib decode_error b ≡ ok tt
      → IsSigned b.audit_proof_anchors
  verify_receipt_bundle_sound b h =
      let (version, kind, receipt, signed) = (verify_receipt_bundle_iff b).0 h in
      check_signature_sound b.audit_proof_anchors signed

  -- The anchors of `b` with the receipt and the root of `c`.
  abbrev pub graft :
      PortableReceiptBundle lib → PortableReceiptBundle lib → PortableReceiptBundle lib
  graft b c = record b {
    receipt = c.receipt;
    audit_proof_anchors = record b.audit_proof_anchors {
      record_receipts_merkle_root = c.audit_proof_anchors.record_receipts_merkle_root;
    };
  }

  -- Of two accepted bundles with one capsule id, the signed anchors of the first with the receipt
  -- and the Merkle root of the second are accepted too: the signature does not bind the root.
  pub verify_receipt_bundle-graft :
      (b c : PortableReceiptBundle lib)
      → b.audit_proof_anchors.capsule_id ≡ c.audit_proof_anchors.capsule_id
      → verify_receipt_bundle lib decode_error b ≡ ok tt
      → verify_receipt_bundle lib decode_error c ≡ ok tt
      → verify_receipt_bundle lib decode_error (graft b c) ≡ ok tt
  unfolding check_signature bundle_message
  verify_receipt_bundle-graft b c same hb hc =
      let (version, kind, receipt, signed) = (verify_receipt_bundle_iff b).0 hb in
      let (version', kind', receipt', signed') = (verify_receipt_bundle_iff c).0 hc in
      (verify_receipt_bundle_iff (graft b c)).1 (version, kind, rw same receipt', signed)
