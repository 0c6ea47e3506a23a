-- ===== src/Bundle.antt =====
-- tools/nanorix-verify/src/bundle.rs: the portable receipt bundle, one receipt with the anchors of
-- its AuditProof, and its standalone verification.
pub mod Binding
pub mod Extract
pub mod RoundTrip
pub mod Tests
use nanorix_verify.Prelude.{
  ℕ, Bool, true, false, Option, none, some, List, [], ◌∷◌, ◌++◌, ◌/◌, ◌%◌, ◌^◌, Text, Bytes, text,
  text_eq, ◌==◌, if◌then◌else◌, length,
}
use nanorix_verify.Libs.{Libs}
use nanorix_verify.Steps.{genesis_hash, strip_hash_prefix, strip_base64_prefix}
use nanorix_verify.Receipts.{str_field, verifier_compute_record_chain_hash, activity_root_from}
use nanorix_verify.Merkle.{verifier_merkle_pair_hash}
use mathlib.Core.Option
use mathlib.Core.List.{filter_map}

pub record AuditProofAnchors : Type 0 where
  pub capsule_id : Text
  pub key_id : Text
  pub verification_key : Text
  pub step_8_chain_hash : Text
  pub signature : Text
  pub record_receipts_merkle_root : Text
  pub timestamp : Text
  pub framework_version_at_emit : Option Text
  pub signature_target : Option Text
  pub document_canonical_hash : Option Text

pub data BundleError : Type 0 where
  no_receipts : BundleError
  index_out_of_bounds : (index count : ℕ) → BundleError
  missing_field : Text → BundleError
  record_chain_hash_mismatch : (claimed recomputed : Text) → BundleError
  merkle_inclusion_failed : Text → BundleError
  step_8_mismatch : (claimed recomputed : Text) → BundleError
  signature_failed : BundleError
  missing_canonical_hash_anchor : BundleError
  unknown_signature_target : Text → BundleError
  base64_decode_failed : (field reason : Text) → BundleError
  shape : Text → BundleError

pub data Outcome (A : Type 0) : Type 0 where
  ok : A → Outcome A
  err : BundleError → Outcome A

infixl 5 ◌>>=◌ ◌>>◌
abbrev pub ◌>>=◌ : {A B : Type 0} → Outcome A → (A → Outcome B) → Outcome B
ok a >>= f = f a
err e >>= f = err e

abbrev pub ◌>>◌ : {B : Type 0} → Outcome (Unit {0}) → Outcome B → Outcome B
m >> k = m >>= λ _. k

-- `ok_or(error)?`
abbrev pub ok_or : {A : Type 0} → Option A → BundleError → Outcome A
ok_or none e = err e
ok_or (some a) e = ok a

abbrev pub ensure : Bool → BundleError → Outcome (Unit {0})
ensure b e = if b then ok tt else err e

abbrev pub signature_target_step8_chain_hash : Text
signature_target_step8_chain_hash = text "step8_chain_hash"

abbrev pub signature_target_document_canonical_hash : Text
signature_target_document_canonical_hash = text "document_canonical_hash"

-- the `match` on `signature_target`
unfoldable pub bundle_message : AuditProofAnchors → Outcome Text
bundle_message a = elim a.signature_target [
  | none ↦ ok (strip_hash_prefix a.step_8_chain_hash)
  | some target ↦
      if text_eq target signature_target_step8_chain_hash
      then ok (strip_hash_prefix a.step_8_chain_hash)
      else if text_eq target signature_target_document_canonical_hash
      then ok_or (Option.map strip_hash_prefix a.document_canonical_hash)
          missing_canonical_hash_anchor
      else err (unknown_signature_target target)
]

module _ (lib : Libs) where
  open lib use {
    Value, get, as_str, as_array, as_u64, base64_decode, ed25519_key_valid, ed25519_verify,
  }

  pub record PortableReceiptBundle : Type 0 where
    pub bundle_version : Text
    pub bundle_type : Text
    pub generated_at : Text
    pub receipt : Value
    pub audit_proof_anchors : AuditProofAnchors
    pub disclaimer : Text

  -- the loop of `verify_merkle_inclusion_proof_local`
  unfoldable pub climb : Text → ℕ → List Text → Text
  climb current idx [] = current
  climb current idx (sibling ∷ proof) =
      climb
        (if idx % 2 == 0
          then verifier_merkle_pair_hash lib current sibling
          else verifier_merkle_pair_hash lib sibling current)
        (idx / 2) proof

  -- On an empty proof the loop leaves the leaf, as the early return does.
  unfoldable pub verify_merkle_inclusion_proof_local : Text → ℕ → List Text → Text → Bool
  verify_merkle_inclusion_proof_local leaf leaf_index proof claimed_root =
      text_eq (climb (strip_hash_prefix leaf) leaf_index proof) (strip_hash_prefix claimed_root)

  -- An empty trail has the genesis hash, which is the fold's start.
  unfoldable pub bundle_activity_root : Value → Text
  bundle_activity_root receipt = elim (get receipt (text "record_activity_trail")) [
    | none ↦ genesis_hash
    | some v ↦ elim (as_array v) [
      | none ↦ genesis_hash
      | some trail ↦ activity_root_from lib genesis_hash trail
    ]
  ]

  abbrev pub u64_field : Value → Text → Option ℕ
  u64_field v field = elim (get v field) [ none ↦ none | some x ↦ as_u64 x ]

  abbrev pub array_or_empty : Value → Text → List Value
  array_or_empty v field = elim (get v field) [ none ↦ [] | some x ↦ Option.get_or (as_array x) [] ]

  -- Steps 1 and 2: the receipt against the capsule and the claimed root.
  unfoldable pub check_receipt : Value → Text → Text → Outcome (Unit {0})
  check_receipt receipt capsule_id root = do
    index ←
        ok_or (u64_field receipt (text "record_index"))
          (shape (text "receipt.record_index missing"))
    record_id ←
        ok_or (str_field lib receipt (text "record_id")) (shape (text "receipt.record_id missing"))
    in_h ←
        ok_or (str_field lib receipt (text "record_input_hash"))
          (shape (text "receipt.record_input_hash missing"))
    out_h ←
        ok_or (str_field lib receipt (text "record_output_hash"))
          (shape (text "receipt.record_output_hash missing"))
    claimed ←
        ok_or (str_field lib receipt (text "record_chain_hash"))
          (shape (text "receipt.record_chain_hash missing"))
    let recomputed =
        verifier_compute_record_chain_hash lib capsule_id (index % 2 ^ 32) record_id in_h out_h
          (bundle_activity_root receipt) (str_field lib receipt (text "pattern_tag"))
    ensure (text_eq recomputed (strip_hash_prefix claimed))
        (record_chain_hash_mismatch claimed recomputed)
    ensure
        (verify_merkle_inclusion_proof_local claimed (index % 2 ^ 32)
          (filter_map as_str (array_or_empty receipt (text "merkle_inclusion_proof"))) root)
        (merkle_inclusion_failed root)

  module _ (decode_error : Text → Text) where
    -- Step 3: the signature over the message that the anchors name.
    unfoldable pub check_signature : AuditProofAnchors → Outcome (Unit {0})
    check_signature a = do
      message ← bundle_message a
      sig ← ok_or (base64_decode (strip_base64_prefix a.signature)) (
          base64_decode_failed (text "audit_proof_anchors.signature")
            (decode_error (strip_base64_prefix a.signature)))
      key ← ok_or (base64_decode (strip_base64_prefix a.verification_key)) (
          base64_decode_failed (text "audit_proof_anchors.verification_key")
            (decode_error (strip_base64_prefix a.verification_key)))
      ensure (length sig == 64) signature_failed
      ensure (length key == 32) signature_failed
      ensure (ed25519_key_valid key) signature_failed
      ensure (ed25519_verify key message sig) signature_failed

    unfoldable pub verify_receipt_bundle : PortableReceiptBundle → Outcome (Unit {0})
    verify_receipt_bundle b = do
      ensure (text_eq b.bundle_version (text "1.0"))
          (shape (text "unsupported bundle_version: " ++ b.bundle_version))
      ensure (text_eq b.bundle_type (text "receipt"))
          (shape (text "wrong bundle_type for Portable Receipt Bundle: " ++ b.bundle_type))
      check_receipt b.receipt b.audit_proof_anchors.capsule_id
          b.audit_proof_anchors.record_receipts_merkle_root
      check_signature b.audit_proof_anchors
