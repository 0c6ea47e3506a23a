-- ===== src/Bundle/Tests.antt =====
-- bundle.rs: two sample bundles, and the theorems of this part on them.
use mathlib.Core.List.{filter_map}
use mathlib.Core.Option
use nanorix_verify.Prelude.{some, List, true, false, is_empty, get_elem?, parse_i64}
use nanorix_verify.Sample.{array, find_pointer, follow, print, print_items, print_fields}
use nanorix_verify.Activity.{non_null}
use nanorix_verify.Receipts.{str_field}
use nanorix_verify.Signature.{
  recompute_canonical_hash, canonical_view, insert_if_present, signed_message,
}
use nanorix_verify.Pipeline.Walk.{array_field}
use nanorix_verify.Bundle.{signature_target_document_canonical_hash}
use nanorix_verify.Bundle.Extract.{
  extract_receipt_bundle, extract_anchors, target_anchor, canonical_anchor, signed_version,
  last_step_hash, framework_version,
}
use nanorix_verify.Bundle.RoundTrip.{extract_receipt_bundle_sound}
use nanorix_verify.Prelude.{
  ◌≡◌, refl, none, [], ◌∷◌, ◌++◌, Text, text, text_eq, strip_prefix, decimal,
}
use nanorix_verify.Steps.{genesis_hash, strip_hash_prefix, strip_base64_prefix}
use nanorix_verify.Receipts.{verifier_compute_record_chain_hash}
use nanorix_verify.Sample.{
  Json, str, num, object, crates, digest, zeros, sum_bytes, find_field, get_field, verify_sample,
}
use nanorix_verify.Bundle.{
  AuditProofAnchors, PortableReceiptBundle, ok, bundle_message, climb,
  verify_merkle_inclusion_proof_local, bundle_activity_root, check_receipt, check_signature,
  verify_receipt_bundle,
}
use nanorix_verify.Bundle.Binding.{graft, verify_receipt_bundle-graft}

abbrev key : Text
key = text "0123456789abcdef0123456789abcdef"

abbrev record_hash : Text → Text
record_hash id =
    verifier_compute_record_chain_hash crates (text "capsule") 0 id (text "in") (text "out")
      genesis_hash none

abbrev receipt : Text → Json
receipt id = object (
    (text "record_index", num 0)
    ∷ (text "record_id", str id)
    ∷ (text "record_input_hash", str (text "in"))
    ∷ (text "record_output_hash", str (text "out"))
    ∷ (text "record_chain_hash", str (record_hash id))
    ∷ [])

abbrev anchors : Text → AuditProofAnchors
anchors id = record {
  capsule_id = text "capsule";
  key_id = text "key";
  verification_key = key;
  step_8_chain_hash = text "eight";
  signature = key ++ 5 ∷ zeros 31;
  record_receipts_merkle_root = record_hash id;
  timestamp = text "2026";
  framework_version_at_emit = none;
  signature_target = none;
  document_canonical_hash = none;
}

abbrev bundle : Text → PortableReceiptBundle crates
bundle id = record {
  bundle_version = text "1.0";
  bundle_type = text "receipt";
  generated_at = text "2026";
  receipt = receipt id;
  audit_proof_anchors = anchors id;
  disclaimer = [];
}

both_accepted :
    (verify_receipt_bundle crates (λ t. t) (bundle (text "genuine")) ≡ ok tt)
    × (verify_receipt_bundle crates (λ t. t) (bundle (text "other")) ≡ ok tt)
unfolding verify_receipt_bundle check_receipt check_signature bundle_message climb
    verify_merkle_inclusion_proof_local bundle_activity_root verifier_compute_record_chain_hash
    genesis_hash strip_hash_prefix strip_base64_prefix strip_prefix text_eq decimal digest zeros
    sum_bytes find_field get_field verify_sample filter_map
both_accepted = (refl, refl)

verify_receipt_bundle-graft_example :
    verify_receipt_bundle crates
      (λ t. t)
      (graft crates (λ t. t) (bundle (text "genuine")) (bundle (text "other")))
    ≡ ok tt
verify_receipt_bundle-graft_example =
    verify_receipt_bundle-graft crates (λ t. t) (bundle (text "genuine")) (bundle (text "other"))
      refl both_accepted.0 both_accepted.1

abbrev document : Json
document = object (
    (text "cdp_version", str (text "2.1"))
    ∷ (text "capsule_id", str (text "capsule"))
    ∷ (text "destroyed_at", str (text "2026"))
    ∷ (text "record_receipts", array (receipt (text "a") ∷ receipt (text "b") ∷ []))
    ∷ (text "record_receipts_merkle_root", str (text "root"))
    ∷ (text "chain", array (object ((text "chain_hash", str (text "eight")) ∷ []) ∷ []))
    ∷ (
      text "attestation",
      object (
          (text "key_id", str (text "key"))
          ∷ (text "public_key", str key)
          ∷ (text "signature", str (text "signature"))
          ∷ []),
    )
    ∷ [])

abbrev extracted_bundle : PortableReceiptBundle crates
extracted_bundle = record {
  bundle_version = text "1.0";
  bundle_type = text "receipt";
  generated_at = text "now";
  receipt = receipt (text "b");
  audit_proof_anchors = record {
    capsule_id = text "capsule";
    key_id = text "key";
    verification_key = key;
    step_8_chain_hash = text "eight";
    signature = text "signature";
    record_receipts_merkle_root = text "root";
    timestamp = text "2026";
    framework_version_at_emit = none;
    signature_target = some signature_target_document_canonical_hash;
    document_canonical_hash = some (recompute_canonical_hash crates document);
  };
  disclaimer = [];
}

extract_runs :
    (extract_receipt_bundle crates (text "now") [] document 1 ≡ ok extracted_bundle)
    × (str_field crates document (text "cdp_version") ≡ some (text "2.1"))
    × (signed_version (text "2.1") ≡ true)
    × (Option.get_or (str_field crates document (text "signing_mode")) (text "nanorix_only")
        ≡ text "nanorix_only")
    × (is_empty (recompute_canonical_hash crates document) ≡ false)
unfolding extract_receipt_bundle extract_anchors target_anchor canonical_anchor signed_version
    last_step_hash framework_version recompute_canonical_hash canonical_view insert_if_present
    non_null parse_i64 text_eq find_field get_field find_pointer follow digest zeros sum_bytes print
    print_items print_fields verifier_compute_record_chain_hash genesis_hash strip_hash_prefix
    strip_prefix decimal
extract_runs = (refl, refl, refl, refl, refl)

extract_receipt_bundle_sound_example :
    (receipts : List Json) × (message : Text) × (array_field crates document
        (text "record_receipts")
      ≡ some receipts)
    × (get_elem? receipts 1 ≡ some (receipt (text "b")))
    × (str_field crates document (text "record_receipts_merkle_root") ≡ some (text "root"))
    × (str_field crates document (text "capsule_id") ≡ some (text "capsule"))
    × (signed_message crates document (text "2.1") ≡ some message)
    × (bundle_message extracted_bundle.audit_proof_anchors ≡ ok (strip_hash_prefix message))
extract_receipt_bundle_sound_example =
    extract_receipt_bundle_sound crates (text "now") [] document 1 extracted_bundle (text "2.1")
      extract_runs.0 extract_runs.1 extract_runs.2 extract_runs.3 extract_runs.4
