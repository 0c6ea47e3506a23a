-- ===== src/Pipeline/Tests.antt =====
-- lib.rs: sample documents, and the theorems of this part on them.
use nanorix_verify.Prelude.{
  ◌≡◌, ◌↔◌, ◌⊎◌, ◌≤◌, refl, true, false, none, some, List, [], ◌∷◌, ◌++◌, map, Text, text, get_or,
}
use nanorix_verify.Prelude.Strings.{text_eq, strip_prefix}
use nanorix_verify.Prelude.Numbers.{is_digit}
use nanorix_verify.Steps.{
  genesis_hash, canonical_chain, strip_hash_prefix, strip_base64_prefix, compute_step_hash,
  amend_step_8, compute_step_8_amended_verifier,
}
use nanorix_verify.Timestamp.{resolve_chain_timestamp}
use nanorix_verify.Merkle.{verifier_merkle_root, levels}
use nanorix_verify.Receipts.{verify_parent_proofs, check_root, parent_leaf}
use nanorix_verify.Streaming.{event_kind, walk_streams, verify_streaming_merkle_roots}
use nanorix_verify.Activity.{
  version_signs_activity_root, non_null, gate_declared_activity_root, declared_activity_root,
  check_declared_activity_root_shape, check_root_text, is_lower_hex, all_lower_hex, declared_value,
}
use nanorix_verify.Signature.{
  signed_message, verify_message_with_key, embedded_signature, embedded_key, check_message,
  verify_signature, verify_signature_against, unsupported_mode_sentinel,
}
use nanorix_verify.Sample.{
  Json, str, object, array, crates, digest, zeros, find_field, get_field, follow, find_pointer,
  sum_bytes, verify_sample,
}
use nanorix_verify.Manifest.{
  TrustChainManifest, AuthorityRecord, KeyVersionRecord, get_authority, find_version,
  find_in_authority, find_key,
}
use nanorix_verify.Pipeline.Gates.{
  contains, check_version, check_region_pin, check_step_count, first_populated,
  populated_unsigned_slot, check_unsigned_slots, count_unattested_parent_attribution, read_metadata,
  find_started, signed_region, claimed_key_version, check_authority_pin,
}
use nanorix_verify.Pipeline.Walk.{
  canonical_step_hash, check_step, walk_chain, check_chain, check_receipts, check_parents,
  check_streams, check_activity_record, last_chain_hash, check_final_hash,
  declared_non_ed25519_algorithm, check_algorithm,
}
use nanorix_verify.Pipeline.Anchor.{
  anchored, claimed_authority, claimed_version, anchor_to_trust_chain, signature_stages,
}
use nanorix_verify.Pipeline.Accepted.{IsAccepted, IsAccepted-verify_auditproof}
use nanorix_verify.Pipeline.Verdict.{VerifierPolicy}
use nanorix_verify.Signature.Facts.{IsSignedBy}
use nanorix_verify.Signature.{verified}
use nanorix_verify.Receipts.{str_field, str_or_empty}
use nanorix_verify.Manifest.{KeyLookupResult}
use nanorix_verify.Pipeline.Walk.{array_field}
use nanorix_verify.Pipeline.Accepted.{verify_auditproof_iff}
use nanorix_verify.Pipeline.Stages.{verdict_shape, stage_eight_sound}
use nanorix_verify.Pipeline.ChainFacts.{claimed_hash, claimed_label, valid_chain_canonical}
use nanorix_verify.Pipeline.Verify.{verify_auditproof, verify_checks, with_attribution}
use nanorix_verify.Pipeline.ChainFacts.{canonical_hashes}

abbrev instant : Text
instant = text "2026-01-01T00:00:00Z"

abbrev hashes : List Text
hashes = canonical_hashes crates instant none none 0 genesis_hash 8

abbrev parent_root : Text
parent_root = text "feed"

-- with the root of the parents in the last step
abbrev amended_hashes : List Text
amended_hashes = canonical_hashes crates instant none (some parent_root) 0 genesis_hash 8

abbrev chain_of : List (Text × Text) → List Text → List Json
chain_of [] hs = []
chain_of (c ∷ cs) [] = []
chain_of (c ∷ cs) (h ∷ hs) =
    object ((text "subsystem", str c.0) ∷ (text "chain_hash", str h) ∷ []) ∷ chain_of cs hs

abbrev chain : Json
chain = array (chain_of canonical_chain hashes)

abbrev last : Text
last = get_or hashes 7 []

abbrev key : Text
key = text "0123456789abcdef0123456789abcdef"

abbrev signature : Text
signature = key ++ 64 ∷ zeros 31

abbrev pub signed_document : Json
signed_document = object (
    (text "cdp_version", str (text "1.0"))
    ∷ (text "authority_id", str (text "authority"))
    ∷ (text "destroyed_at", str instant)
    ∷ (text "signing_authority", object ((text "authority_id", str (text "authority")) ∷ []))
    ∷ (
      text "activity",
      array (
          object
            ((text "event", str (text "capsule_started")) ∷ (text "region", str (text "eu")) ∷ [])
          ∷ []),
    )
    ∷ (text "chain", chain)
    ∷ (text "final_hash", str last)
    ∷ (
      text "attestation",
      object (
          (text "signature", str signature)
          ∷ (text "public_key", str key)
          ∷ (text "signing_key_version", str (text "1"))
          ∷ (text "algorithm", str (text "Ed25519"))
          ∷ []),
    )
    ∷ [])

-- without a signature
abbrev declared_root : Text
declared_root =
    text
      "0123456789abcdef0123456789abcdef0123456789abcdef0123456789abcdef0123456789abcdef0123456789abcdef0123456789abcdef0123456789abcdef"

abbrev declaring_document : Json
declaring_document = object (
    (text "cdp_version", str (text "2.1"))
    ∷ (text "destroyed_at", str instant)
    ∷ (text "customer_declared_activity_root", str declared_root)
    ∷ (
      text "parent_proof_hashes",
      array (object ((text "parent_chain_hash", str parent_root) ∷ []) ∷ []),
    )
    ∷ (text "parent_proofs_merkle_root", str parent_root)
    ∷ (text "chain", array (chain_of canonical_chain amended_hashes))
    ∷ (text "final_hash", str (get_or amended_hashes 7 []))
    ∷ [])

abbrev record_of_key : KeyVersionRecord
record_of_key = record {
  signing_key_version = text "1";
  public_key_b64 = key;
  public_key_fingerprint = [];
  effective_from = instant;
  archived_at = none;
  algorithm = none;
}

abbrev pub authority : AuthorityRecord
authority = record {
  display_name = [];
  active_versions = record_of_key ∷ [];
  archived_versions = [];
  revoked = false;
}

abbrev manifest : TrustChainManifest
manifest = record {
  schema_version = text "1.0";
  issued_at = instant;
  authorities = (text "authority", authority) ∷ [];
  identity_fingerprint = [];
  identity_public_key_b64 = [];
  manifest_signature = [];
  pqc_manifest_signature = none;
}

abbrev pub policy : VerifierPolicy
policy = record {
  reject_diagnostic = false;
  required_region = some (text "eu");
  required_authority_id = some (text "authority");
  trust_chain = some manifest;
  pinned_identity_fingerprint = none;
  customer_activity = none;
}

abbrev open_policy : VerifierPolicy
open_policy = record policy { required_region = none; required_authority_id = none }

signed-IsAccepted : IsAccepted crates signed_document policy
unfolding canonical_chain strip_hash_prefix strip_base64_prefix compute_step_hash amend_step_8
    compute_step_8_amended_verifier genesis_hash resolve_chain_timestamp event_kind walk_streams
    verify_streaming_merkle_roots version_signs_activity_root non_null gate_declared_activity_root
    declared_activity_root signed_message verify_message_with_key embedded_signature embedded_key
    check_message verify_signature verify_signature_against get_authority find_version
    find_in_authority find_key contains check_version check_region_pin check_step_count
    first_populated populated_unsigned_slot check_unsigned_slots find_started signed_region
    claimed_key_version check_authority_pin canonical_step_hash check_step walk_chain check_chain
    check_receipts check_parents check_streams last_chain_hash check_final_hash
    declared_non_ed25519_algorithm check_algorithm anchored claimed_authority claimed_version
    anchor_to_trust_chain signature_stages find_field get_field follow find_pointer sum_bytes zeros
    digest verify_sample text_eq strip_prefix unsupported_mode_sentinel
signed-IsAccepted = record {
  version = text "1.0";
  chain = chain_of canonical_chain hashes;
  version_field = refl;
  version_known = refl;
  slots = refl;
  root_gate = refl;
  authority_pin = refl;
  region_pin = refl;
  chain_field = refl;
  step_count = refl;
  chain_walk = refl;
  receipts = refl;
  parents = refl;
  streams = refl;
  activity = refl;
  final_hash = refl;
  algorithm = refl;
  signature = refl;
}

pub signed_valid : (verify_auditproof crates signed_document [] policy).valid ≡ true
signed_valid = IsAccepted-verify_auditproof crates signed_document [] policy signed-IsAccepted

pub signed_stage : (verify_auditproof crates signed_document [] policy).stage_reached ≡ 8
unfolding verify_auditproof verify_checks read_metadata check_activity_record
    count_unattested_parent_attribution with_attribution canonical_chain strip_hash_prefix
    strip_base64_prefix compute_step_hash amend_step_8 compute_step_8_amended_verifier genesis_hash
    resolve_chain_timestamp event_kind walk_streams verify_streaming_merkle_roots
    version_signs_activity_root non_null gate_declared_activity_root declared_activity_root
    signed_message verify_message_with_key embedded_signature embedded_key check_message
    verify_signature verify_signature_against get_authority find_version find_in_authority find_key
    contains check_version check_region_pin check_step_count first_populated populated_unsigned_slot
    check_unsigned_slots find_started signed_region claimed_key_version check_authority_pin
    canonical_step_hash check_step walk_chain check_chain check_receipts check_parents check_streams
    last_chain_hash check_final_hash declared_non_ed25519_algorithm check_algorithm anchored
    claimed_authority claimed_version anchor_to_trust_chain signature_stages find_field get_field
    follow find_pointer sum_bytes zeros digest verify_sample text_eq strip_prefix
    unsupported_mode_sentinel
signed_stage = refl

declaring_valid : (verify_auditproof crates declaring_document [] open_policy).valid ≡ true
unfolding verify_parent_proofs check_root verifier_merkle_root levels
    check_declared_activity_root_shape check_root_text is_lower_hex all_lower_hex is_digit
    parent_leaf verify_auditproof verify_checks read_metadata check_activity_record
    count_unattested_parent_attribution with_attribution canonical_chain strip_hash_prefix
    strip_base64_prefix compute_step_hash amend_step_8 compute_step_8_amended_verifier genesis_hash
    resolve_chain_timestamp event_kind walk_streams verify_streaming_merkle_roots
    version_signs_activity_root non_null gate_declared_activity_root declared_activity_root
    signed_message verify_message_with_key embedded_signature embedded_key check_message
    verify_signature verify_signature_against get_authority find_version find_in_authority find_key
    contains check_version check_region_pin check_step_count first_populated populated_unsigned_slot
    check_unsigned_slots find_started signed_region claimed_key_version check_authority_pin
    canonical_step_hash check_step walk_chain check_chain check_receipts check_parents check_streams
    last_chain_hash check_final_hash declared_non_ed25519_algorithm check_algorithm anchored
    claimed_authority claimed_version anchor_to_trust_chain signature_stages find_field get_field
    follow find_pointer sum_bytes zeros digest verify_sample text_eq strip_prefix
    unsupported_mode_sentinel
declaring_valid = refl

verify_auditproof_iff_example :
    ((verify_auditproof crates signed_document [] policy).valid ≡ true)
    ↔ IsAccepted crates signed_document policy
verify_auditproof_iff_example = verify_auditproof_iff crates signed_document [] policy

verdict_shape_example :
    let r = verify_auditproof crates signed_document [] policy in
    ((r.valid ≡ true) ↔ (r.failure_reason ≡ none))
    × (1 ≤ r.stage_reached)
    × (r.stage_reached ≤ 8)
    × ((r.valid ≡ false)
        ⊎ ((r.stage_reached ≡ 4) ⊎ ((r.stage_reached ≡ 7) ⊎ (r.stage_reached ≡ 8))))
verdict_shape_example = verdict_shape crates signed_document [] policy

stage_eight_sound_example :
    (m : TrustChainManifest) × (l : KeyLookupResult) × (version : Text) × (policy.trust_chain
      ≡ some m)
    × (find_key m
          (claimed_authority crates signed_document)
          (claimed_version crates signed_document)
        ≡ some l)
    × (l.authority_record.revoked ≡ false)
    × (str_field crates signed_document (text "cdp_version") ≡ some version)
    × IsSignedBy crates signed_document version l.key.public_key_b64
stage_eight_sound_example =
    stage_eight_sound crates signed_document [] policy signed_valid signed_stage

valid_chain_canonical_example :
    let expected =
      canonical_hashes crates
        (resolve_chain_timestamp crates declaring_document).0
        (str_field crates declaring_document (text "record_receipts_merkle_root"))
        (str_field crates declaring_document (text "parent_proofs_merkle_root"))
        0
        genesis_hash
        8 in
    (steps : List Json) × (array_field crates declaring_document (text "chain") ≡ some steps)
    × (map (claimed_hash crates) steps ≡ expected)
    × (map (claimed_label crates) steps ≡ map (λ (c : Text × Text). c.0) canonical_chain)
    × (strip_hash_prefix (str_or_empty crates declaring_document (text "final_hash"))
        ≡ get_or expected 7 [])
valid_chain_canonical_example =
    valid_chain_canonical crates declaring_document [] open_policy declaring_valid

declares_root : declared_value crates declaring_document ≡ some (str declared_root)
unfolding non_null get_field find_field text_eq
declares_root = refl

signed_under_key : verify_signature_against crates signed_document (text "1.0") key ≡ verified
unfolding verify_signature_against check_message verify_message_with_key signed_message
    embedded_signature unsupported_mode_sentinel strip_prefix strip_hash_prefix strip_base64_prefix
    canonical_step_hash compute_step_8_amended_verifier compute_step_hash amend_step_8
    canonical_chain genesis_hash find_pointer follow get_field find_field text_eq verify_sample
    digest sum_bytes zeros
signed_under_key = refl
