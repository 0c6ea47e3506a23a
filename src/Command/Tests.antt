-- ===== src/Command/Tests.antt =====
-- main.rs: runs of the command line, and the theorems on them.
use nanorix_verify.Prelude.{
  All, ◌≡◌, ◌⊎◌, ◌↔◌, refl, true, false, none, some, List, [], ◌∷◌, ◌++◌, Bytes, text, remove,
  sort_by_key,
}
use nanorix_verify.Libs.{Libs}
use nanorix_verify.Sample.{
  Json, crates, find_field, get_field, follow, find_pointer, sum_bytes, zeros, digest,
  verify_sample, print, print_items, print_fields,
}
use nanorix_verify.Manifest.{
  TrustChainManifest, get_authority, find_version, find_in_authority, find_key,
}
use nanorix_verify.Manifest.Signed.{
  unsigned_manifest, manifest_entries, check_identity, check_payload, signed_payload, key_value,
  authority_value, fingerprint,
}
use nanorix_verify.Pipeline.Verdict.{VerifierPolicy}
use nanorix_verify.Pipeline.Tests.{signed_document, authority}
use nanorix_verify.Command.{
  Host, Cli, Commands, verify, exit_code, verify_path, proof_verdict, done,
}
use nanorix_verify.Command.Main.{
  main, setup, setup_trust_chain, setup_customer_activity, trust_manifest, load_from_file,
  run_command,
}
use nanorix_verify.Command.Operations.{
  verify_files, read_documents, run_boundary_verify, read_document, read_trail, boundary_documents,
  attestation_verdict, trail_failure,
}
use nanorix_verify.Command.Setup.{IsTrustRoot}
use nanorix_verify.Command.Exits.{Holds, PathVerdict, verify_path-PathVerdict, verify_files_iff}
use nanorix_verify.Command.Accepted.{IsAuthentic, main_verify-IsAuthentic}
use nanorix_verify.Command.Boundaries.{run_boundary_verify-IsAnchored}
use nanorix_verify.Pipeline.Verify.{verify_auditproof, verify_checks, with_attribution}
use nanorix_verify.Pipeline.Gates.{
  read_metadata, count_unattested_parent_attribution, contains, check_version, check_region_pin,
  check_step_count, first_populated, populated_unsigned_slot, check_unsigned_slots, find_started,
  signed_region, claimed_key_version, check_authority_pin,
}
use nanorix_verify.Pipeline.Walk.{
  check_activity_record, canonical_step_hash, check_step, walk_chain, check_chain, check_receipts,
  check_parents, check_streams, last_chain_hash, check_final_hash, declared_non_ed25519_algorithm,
  check_algorithm,
}
use nanorix_verify.Steps.{
  canonical_chain, strip_hash_prefix, strip_base64_prefix, compute_step_hash, amend_step_8,
  compute_step_8_amended_verifier, genesis_hash,
}
use nanorix_verify.Timestamp.{resolve_chain_timestamp}
use nanorix_verify.Streaming.{event_kind, walk_streams, verify_streaming_merkle_roots}
use nanorix_verify.Activity.{
  version_signs_activity_root, non_null, gate_declared_activity_root, declared_activity_root,
}
use nanorix_verify.Signature.{
  signed_message, verify_message_with_key, embedded_signature, embedded_key, check_message,
  verify_signature_against, unsupported_mode_sentinel,
}
use nanorix_verify.Pipeline.Anchor.{
  anchored, claimed_authority, claimed_version, anchor_to_trust_chain, signature_stages,
}
use nanorix_verify.Prelude.Strings.{text_eq, strip_prefix}
use nanorix_verify.Boundary.Tests.{first, boundary_manifest}
use nanorix_verify.Boundary.Anchored.{IsAnchored}
use nanorix_verify.Boundary.Chain.{index_of}
use nanorix_verify.Boundary.{
  boundary_continuation_statement, is_observation_method, check_kind, check_pin, check_continuation,
  recompute_boundary_canonical_hash, boundary_metadata, check_methods, check_evidence, check_schema,
  check_canonical_hash, boundary_key, boundary_authority, check_authenticity, check_signatures,
  verify_boundary_attestation, check_present,
}

-- The crates, with a parser that reads the document of a host's files.
abbrev parsing : Json → Libs
parsing doc = record crates { from_slice = λ b. some doc }

abbrev seed : Bytes
seed = zeros 32

abbrev unsigned : TrustChainManifest
unsigned = unsigned_manifest crates (text "1") [] ((text "authority", authority) ∷ []) seed

abbrev manifest : TrustChainManifest
manifest = record unsigned {
  manifest_signature =
      text "base64:"
      ++ crates.base64_encode (
          crates.ed25519_sign seed (
            print (
              crates.object_value (
                remove (text "pqc_manifest_signature")
                  (remove (text "manifest_signature") (manifest_entries crates unsigned))))));
}

-- Every path can be read.
abbrev host_of : (doc : Json) → Host (parsing doc)
host_of doc = record {
  read = λ path. some path;
  open_dir = λ path. none;
  to_lowercase = λ t. t;
  sort_paths = λ ps. ps;
  read_error = λ path. [];
  json_error = λ b. [];
  decode_error = λ t. t;
  jcs_error = [];
  parse_manifest = λ b. some manifest;
  parse_receipt_bundle = λ b. none;
  parse_pubkey_bundle = λ b. none;
  parse_keys = λ v. none;
  now = [];
  write_receipt_bundle = λ path b. true;
  write_pubkey_bundle = λ path b. true;
}

abbrev cli : Commands → Cli
cli command = record {
  command = some command;
  proof = none;
  reject_diagnostic = false;
  required_region = none;
  required_authority_id = none;
  trust_chain = some (text "m");
  identity_fingerprint = some (fingerprint crates seed);
  customer_activity = none;
}

abbrev policy : VerifierPolicy
policy = record {
  reject_diagnostic = false;
  required_region = none;
  required_authority_id = none;
  trust_chain = some manifest;
  pinned_identity_fingerprint = some (fingerprint crates seed);
  customer_activity = none;
}

verify_path_example :
    PathVerdict (parsing signed_document) (host_of signed_document) (text "p") policy (
      exit_code (verify_path (parsing signed_document) (host_of signed_document) (text "p") policy))
verify_path_example =
    verify_path-PathVerdict (parsing signed_document) (host_of signed_document) (text "p") policy

verify_exits :
    exit_code (main (parsing signed_document) (host_of signed_document) (cli (verify (text "p"))))
    ≡ 0
unfolding verify_auditproof verify_checks read_metadata check_activity_record
    count_unattested_parent_attribution with_attribution canonical_chain strip_hash_prefix
    strip_base64_prefix compute_step_hash amend_step_8 compute_step_8_amended_verifier genesis_hash
    resolve_chain_timestamp event_kind walk_streams verify_streaming_merkle_roots
    version_signs_activity_root non_null gate_declared_activity_root declared_activity_root
    signed_message verify_message_with_key embedded_signature embedded_key check_message
    verify_signature_against get_authority find_version find_in_authority find_key contains
    check_version check_region_pin check_step_count first_populated populated_unsigned_slot
    check_unsigned_slots find_started signed_region claimed_key_version check_authority_pin
    canonical_step_hash check_step walk_chain check_chain check_receipts check_parents check_streams
    last_chain_hash check_final_hash declared_non_ed25519_algorithm check_algorithm anchored
    claimed_authority claimed_version anchor_to_trust_chain signature_stages find_field get_field
    follow find_pointer sum_bytes zeros digest verify_sample text_eq strip_prefix
    unsupported_mode_sentinel exit_code verify_path proof_verdict main setup setup_trust_chain
    setup_customer_activity trust_manifest load_from_file run_command check_identity check_payload
    signed_payload manifest_entries key_value authority_value fingerprint print print_items
    print_fields nanorix_verify.Signature.verify_signature
    nanorix_verify.Manifest.Signed.verify_signature
verify_exits = refl

main_verify_example :
    (m : TrustChainManifest) × (doc : Json) × IsTrustRoot
      (parsing signed_document)
      (host_of signed_document)
      (cli (verify (text "p")))
      (text "m")
      m
    × Holds (parsing signed_document) (host_of signed_document) (text "p") doc
    × IsAuthentic (parsing signed_document) (host_of signed_document) m doc
main_verify_example =
    main_verify-IsAuthentic (parsing signed_document) (host_of signed_document)
      (cli (verify (text "p"))) (text "p") (text "m") refl refl verify_exits

verify_files_example :
    ((exit_code
          (verify_files (parsing signed_document) (host_of signed_document) (text "p" ∷ []) policy)
        ≡ 0)
      ↔ All
          (λ p.
            (exit_code (verify_path (parsing signed_document) (host_of signed_document) p policy)
              ≡ 0)
            ⊎ (exit_code (verify_path (parsing signed_document) (host_of signed_document) p policy)
                ≡ 3))
          (text "p" ∷ []))
    × ((exit_code (
            verify_files (parsing signed_document) (host_of signed_document) (text "p" ∷ []) policy)
          ≡ 0)
        ⊎ (exit_code (
              verify_files
                (parsing signed_document)
                (host_of signed_document)
                (text "p" ∷ [])
                policy)
            ≡ 1))
verify_files_example =
    verify_files_iff (parsing signed_document) (host_of signed_document) (text "p" ∷ []) policy

abbrev boundary_policy : VerifierPolicy
boundary_policy = record policy { trust_chain = some boundary_manifest }

boundary_exits :
    exit_code
      (run_boundary_verify (parsing first) (host_of first) (text "p" ∷ []) none boundary_policy)
    ≡ 0
unfolding boundary_continuation_statement is_observation_method check_kind check_pin
    check_continuation recompute_boundary_canonical_hash boundary_metadata check_methods
    check_evidence check_schema check_canonical_hash boundary_key boundary_authority
    check_authenticity check_signatures verify_boundary_attestation text_eq strip_prefix find_field
    get_field follow find_pointer sum_bytes zeros digest verify_sample print genesis_hash
    strip_hash_prefix strip_base64_prefix verify_message_with_key embedded_signature get_authority
    find_version find_in_authority find_key check_present exit_code run_boundary_verify
    read_documents read_document read_trail boundary_documents attestation_verdict trail_failure
    nanorix_verify.Boundary.check_version
boundary_exits = refl

run_boundary_verify_example :
    (docs : List Json) × (read_documents (parsing first) (host_of first) (text "p" ∷ [])
      ≡ done docs)
    × All
        (λ d. IsAnchored (parsing first) d boundary_policy)
        (sort_by_key (index_of (parsing first)) docs)
run_boundary_verify_example =
    run_boundary_verify-IsAnchored (parsing first) (host_of first) (text "p" ∷ []) none
      boundary_policy boundary_manifest refl boundary_exits
