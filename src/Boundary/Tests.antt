-- ===== src/Boundary/Tests.antt =====
-- boundary.rs: two attestations of one capsule, and the theorems on them.
use nanorix_verify.Prelude.Reordering.{HasDistinctKeys}
use mathlib.Core.List.{Permᴰ}
use nanorix_verify.Boundary.Unordered.{verify_boundary_chain-Permᴰ}
use nanorix_verify.Prelude.{
  ℕ, ◌≡◌, ◌↔◌, refl, true, false, none, some, List, [], ◌∷◌, ◌++◌, Text, text, sort_by_key,
}
use nanorix_verify.Steps.{genesis_hash, strip_hash_prefix, strip_base64_prefix}
use nanorix_verify.Sample.{
  Json, num, str, crates, object, array, zeros, as_u64-bounded, find_field, get_field, follow,
  find_pointer, sum_bytes, digest, verify_sample, print,
}
use nanorix_verify.Manifest.{
  TrustChainManifest, get_authority, find_version, find_in_authority, find_key,
}
use nanorix_verify.Pipeline.Verdict.{VerifierPolicy}
use nanorix_verify.Boundary.{
  check_present, boundary_continuation_statement, recompute_boundary_canonical_hash, check_schema,
  verify_boundary_attestation, is_observation_method, check_kind, check_version, check_pin,
  check_continuation, boundary_metadata, check_methods, check_evidence, check_canonical_hash,
  boundary_key, boundary_authority, check_authenticity, check_signatures,
}
use nanorix_verify.Boundary.Chain.{
  index_of, verify_boundary_chain, verify_documents, check_capsule, check_position, check_cutoff,
  check_link, next_previous, walk_links, expected_capsule, chain_result, verify_ordered,
}
use nanorix_verify.Boundary.Schema.{IsWellFormed, check_schema_iff}
use nanorix_verify.Boundary.Linked.{IsChain}
use nanorix_verify.Boundary.Valid.{
  ReachesOrigin, verify_boundary_chain_iff, genesis_anchored_complete,
}
use nanorix_verify.Boundary.Anchored.{IsAnchored, trust_anchored_iff}
use nanorix_verify.Prelude.Sorting.{insert_by_key}
use nanorix_verify.Prelude.Strings.{text_eq, strip_prefix}
use nanorix_verify.Signature.{verify_message_with_key, embedded_signature}

abbrev body : ℕ → Text → Text → List (Text × Json)
body index cutoff previous =
    (text "kind", str (text "boundary_attestation"))
    ∷ (text "version", str (text "1.0"))
    ∷ (text "capsule_id", str (text "c"))
    ∷ (text "cutoff_ts", str cutoff)
    ∷ (text "activity_commitment", str genesis_hash)
    ∷ (text "activity_event_count", num 0)
    ∷ (text "prev_attestation_hash", str previous)
    ∷ (text "attestation_index", num index)
    ∷ (text "hash_algorithm", str (text "sha512"))
    ∷ (text "signature_algorithm", str (text "Ed25519"))
    ∷ (text "continuation", str boundary_continuation_statement)
    ∷ (
      text "boundary_evidence",
      array (object ((text "method", str (text "procfs_observation")) ∷ []) ∷ []),
    )
    ∷ (text "authority_id", str (text "a"))
    ∷ (text "signing_key_version", str (text "1"))
    ∷ []

-- A document with its hash, signed by the key of zeros.
abbrev attest : List (Text × Json) → Json
attest fields = object (
    fields
    ++ (text "canonical_hash", str (recompute_boundary_canonical_hash crates (object fields)))
      ∷ (
        text "attestation",
        object (
            (text "signature", str (zeros 32 ++ 64 ∷ zeros 31))
            ∷ (text "public_key", str (zeros 32))
            ∷ []),
      )
      ∷ [])

abbrev pub first : Json
first = attest (body 1 (text "a") genesis_hash)

abbrev second : Json
second = attest (body 2 (text "b") (recompute_boundary_canonical_hash crates first))

abbrev pub boundary_manifest : TrustChainManifest
boundary_manifest = record {
  schema_version = [];
  issued_at = [];
  authorities =
      (
        text "a",
        record {
          display_name = [];
          active_versions =
              (record {
                signing_key_version = text "1";
                public_key_b64 = zeros 32;
                public_key_fingerprint = [];
                effective_from = [];
                archived_at = none;
                algorithm = none;
              })
              ∷ [];
          archived_versions = [];
          revoked = false;
        },
      )
      ∷ [];
  identity_fingerprint = [];
  identity_public_key_b64 = [];
  manifest_signature = [];
  pqc_manifest_signature = none;
}

abbrev policy : VerifierPolicy
policy = record {
  reject_diagnostic = true;
  required_region = none;
  required_authority_id = none;
  trust_chain = some boundary_manifest;
  pinned_identity_fingerprint = none;
  customer_activity = none;
}

anchored_example :
    ((verify_boundary_attestation crates first policy).trust_anchored ≡ true)
    ↔ IsAnchored crates first policy
anchored_example = trust_anchored_iff crates first policy

schema_example : (check_schema crates first ≡ none) ↔ IsWellFormed crates first
schema_example = check_schema_iff crates first

chain_example :
    ((verify_boundary_chain crates (second ∷ first ∷ []) policy).valid ≡ true)
    ↔ IsChain crates policy (sort_by_key (index_of crates) (second ∷ first ∷ []))
chain_example = verify_boundary_chain_iff crates as_u64-bounded (second ∷ first ∷ []) policy

genesis_example : ReachesOrigin crates policy (sort_by_key (index_of crates) (second ∷ first ∷ []))
unfolding boundary_continuation_statement is_observation_method check_kind check_version check_pin
    check_continuation recompute_boundary_canonical_hash boundary_metadata check_methods
    check_evidence check_schema check_canonical_hash boundary_key boundary_authority
    check_authenticity check_signatures verify_boundary_attestation index_of verify_documents
    check_capsule check_position check_cutoff check_link next_previous walk_links expected_capsule
    chain_result verify_ordered verify_boundary_chain insert_by_key sort_by_key text_eq strip_prefix
    find_field get_field follow find_pointer sum_bytes zeros digest verify_sample print genesis_hash
    strip_hash_prefix strip_base64_prefix verify_message_with_key embedded_signature get_authority
    find_version find_in_authority find_key check_present
genesis_example = genesis_anchored_complete crates (second ∷ first ∷ []) policy refl refl

distinct : HasDistinctKeys (index_of crates) (second ∷ first ∷ [])
unfolding index_of find_field get_field text_eq
distinct = (((cc), tt), (tt, tt))

unordered_example :
    verify_boundary_chain crates (second ∷ first ∷ []) policy
    ≡ verify_boundary_chain crates (first ∷ second ∷ []) policy
unordered_example =
    verify_boundary_chain-Permᴰ crates (second ∷ first ∷ []) (first ∷ second ∷ []) policy
      (Permᴰ.swap refl refl) distinct
