-- ===== src/Boundary.antt =====
-- tools/nanorix-verify/src/boundary.rs: one boundary attestation, stages 1 to 3. The chain of
-- attestations is in Boundary/Chain.
pub mod Failure
pub mod Chain
pub mod Linked
pub mod Checked
pub mod Valid
pub mod Unordered
pub mod Schema
pub mod Anchored
pub mod Tests
use nanorix_verify.Prelude.{
  ℕ, Bool, true, false, not, ◌||◌, Option, none, some, List, [], ◌∷◌, ◌++◌, Text, text, text_eq,
  is_empty, is_some, if◌then◌else◌, ◌then◌, ◌>>=◌, remove, length, ◌==◌,
}
use nanorix_verify.Libs.{Libs}
use nanorix_verify.Failure.{malformed, does_not_verify}
use nanorix_verify.Steps.{genesis_hash, strip_hash_prefix}
use nanorix_verify.Receipts.{str_field, str_or_empty, activity_root_from}
use nanorix_verify.Manifest.{TrustChainManifest, KeyLookupResult, find_key}
use nanorix_verify.Signature.{
  SignatureCheck, verified, absent, unsupported, failed, non_empty, hash_bytes,
  verify_message_with_key, embedded_signature,
}
use nanorix_verify.Pipeline.Verdict.{VerifierPolicy}
use nanorix_verify.Boundary.Failure.{
  BoundaryFailureReason, BoundaryMetadata, BoundaryVerificationResult, kind_mismatch,
  version_unsupported, required_field_missing, algorithm_unsupported,
  continuation_statement_mismatch, method_vocabulary_violation, canonical_hash_mismatch,
  signature_mismatch, signing_key_version_unknown, authority_revoked, activity_commitment_mismatch,
  activity_event_count_mismatch,
}
use mathlib.Core.Option

-- `BOUNDARY_ATTESTATION_KIND`
abbrev pub boundary_attestation_kind : Text
boundary_attestation_kind = text "boundary_attestation"

-- `BOUNDARY_CONTINUATION_STATEMENT`
unfoldable pub boundary_continuation_statement : Text
boundary_continuation_statement =
    text
      "The capsule remained live at cutoff_ts; this attestation records observations up to that instant and is NOT a destruction claim."

-- `BOUNDARY_OBSERVATION_METHODS.contains(method)`
unfoldable pub is_observation_method : Text → Bool
is_observation_method method =
    text_eq method (text "procfs_observation")
    || text_eq method (text "mountinfo_observation")
    || text_eq method (text "cgroup_v2_observation")

abbrev pub fail : BoundaryFailureReason → ℕ → BoundaryMetadata → BoundaryVerificationResult
fail reason stage m = record {
  valid = false;
  failure_reason = some reason;
  stage_reached = stage;
  signature_checked = false;
  trust_anchored = false;
  metadata = m;
}

-- The valid results: the stage, and the two flags.
abbrev pass : ℕ → Bool → Bool → BoundaryMetadata → BoundaryVerificationResult
pass stage checked anchored m = record {
  valid = true;
  failure_reason = none;
  stage_reached = stage;
  signature_checked = checked;
  trust_anchored = anchored;
  metadata = m;
}

-- A check that fails ends the verification at a stage.
abbrev unless :
    Option BoundaryFailureReason
    → ℕ
    → BoundaryMetadata
    → BoundaryVerificationResult
    → BoundaryVerificationResult
unless none stage m k = k
unless (some reason) stage m k = fail reason stage m

unfoldable pub check_kind : Text → Option BoundaryFailureReason
check_kind kind = if text_eq kind boundary_attestation_kind then none else some (kind_mismatch kind)

-- `BOUNDARY_SUPPORTED_VERSIONS` is `["1.0"]`.
unfoldable pub check_version : Option Text → Option BoundaryFailureReason
check_version none = some (required_field_missing (text "version"))
check_version (some v) = if text_eq v (text "1.0") then none else some (version_unsupported v)

unfoldable pub check_present {ℓ} : {A : Type ℓ} → Text → Option A → Option BoundaryFailureReason
check_present field none = some (required_field_missing field)
check_present field (some a) = none

unfoldable pub check_pin : Text → Text → Text → Option BoundaryFailureReason
check_pin field pinned found =
    if text_eq found pinned then none else some (algorithm_unsupported field found)

unfoldable pub check_continuation : Option Text → Option BoundaryFailureReason
check_continuation none = some continuation_statement_mismatch
check_continuation (some s) =
    if text_eq s boundary_continuation_statement then none else some continuation_statement_mismatch

module _ (lib : Libs) where
  open lib use {Value, get, pointer, as_str, as_array, as_u64, as_object, object_value, jcs_to_vec}

  unfoldable pub recompute_boundary_canonical_hash : Value → Text
  recompute_boundary_canonical_hash doc = elim (as_object doc) [
    | none ↦ []
    | some view ↦ hash_bytes lib (
        jcs_to_vec
          (object_value (remove (text "canonical_hash") (remove (text "attestation") view))))
  ]

  unfoldable pub recompute_activity_commitment : List Value → Text
  recompute_activity_commitment events = activity_root_from lib genesis_hash events

  abbrev pub u64_field : Value → Text → Option ℕ
  u64_field doc field = get doc field >>= as_u64

  unfoldable pub boundary_metadata : Value → BoundaryMetadata
  boundary_metadata doc = record {
    capsule_id = str_field lib doc (text "capsule_id");
    attestation_index = u64_field doc (text "attestation_index");
    cutoff_ts = str_field lib doc (text "cutoff_ts");
    signing_key_version = str_field lib doc (text "signing_key_version");
    key_id = str_field lib doc (text "key_id");
    activity_event_count = u64_field doc (text "activity_event_count");
  }

  abbrev pub method_of : Value → Text
  method_of obs = str_or_empty lib obs (text "method")

  -- the loop over the evidence
  unfoldable pub check_methods : List Value → Option BoundaryFailureReason
  check_methods [] = none
  check_methods (obs ∷ evidence) =
      let later = check_methods evidence in
      if is_observation_method (method_of obs)
      then later
      else some (method_vocabulary_violation (method_of obs))

  unfoldable pub check_evidence : Option (List Value) → Option BoundaryFailureReason
  check_evidence none = some (required_field_missing (text "boundary_evidence"))
  check_evidence (some evidence) = check_methods evidence

  abbrev check_text_field : Value → Text → Option BoundaryFailureReason
  check_text_field doc field = check_present field (str_field lib doc field)

  -- Stage 1.
  unfoldable pub check_schema : Value → Option BoundaryFailureReason
  check_schema doc =
      check_kind (str_or_empty lib doc (text "kind"))
      then check_version (str_field lib doc (text "version"))
      then check_text_field doc (text "capsule_id")
      then check_text_field doc (text "cutoff_ts")
      then check_text_field doc (text "activity_commitment")
      then check_text_field doc (text "prev_attestation_hash")
      then check_text_field doc (text "canonical_hash")
      then check_present (text "attestation_index") (u64_field doc (text "attestation_index"))
      then check_present (text "activity_event_count") (u64_field doc (text "activity_event_count"))
      then check_pin (text "hash_algorithm") (text "sha512")
          (str_or_empty lib doc (text "hash_algorithm"))
      then check_pin (text "signature_algorithm") (text "Ed25519")
          (str_or_empty lib doc (text "signature_algorithm"))
      then check_continuation (str_field lib doc (text "continuation"))
      then check_evidence (get doc (text "boundary_evidence") >>= as_array)

  -- Stage 2.
  unfoldable pub check_canonical_hash : Value → Option BoundaryFailureReason
  check_canonical_hash doc =
      let computed = recompute_boundary_canonical_hash doc in
      let claimed = str_or_empty lib doc (text "canonical_hash") in
      if is_empty computed || not (text_eq computed (strip_hash_prefix claimed))
      then some (canonical_hash_mismatch claimed (text "sha512:" ++ computed))
      else none

  unfoldable pub boundary_key : Value → Option Text
  boundary_key doc = non_empty (pointer doc (text "/attestation/public_key") >>= as_str)

  unfoldable pub boundary_authority : Value → Text
  boundary_authority doc =
      Option.get_or (str_field lib doc (text "authority_id")) (text "us-kms-nanorix-v1")

  -- the two `match`es on the key of the manifest
  abbrev check_lookup :
      BoundaryMetadata → Text → Text → Text → Option KeyLookupResult → BoundaryVerificationResult
  check_lookup m version computed sig none = fail (signing_key_version_unknown version) 3 m
  check_lookup m version computed sig (some l) =
      elim (verify_message_with_key lib computed sig l.key.public_key_b64) [
        | verified ↦
            if l.authority_record.revoked
            then fail authority_revoked 3 m
            else pass 3 true true (record m { signing_key_version = some version })
        | absent ↦ fail (signature_mismatch does_not_verify) 3 m
        | unsupported mode ↦ fail (signature_mismatch does_not_verify) 3 m
        | failed reason ↦ fail (signature_mismatch does_not_verify) 3 m
      ]

  -- authenticity
  unfoldable pub check_authenticity :
      BoundaryMetadata
      → Value
      → Text
      → Text
      → Option TrustChainManifest
      → BoundaryVerificationResult
  check_authenticity m doc computed sig none = pass 3 true false m
  check_authenticity m doc computed sig (some manifest) =
      let version = Option.get_or m.signing_key_version [] in
      check_lookup m version computed sig (find_key manifest (boundary_authority doc) version)

  -- integrity, then authenticity
  unfoldable pub check_signatures :
      BoundaryMetadata
      → Value
      → Option TrustChainManifest
      → Option Text
      → Option Text
      → BoundaryVerificationResult
  check_signatures m doc manifest none key = pass 2 false false m
  check_signatures m doc manifest (some sig) none = pass 2 false false m
  check_signatures m doc manifest (some sig) (some key) =
      let computed = recompute_boundary_canonical_hash doc in
      elim (verify_message_with_key lib computed sig key) [
        | verified ↦ check_authenticity m doc computed sig manifest
        | failed reason ↦ fail (signature_mismatch reason) 3 m
        | absent ↦ fail (signature_mismatch malformed) 3 m
        | unsupported mode ↦ fail (signature_mismatch malformed) 3 m
      ]

  unfoldable pub verify_boundary_attestation : Value → VerifierPolicy → BoundaryVerificationResult
  verify_boundary_attestation doc policy =
      let m = boundary_metadata doc in
      unless (check_schema doc) 1 m (
        unless (check_canonical_hash doc) 2 m (
          check_signatures m doc policy.trust_chain (embedded_signature lib doc)
            (boundary_key doc)))

  -- Stage 5; `none` is a match.
  unfoldable pub verify_disclosed_activity_trail : Value → List Value → Option BoundaryFailureReason
  verify_disclosed_activity_trail doc events =
      let claimed_count = Option.get_or (u64_field doc (text "activity_event_count")) 0 in
      let claimed = str_or_empty lib doc (text "activity_commitment") in
      let computed = recompute_activity_commitment events in
      if claimed_count == length events
      then (if text_eq (strip_hash_prefix claimed) computed
          then none
          else some (activity_commitment_mismatch claimed (text "sha512:" ++ computed)))
      else some (activity_event_count_mismatch claimed_count (length events))
