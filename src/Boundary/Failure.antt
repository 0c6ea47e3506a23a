-- ===== src/Boundary/Failure.antt =====
-- tools/nanorix-verify/src/boundary.rs: the closed set of failures of a boundary attestation, and
-- the results of its verification.
use nanorix_verify.Prelude.{ℕ, Bool, Option, List, Text}
use nanorix_verify.Failure.{SignatureFailureReason}

pub data BoundaryFailureReason : Type 0 where
  kind_mismatch : (found : Text) → BoundaryFailureReason
  version_unsupported : (found : Text) → BoundaryFailureReason
  required_field_missing : (field : Text) → BoundaryFailureReason
  algorithm_unsupported : (field found : Text) → BoundaryFailureReason
  continuation_statement_mismatch : BoundaryFailureReason
  method_vocabulary_violation : (found : Text) → BoundaryFailureReason
  canonical_hash_mismatch : (claimed computed : Text) → BoundaryFailureReason
  signature_mismatch : (reason : SignatureFailureReason) → BoundaryFailureReason
  signing_key_version_unknown : (version : Text) → BoundaryFailureReason
  authority_revoked : BoundaryFailureReason
  capsule_id_mismatch : (expected found : Text) → BoundaryFailureReason
  index_not_strictly_incremented : (prev_index index : ℕ) → BoundaryFailureReason
  prev_attestation_hash_mismatch : (index : ℕ) (claimed computed : Text) → BoundaryFailureReason
  genesis_prev_hash_mismatch : (claimed : Text) → BoundaryFailureReason
  cutoff_timestamp_unparseable : (found : Text) → BoundaryFailureReason
  cutoff_not_increasing : (prev_cutoff cutoff : Text) → BoundaryFailureReason
  activity_commitment_mismatch : (claimed computed : Text) → BoundaryFailureReason
  activity_event_count_mismatch : (claimed actual : ℕ) → BoundaryFailureReason

pub record BoundaryMetadata : Type 0 where
  pub capsule_id : Option Text
  pub attestation_index : Option ℕ
  pub cutoff_ts : Option Text
  pub signing_key_version : Option Text
  pub key_id : Option Text
  pub activity_event_count : Option ℕ

pub record BoundaryVerificationResult : Type 0 where
  pub valid : Bool
  pub failure_reason : Option BoundaryFailureReason
  pub stage_reached : ℕ
  pub signature_checked : Bool
  pub trust_anchored : Bool
  pub metadata : BoundaryMetadata

pub record BoundaryChainResult : Type 0 where
  pub valid : Bool
  pub failure_reason : Option BoundaryFailureReason
  pub failed_at_index : Option ℕ
  pub per_document : List BoundaryVerificationResult
  pub chain_span : Option (ℕ × ℕ)
  pub genesis_anchored : Bool
  pub all_signatures_checked : Bool
