-- ===== src/Failure.antt =====
-- governance/verify-types/src/lib.rs: the closed set of verification failures.
use nanorix_verify.Prelude.{ℕ, Option, Text}

pub data AuthorityIdMismatchReason : Type 0 where
  verifier_policy_demands_customer_hsm_audit_proof_has_none : AuthorityIdMismatchReason
  verifier_policy_authority_id_mismatch : AuthorityIdMismatchReason

pub data SignatureFailureReason : Type 0 where
  malformed does_not_verify public_key_malformed message_format_mismatch : SignatureFailureReason

pub data FailureReason : Type 0 where
  cdp_version_unsupported : (found : Text) → FailureReason
  required_field_missing : (field : Text) → FailureReason
  step_count_invalid : (expected found : ℕ) → FailureReason
  step_hash_mismatch : (step_idx : ℕ) (subsystem : Text) → FailureReason
  chain_step_identity_mismatch :
      (step_idx : ℕ) (expected_subsystem found_subsystem : Text) → FailureReason
  genesis_hash_mismatch : FailureReason
  final_hash_mismatch : (claimed computed : Text) → FailureReason
  signature_mismatch : (reason : SignatureFailureReason) → FailureReason
  signing_key_version_unknown : (version : Text) → FailureReason
  authority_revoked : FailureReason
  region_mismatch : (required actual : Text) → FailureReason
  diagnostic_proof_refused : FailureReason
  algorithm_unsupported : (found : Text) → FailureReason
  authority_mode_mismatch :
      (claimed_authority_id expected_algorithm : Text) (actual_algorithm : Option Text)
      → FailureReason
  authority_id_mismatch :
      (claimed_authority_id : Option Text) (expected_authority_id : Text)
      (reason : AuthorityIdMismatchReason)
      → FailureReason
  streaming_merkle_root_mismatch : (claimed computed : Text) → FailureReason
  customer_declared_activity_root_mismatch : (claimed computed : Text) → FailureReason
  field_malformed : (field reason : Text) → FailureReason
  unsigned_field_populated : (field : Text) → FailureReason
  reserved : FailureReason
