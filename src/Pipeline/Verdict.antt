-- ===== src/Pipeline/Verdict.antt =====
-- lib.rs: `VerificationResult`, `VerificationMetadata`, `VerifierPolicy`, and the early returns of
-- `verify_auditproof` as a monad.
use nanorix_verify.Prelude.{ℕ, Bool, true, false, Option, none, some, Text, Bytes}
use nanorix_verify.Failure.{FailureReason}
use nanorix_verify.Manifest.{TrustChainManifest}

pub record VerificationMetadata : Type 0 where
  pub cdp_version : Option Text
  pub capsule_id : Option Text
  pub region : Option Text
  pub signing_key_version : Option Text
  pub algorithm : Option Text
  pub step_count : Option ℕ
  pub activity_event_count : Option ℕ
  pub recovered_chain_timestamp : Option Text
  pub unattested_parent_attribution : Option ℕ
  pub customer_declared_activity_root : Option Text
  pub customer_declared_activity_checked : Option Bool

pub record VerificationResult : Type 0 where
  pub valid : Bool
  pub failure_reason : Option FailureReason
  pub stage_reached : ℕ
  pub metadata : VerificationMetadata

pub record VerifierPolicy : Type 0 where
  pub reject_diagnostic : Bool
  pub required_region : Option Text
  pub required_authority_id : Option Text
  pub trust_chain : Option TrustChainManifest
  pub pinned_identity_fingerprint : Option Text
  pub customer_activity : Option Bytes

pub record TrustedAuthority : Type 0 where
  pub authority_id : Text
  pub signing_key_version : Text
  pub public_key_b64 : Text
  pub revoked : Bool

abbrev pub empty_metadata : VerificationMetadata
empty_metadata = record {
  cdp_version = none;
  capsule_id = none;
  region = none;
  signing_key_version = none;
  algorithm = none;
  step_count = none;
  activity_event_count = none;
  recovered_chain_timestamp = none;
  unattested_parent_attribution = none;
  customer_declared_activity_root = none;
  customer_declared_activity_checked = none;
}

abbrev pub reject : VerificationMetadata → ℕ → FailureReason → VerificationResult
reject m stage reason = record {
  valid = false;
  failure_reason = some reason;
  stage_reached = stage;
  metadata = m;
}

abbrev pub accept : VerificationMetadata → ℕ → VerificationResult
accept m stage = record { valid = true; failure_reason = none; stage_reached = stage; metadata = m }

-- An early `return`, or the value with which the function goes on.
pub data Flow (A : Type 0) : Type 0 where
  exit : VerificationResult → Flow A
  next : A → Flow A

infixl 5 ◌>>=◌ ◌>>◌
abbrev pub ◌>>=◌ : {A B : Type 0} → Flow A → (A → Flow B) → Flow B
exit r >>= f = exit r
next a >>= f = f a

abbrev pub ◌>>◌ : {B : Type 0} → Flow (Unit {0}) → Flow B → Flow B
m >> k = m >>= λ _. k

-- `if let Some(failure) = check { return … }`
abbrev pub fail_if : VerificationMetadata → ℕ → Option FailureReason → Flow (Unit {0})
fail_if m stage none = next tt
fail_if m stage (some reason) = exit (reject m stage reason)

-- A required value, and the failure without it.
abbrev pub require : {A : Type 0} → VerificationMetadata → ℕ → FailureReason → Option A → Flow A
require m stage reason none = exit (reject m stage reason)
require m stage reason (some a) = next a

abbrev pub result_of : Flow VerificationResult → VerificationResult
result_of (exit r) = r
result_of (next r) = r
