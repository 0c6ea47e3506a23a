-- ===== src/Pipeline/Accepted.antt =====
-- lib.rs: what a document has passed when `verify_auditproof` calls it valid.
use nanorix_verify.Prelude.{
  ◌↔◌, ◌⊎◌, ◌≡◌, refl, arith, true, false, Option, none, some, List, Text, text, length,
  Option-cases, inl, inr,
}
use mathlib.Core.Option
use nanorix_verify.Libs.{Libs}
use nanorix_verify.Failure.{FailureReason}
use nanorix_verify.Steps.{chain_steps}
use nanorix_verify.Timestamp.{resolve_chain_timestamp}
use nanorix_verify.Receipts.{str_field}
use nanorix_verify.Activity.{
  Result, ok, err, gate_declared_activity_root, verify_customer_declared_activity,
}
use nanorix_verify.Pipeline.Verdict.{
  VerificationMetadata, VerificationResult, VerifierPolicy, TrustedAuthority, empty_metadata, Flow,
  exit, next,
}
use nanorix_verify.Pipeline.Gates.{
  check_version, check_unsigned_slots, check_authority_pin, check_region_pin, check_step_count,
  read_metadata, signed_region,
}
use nanorix_verify.Pipeline.Walk.{
  array_field, check_chain, check_receipts, check_parents, check_streams, check_activity_record,
  check_final_hash, check_algorithm,
}
use nanorix_verify.Pipeline.Anchor.{signature_stages, anchor_to_trust_chain, anchored}
use nanorix_verify.Pipeline.Verify.{verify_checks, verify_auditproof}

Flow-cases :
    {A : Type 0} (f : Flow A) → ((r : VerificationResult) × (f ≡ exit r)) ⊎ ((a : A) × (f ≡ next a))
Flow-cases (exit r) = inl (r, refl)
Flow-cases (next a) = inr (a, refl)

Result-cases :
    {A : Type 0} (r : Result A) → ((a : A) × (r ≡ ok a)) ⊎ ((e : FailureReason) × (r ≡ err e))
Result-cases (ok a) = inl (a, refl)
Result-cases (err e) = inr (e, refl)

-- What the check of an activity record reports, if one is given.
abbrev pub record_failure : Option (Result Text) → Option FailureReason
record_failure none = none
record_failure (some (ok root)) = none
record_failure (some (err failure)) = some failure

module _ (lib : Libs) where
  open lib use {Value, get, as_array}

  -- Every check of the pipeline, in its order, with nothing to report.
  pub record IsAccepted (json : Value) (policy : VerifierPolicy) : Type 0 where
    pub version : Text
    pub chain : List Value
    pub version_field : str_field lib json (text "cdp_version") ≡ some version
    pub version_known : check_version version ≡ none
    pub slots : check_unsigned_slots lib json ≡ none
    pub root_gate : gate_declared_activity_root lib json version ≡ none
    pub authority_pin : check_authority_pin lib policy json ≡ none
    pub region_pin : check_region_pin policy (signed_region lib json) ≡ none
    pub chain_field : array_field lib json (text "chain") ≡ some chain
    pub step_count : length chain ≡ chain_steps
    pub chain_walk : check_chain lib json (resolve_chain_timestamp lib json).0 chain ≡ none
    pub receipts : check_receipts lib json ≡ none
    pub parents : check_parents lib json ≡ none
    pub streams : check_streams lib json ≡ none
    pub activity :
        record_failure
          (Option.map (verify_customer_declared_activity lib json) policy.customer_activity)
        ≡ none
    pub final_hash : check_final_hash lib json chain ≡ none
    pub algorithm : check_algorithm lib json ≡ none
    pub signature : (signature_stages lib json version policy empty_metadata).valid ≡ true

  abbrev pub Checks : Type 0
  Checks = Flow (Text × VerificationMetadata)

  -- An early return of the checks is a rejection.
  pub verify_checks_exit :
      (json : Value) (policy : VerifierPolicy) (r : VerificationResult)
      → verify_checks lib json policy ≡ exit r
      → r.valid ≡ false
  unfolding verify_checks check_activity_record
  verify_checks_exit json policy r h = ground arith

  -- A valid document has passed the checks, and its verdict is that of the signature stages.
  pub valid-checked :
      (json : Value) (trust : List TrustedAuthority) (policy : VerifierPolicy)
      → (verify_auditproof lib json trust policy).valid ≡ true
      → (version : Text) × (m : VerificationMetadata) × (verify_checks lib json policy
          ≡ next (version, m))
        × (verify_auditproof lib json trust policy ≡ signature_stages lib json version policy m)
  unfolding verify_auditproof
  valid-checked json trust policy valid = elim (Flow-cases (verify_checks lib json policy)) [
    | inl (r, e) ↦ absurd (ground (arith, verify_checks_exit json policy r e))
    | inr ((v, m), e) ↦ (v, m, e, rw e)
  ]

  -- The metadata play no part in the signature stages' outcome.
  pub signature_stages_metadata :
      (json : Value) (version : Text) (policy : VerifierPolicy) (m m' : VerificationMetadata)
      → (signature_stages lib json version policy m).valid ≡ true
      → (signature_stages lib json version policy m').valid ≡ true
  unfolding signature_stages anchor_to_trust_chain anchored
  signature_stages_metadata json version policy m m' h = ground arith

  module _ (json : Value) (policy : VerifierPolicy) (version : Text) (m : VerificationMetadata)
      (checked : verify_checks lib json policy ≡ next (version, m)) where
    has_chain : (chain : List Value) × (array_field lib json (text "chain") ≡ some chain)
    unfolding verify_checks
    has_chain = elim (Option-cases (array_field lib json (text "chain"))) [
      | inl missing ↦ absurd (ground arith)
      | inr (c, e) ↦ (c, e)
    ]

    activity_ok :
        record_failure
          (Option.map (verify_customer_declared_activity lib json) policy.customer_activity)
        ≡ none
    unfolding verify_checks check_activity_record
    activity_ok = ground arith

    pub checked-IsAccepted :
        (signature_stages lib json version policy m).valid ≡ true → IsAccepted json policy
    unfolding verify_checks check_step_count read_metadata check_activity_record
    checked-IsAccepted signed =
        let (c, ec) = has_chain in
        record {
          version = version;
          chain = c;
          version_field = ground arith;
          version_known = ground arith;
          slots = ground arith;
          root_gate = ground arith;
          authority_pin = ground arith;
          region_pin = ground arith;
          chain_field = ec;
          step_count = ground arith;
          chain_walk = ground arith;
          receipts = ground arith;
          parents = ground arith;
          streams = ground arith;
          activity = activity_ok;
          final_hash = ground arith;
          algorithm = ground arith;
          signature = signature_stages_metadata json version policy m empty_metadata signed;
        }

  pub verify_auditproof-IsAccepted :
      (json : Value) (trust : List TrustedAuthority) (policy : VerifierPolicy)
      → (verify_auditproof lib json trust policy).valid ≡ true
      → IsAccepted json policy
  verify_auditproof-IsAccepted json trust policy valid =
      let (v, m, checked, same) = valid-checked json trust policy valid in
      checked-IsAccepted json policy v m checked (rw same at valid)

  pub IsAccepted-verify_auditproof :
      (json : Value) (trust : List TrustedAuthority) (policy : VerifierPolicy)
      → IsAccepted json policy
      → (verify_auditproof lib json trust policy).valid ≡ true
  unfolding verify_auditproof verify_checks check_step_count read_metadata check_activity_record
      signature_stages anchor_to_trust_chain anchored
  IsAccepted-verify_auditproof json trust policy a = ground (arith, a.activity)

  -- `verify_auditproof` calls a document valid exactly when every check of the pipeline passes: the
  -- version, the reserved slots, the declared root, the two policy pins, the chain and its length,
  -- the receipts, the parents, the streams, the activity record, the final hash, the algorithm and
  -- the signature stages.
  pub verify_auditproof_iff :
      (json : Value) (trust : List TrustedAuthority) (policy : VerifierPolicy)
      → ((verify_auditproof lib json trust policy).valid ≡ true) ↔ IsAccepted json policy
  verify_auditproof_iff json trust policy = (
    verify_auditproof-IsAccepted json trust policy,
    IsAccepted-verify_auditproof json trust policy,
  )
