-- ===== src/Pipeline/Verify.antt =====
-- lib.rs: `verify_auditproof`.
use nanorix_verify.Prelude.{some, List, Text, text, length}
use nanorix_verify.Libs.{Libs}
use nanorix_verify.Failure.{required_field_missing}
use nanorix_verify.Timestamp.{resolve_chain_timestamp}
use nanorix_verify.Receipts.{str_field}
use nanorix_verify.Activity.{gate_declared_activity_root}
use nanorix_verify.Pipeline.Verdict.{
  VerificationMetadata, VerificationResult, VerifierPolicy, TrustedAuthority, empty_metadata, Flow,
  next, ◌>>=◌, ◌>>◌, fail_if, require, result_of,
}
use nanorix_verify.Pipeline.Gates.{
  check_version, check_unsigned_slots, read_metadata, check_authority_pin, check_region_pin,
  check_step_count, count_unattested_parent_attribution,
}
use nanorix_verify.Pipeline.Walk.{
  array_field, check_chain, check_receipts, check_parents, check_streams, check_activity_record,
  check_final_hash, check_algorithm,
}
use nanorix_verify.Pipeline.Anchor.{signature_stages}

module _ (lib : Libs) where
  open lib use {Value, get, as_array}

  -- The count is taken only where the document has the array.
  unfoldable pub with_attribution : Value → VerificationMetadata → VerificationMetadata
  with_attribution json m = record m {
    unattested_parent_attribution = count_unattested_parent_attribution lib json;
  }

  -- Stages 1 to 4: the version and the metadata with which the signature stages begin.
  unfoldable pub verify_checks : Value → VerifierPolicy → Flow (Text × VerificationMetadata)
  verify_checks json policy = do
    version ←
        require empty_metadata 1 (required_field_missing (text "cdp_version"))
          (str_field lib json (text "cdp_version"))
    let m₁ = record empty_metadata { cdp_version = some version }
    fail_if m₁ 2 (check_version version)
    fail_if m₁ 2 (check_unsigned_slots lib json)
    fail_if m₁ 2 (gate_declared_activity_root lib json version)
    let m₂ = read_metadata lib json m₁
    fail_if m₂ 2 (check_authority_pin lib policy json)
    fail_if m₂ 2 (check_region_pin policy m₂.region)
    chain ←
        require m₂ 3 (required_field_missing (text "chain")) (array_field lib json (text "chain"))
    let m₃ = record m₂ { step_count = some (length chain) }
    fail_if m₃ 3 (check_step_count chain)
    let resolved = resolve_chain_timestamp lib json
    let m₄ = record m₃ { recovered_chain_timestamp = resolved.1 }
    fail_if m₄ 3 (check_chain lib json resolved.0 chain)
    fail_if m₄ 3 (check_receipts lib json)
    fail_if m₄ 3 (check_parents lib json)
    let m₅ = with_attribution json m₄
    fail_if m₅ 3 (check_streams lib json)
    m₆ ← check_activity_record lib policy json m₅
    fail_if m₆ 4 (check_final_hash lib json chain)
    fail_if m₆ 4 (check_algorithm lib json)
    next (version, m₆)

  unfoldable pub verify_auditproof :
      Value → List TrustedAuthority → VerifierPolicy → VerificationResult
  verify_auditproof json trust policy = result_of (do
    (version, m) ← verify_checks json policy
    next (signature_stages lib json version policy m))
