-- ===== src/Command/Reason.antt =====
-- tools/nanorix-verify/src/main.rs: the words for a failure, `format_reason`.
use nanorix_verify.Prelude.{◌∷◌, ◌++◌, Text, text, decimal}
use nanorix_verify.Failure.{
  FailureReason, SignatureFailureReason, AuthorityIdMismatchReason, cdp_version_unsupported,
  required_field_missing, step_count_invalid, step_hash_mismatch, chain_step_identity_mismatch,
  genesis_hash_mismatch, final_hash_mismatch, signature_mismatch, signing_key_version_unknown,
  authority_revoked, region_mismatch, diagnostic_proof_refused, algorithm_unsupported,
  authority_mode_mismatch, authority_id_mismatch, streaming_merkle_root_mismatch,
  customer_declared_activity_root_mismatch, field_malformed, unsigned_field_populated, reserved,
  malformed, does_not_verify, public_key_malformed, message_format_mismatch,
  verifier_policy_demands_customer_hsm_audit_proof_has_none, verifier_policy_authority_id_mismatch,
}
use mathlib.Core.Option

-- the derived `Debug`
abbrev debug : SignatureFailureReason → Text
debug malformed = text "Malformed"
debug does_not_verify = text "DoesNotVerify"
debug public_key_malformed = text "PublicKeyMalformed"
debug message_format_mismatch = text "MessageFormatMismatch"

abbrev sub_reason : AuthorityIdMismatchReason → Text
sub_reason verifier_policy_demands_customer_hsm_audit_proof_has_none =
    text "verifier_policy_demands_customer_hsm_audit_proof_has_none"
sub_reason verifier_policy_authority_id_mismatch = text "verifier_policy_authority_id_mismatch"

-- with the dash's UTF-8 bytes
abbrev no_authority : Text
no_authority = text "<none " ++ 226 ∷ 128 ∷ 148 ∷ text " AuditProof omits signing_authority>"

unfoldable pub format_reason : FailureReason → Text
format_reason (cdp_version_unsupported found) =
    text "cdp_version_unsupported (found: " ++ (found ++ text ")")
format_reason (required_field_missing field) =
    text "required_field_missing (field: " ++ (field ++ text ")")
format_reason (step_count_invalid expected found) =
    text "step_count_invalid (expected: "
    ++ (decimal expected ++ (text ", found: " ++ (decimal found ++ text ")")))
format_reason (step_hash_mismatch step_idx subsystem) =
    text "step_hash_mismatch (step "
    ++ (decimal step_idx ++ (text ", subsystem: " ++ (subsystem ++ text ")")))
format_reason (chain_step_identity_mismatch step_idx expected found) =
    text "chain_step_identity_mismatch (step "
    ++ (decimal step_idx
        ++ (text ", expected: " ++ (expected ++ (text ", found: " ++ (found ++ text ")")))))
format_reason genesis_hash_mismatch = text "genesis_hash_mismatch"
format_reason (final_hash_mismatch claimed computed) = text "final_hash_mismatch"
format_reason (signature_mismatch reason) =
    text "signature_mismatch (" ++ (debug reason ++ text ")")
format_reason (signing_key_version_unknown version) =
    text "signing_key_version_unknown (version: " ++ (version ++ text ")")
format_reason authority_revoked = text "authority_revoked"
format_reason (region_mismatch required actual) =
    text "region_mismatch (required: " ++ (required ++ (text ", actual: " ++ (actual ++ text ")")))
format_reason diagnostic_proof_refused = text "diagnostic_proof_refused"
format_reason (algorithm_unsupported found) =
    text "algorithm_unsupported (found: " ++ (found ++ text ")")
format_reason (authority_mode_mismatch claimed expected actual) =
    text "authority_mode_mismatch (authority_id: "
    ++ (claimed
        ++ (text ", expected: "
            ++ (expected
                ++ (text ", actual: "
                    ++ (Option.get_or actual (text "<unregistered>") ++ text ")")))))
format_reason (authority_id_mismatch claimed expected reason) =
    text "authority_id_mismatch (claimed: "
    ++ (Option.get_or claimed no_authority
        ++ (text ", expected: "
            ++ (expected ++ (text ", reason: " ++ (sub_reason reason ++ text ")")))))
format_reason (streaming_merkle_root_mismatch claimed computed) =
    text "streaming_merkle_root_mismatch (claimed: "
    ++ (claimed ++ (text ", computed: " ++ (computed ++ text ")")))
format_reason (customer_declared_activity_root_mismatch claimed computed) =
    text "customer_declared_activity_root_mismatch (claimed: "
    ++ (claimed ++ (text ", computed: " ++ (computed ++ text ")")))
format_reason (field_malformed field reason) =
    text "field_malformed (field: " ++ (field ++ (text ", reason: " ++ (reason ++ text ")")))
format_reason (unsigned_field_populated field) =
    text "unsigned_field_populated (field: " ++ (field ++ text ")")
format_reason reserved = text "reserved"
