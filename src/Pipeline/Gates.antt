-- ===== src/Pipeline/Gates.antt =====
-- lib.rs: the checks of `verify_auditproof` before the chain walk.
use nanorix_verify.Prelude.{
  ℕ, zero, suc, Bool, false, ◌||◌, Option, none, some, List, [], ◌∷◌, Text, text, text_eq, ◌==◌,
  if◌then◌else◌, is_some, ◌>>=◌, length,
}
use nanorix_verify.Libs.{Libs}
use nanorix_verify.Failure.{
  FailureReason, cdp_version_unsupported, unsigned_field_populated, authority_id_mismatch,
  region_mismatch, step_count_invalid, verifier_policy_authority_id_mismatch,
  verifier_policy_demands_customer_hsm_audit_proof_has_none,
}
use nanorix_verify.Steps.{chain_steps}
use nanorix_verify.Receipts.{str_field}
use nanorix_verify.Activity.{non_null}
use nanorix_verify.Signature.{or_else}
use nanorix_verify.Pipeline.Verdict.{VerificationMetadata, VerifierPolicy}
use mathlib.Core.Option

unfoldable pub contains : List Text → Text → Bool
contains [] a = false
contains (x ∷ xs) a = text_eq x a || contains xs a

abbrev pub known_versions : List Text
known_versions = text "1.0" ∷ text "2.0" ∷ text "2.1" ∷ text "2.2" ∷ []

unfoldable pub check_version : Text → Option FailureReason
check_version v = if contains known_versions v then none else some (cdp_version_unsupported v)

-- `UNSIGNED_RESERVED_SLOTS`
abbrev pub unsigned_reserved_slots : List Text
unsigned_reserved_slots =
    text "customer_attestation"
    ∷ text "policy_attestation"
    ∷ text "third_party_attestation"
    ∷ text "retention_policy_attestation"
    ∷ text "witness_signatures"
    ∷ text "pqc_attestation"
    ∷ text "customer_pqc_attestation"
    ∷ []

abbrev pub attribution_fields : List Text
attribution_fields =
    text "parent_key_id"
    ∷ text "parent_signature"
    ∷ text "parent_role"
    ∷ text "parent_jurisdiction"
    ∷ text "parent_organization_tag"
    ∷ []

abbrev pin_authority : Option Text → Option Text → Option FailureReason
pin_authority none claimed = none
pin_authority (some required) none =
    some (
      authority_id_mismatch none required verifier_policy_demands_customer_hsm_audit_proof_has_none)
pin_authority (some required) (some actual) =
    if text_eq actual required
    then none
    else some (authority_id_mismatch (some actual) required verifier_policy_authority_id_mismatch)

abbrev pin_region : Option Text → Text → Option FailureReason
pin_region none actual = none
pin_region (some required) actual =
    if text_eq actual required then none else some (region_mismatch required actual)

unfoldable pub check_region_pin : VerifierPolicy → Option Text → Option FailureReason
check_region_pin policy region = pin_region policy.required_region (Option.get_or region [])

unfoldable pub check_step_count : {A : Type 0} → List A → Option FailureReason
check_step_count chain =
    if length chain == chain_steps
    then none
    else some (step_count_invalid chain_steps (length chain))

module _ (lib : Libs) where
  open lib use {Value, get, pointer, as_str, as_array}

  abbrev pub is_populated : Value → Text → Bool
  is_populated json slot = is_some (non_null lib (get json slot))

  unfoldable pub first_populated : Value → List Text → Option Text
  first_populated json [] = none
  first_populated json (slot ∷ slots) =
      if is_populated json slot then some slot else first_populated json slots

  unfoldable pub populated_unsigned_slot : Value → Option Text
  populated_unsigned_slot json = first_populated json unsigned_reserved_slots

  unfoldable pub check_unsigned_slots : Value → Option FailureReason
  check_unsigned_slots json = Option.map unsigned_field_populated (populated_unsigned_slot json)

  unfoldable pub count_attributed : List Value → ℕ
  count_attributed [] = 0
  count_attributed (p ∷ ps) =
      let rest = count_attributed ps in
      if is_some (first_populated p attribution_fields) then suc rest else rest

  abbrev positive_count : ℕ → Option ℕ
  positive_count zero = none
  positive_count (suc n) = some (suc n)

  unfoldable pub count_unattested_parent_attribution : Value → Option ℕ
  count_unattested_parent_attribution json = do
    parents ← get json (text "parent_proof_hashes") >>= as_array
    positive_count (count_attributed parents)

  -- the first `capsule_started` event
  unfoldable pub find_started : List Value → Option Value
  find_started [] = none
  find_started (e ∷ es) =
      let kind = Option.get_or (str_field lib e (text "event")) [] in
      if text_eq kind (text "capsule_started") then some e else find_started es

  unfoldable pub signed_region : Value → Option Text
  signed_region json = do
    events ← get json (text "activity") >>= as_array
    started ← find_started events
    str_field lib started (text "region")

  unfoldable pub claimed_key_version : Value → Option Text
  claimed_key_version json =
      or_else (pointer json (text "/attestation/signing_key_version"))
        (get json (text "signing_key_version"))
      >>= as_str

  unfoldable pub read_metadata : Value → VerificationMetadata → VerificationMetadata
  read_metadata json m = record m {
    capsule_id = str_field lib json (text "capsule_id");
    region = signed_region json;
    signing_key_version = claimed_key_version json;
    algorithm = pointer json (text "/attestation/algorithm") >>= as_str;
  }

  unfoldable pub check_authority_pin : VerifierPolicy → Value → Option FailureReason
  check_authority_pin policy json =
      pin_authority policy.required_authority_id
        (pointer json (text "/signing_authority/authority_id") >>= as_str)
