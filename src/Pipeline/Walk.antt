-- ===== src/Pipeline/Walk.antt =====
-- lib.rs: the chain walk of `verify_auditproof`, the checks of the sub-structures after it, and the
-- binding of `final_hash`.
use nanorix_verify.Prelude.{
  ℕ, suc, true, false, Option, none, some, List, [], ◌∷◌, Text, text, text_eq, ◌==◌, if◌then◌else◌,
  is_some, get_or, ◌>>=◌,
}
use nanorix_verify.Libs.{Libs}
use nanorix_verify.Failure.{
  FailureReason, step_hash_mismatch, chain_step_identity_mismatch, final_hash_mismatch,
  algorithm_unsupported,
}
use nanorix_verify.Steps.{
  genesis_hash, canonical_chain, compute_step_hash, compute_step_8_amended_verifier,
  strip_hash_prefix,
}
use nanorix_verify.Receipts.{str_field, str_or_empty, verify_record_receipts, verify_parent_proofs}
use nanorix_verify.Streaming.{verify_streaming_merkle_roots}
use nanorix_verify.Activity.{
  Result, ok, err, declared_activity_root, verify_customer_declared_activity,
}
use nanorix_verify.Pipeline.Verdict.{VerificationMetadata, VerifierPolicy, Flow, exit, next, reject}
use mathlib.Core.Option

module _ (lib : Libs) where
  open lib use {Value, get, pointer, as_str, as_array}

  -- The hash that step `idx` must have; the last step takes the two Merkle roots in.
  unfoldable pub canonical_step_hash : Text → Option Text → Option Text → ℕ → Text → Text
  canonical_step_hash timestamp rrmr ppmr idx prev =
      let canonical = get_or canonical_chain idx ([], []) in
      if idx == 7
      then compute_step_8_amended_verifier lib prev timestamp rrmr ppmr
      else compute_step_hash lib prev canonical.0 (text "destroy") canonical.1 timestamp

  -- one step of the loop: its hash, then its label
  unfoldable pub check_step : Text → ℕ → Value → Option FailureReason
  check_step recomputed idx step =
      let expected = (get_or canonical_chain idx ([], [])).0 in
      let declared = str_or_empty lib step (text "subsystem") in
      if text_eq recomputed (strip_hash_prefix (str_or_empty lib step (text "chain_hash")))
      then (if text_eq declared expected
          then none
          else some (chain_step_identity_mismatch idx expected declared))
      else some (step_hash_mismatch idx declared)

  unfoldable pub walk_chain :
      Text → Option Text → Option Text → ℕ → Text → List Value → Option FailureReason
  walk_chain timestamp rrmr ppmr idx prev [] = none
  walk_chain timestamp rrmr ppmr idx prev (step ∷ steps) =
      let recomputed = canonical_step_hash timestamp rrmr ppmr idx prev in
      let rest = walk_chain timestamp rrmr ppmr (suc idx) recomputed steps in
      elim (check_step recomputed idx step) [ some failure ↦ some failure | none ↦ rest ]

  abbrev pub array_field : Value → Text → Option (List Value)
  array_field json field = get json field >>= as_array

  unfoldable pub check_chain : Value → Text → List Value → Option FailureReason
  check_chain json timestamp chain =
      walk_chain timestamp (str_field lib json (text "record_receipts_merkle_root"))
        (str_field lib json (text "parent_proofs_merkle_root")) 0 genesis_hash chain

  unfoldable pub check_receipts : Value → Option FailureReason
  check_receipts json = elim (array_field json (text "record_receipts")) [
    | none ↦ none
    | some receipts ↦
        verify_record_receipts lib receipts (str_or_empty lib json (text "capsule_id"))
          (str_field lib json (text "record_receipts_merkle_root"))
  ]

  unfoldable pub check_parents : Value → Option FailureReason
  check_parents json = elim (array_field json (text "parent_proof_hashes")) [
    | none ↦ none
    | some parents ↦
        verify_parent_proofs lib parents (str_field lib json (text "parent_proofs_merkle_root"))
  ]

  unfoldable pub check_streams : Value → Option FailureReason
  check_streams json = elim (array_field json (text "activity")) [
    | none ↦ none
    | some activity ↦ verify_streaming_merkle_roots lib activity
  ]

  abbrev pub activity_record :
      Option (Result Text) → VerificationMetadata → Flow VerificationMetadata
  activity_record none m = next (record m {
    customer_declared_activity_checked =
        if is_some m.customer_declared_activity_root then some false else none;
  })
  activity_record (some (ok root)) m =
      next (record m { customer_declared_activity_checked = some true })
  activity_record (some (err failure)) m = exit (reject m 3 failure)

  -- Disclose the declared root, and check the record if the policy has one.
  unfoldable pub check_activity_record :
      VerifierPolicy → Value → VerificationMetadata → Flow VerificationMetadata
  check_activity_record policy json m =
      activity_record
        (Option.map (verify_customer_declared_activity lib json) policy.customer_activity)
        (record m { customer_declared_activity_root = declared_activity_root lib json })

  last_or_none : List Value → Option Value
  last_or_none [] = none
  last_or_none (s ∷ []) = some s
  last_or_none (s ∷ t ∷ steps) = last_or_none (t ∷ steps)

  unfoldable pub last_chain_hash : List Value → Text
  unfolding last_or_none
  last_chain_hash chain = elim (last_or_none chain) [
    | none ↦ []
    | some step ↦ str_or_empty lib step (text "chain_hash")
  ]

  unfoldable pub check_final_hash : Value → List Value → Option FailureReason
  check_final_hash json chain =
      let claimed = str_or_empty lib json (text "final_hash") in
      if text_eq (strip_hash_prefix claimed) (strip_hash_prefix (last_chain_hash chain))
      then none
      else some (final_hash_mismatch claimed (last_chain_hash chain))

  -- the first declared algorithm that is not Ed25519
  abbrev other_algorithm : Option Text → Option Text
  other_algorithm none = none
  other_algorithm (some a) = if text_eq a (text "Ed25519") then none else some a

  unfoldable pub declared_non_ed25519_algorithm : Value → Option Text
  declared_non_ed25519_algorithm json =
      let later = other_algorithm (str_field lib json (text "signature_algorithm")) in
      elim (other_algorithm (pointer json (text "/attestation/algorithm") >>= as_str)) [
        | some a ↦ some a
        | none ↦ later
      ]

  unfoldable pub check_algorithm : Value → Option FailureReason
  check_algorithm json = Option.map algorithm_unsupported (declared_non_ed25519_algorithm json)
