-- ===== src/Receipts.antt =====
-- tools/nanorix-verify/src/lib.rs: the sets of record receipts and of parent proofs, each under a
-- Merkle root.
pub mod Sets
pub mod Tests
use nanorix_verify.Prelude.{
  ℕ, zero, suc, ◌+◌, ◌%◌, ◌^◌, Option, none, some, List, [], ◌∷◌, ◌++◌, map, Text, Bytes, text,
  text_eq, decimal, if◌then◌else◌, ◌>>=◌,
}
use nanorix_verify.Libs.{Libs}
use nanorix_verify.Failure.{
  FailureReason, required_field_missing, step_hash_mismatch, final_hash_mismatch,
}
use nanorix_verify.Steps.{genesis_hash, strip_hash_prefix}
use nanorix_verify.Merkle.{verifier_merkle_root}
use mathlib.Core.Option

abbrev tag_segment : Option Text → Bytes
tag_segment none = []
tag_segment (some tag) = 0 ∷ tag

-- What the loop over the receipts returns or collects.
pub data Recomputed : Type 0 where
  mismatch : FailureReason → Recomputed
  leaves : List Text → Recomputed

abbrev pub prepend : Text → Recomputed → Recomputed
prepend h (mismatch e) = mismatch e
prepend h (leaves hs) = leaves (h ∷ hs)

module _ (lib : Libs) where
  open lib use {Value, get, as_str, as_array, as_u64, jcs_to_vec, json_to_vec, sha512, hex_encode}

  -- `v.get(field).and_then(as_str)`
  abbrev pub str_field : Value → Text → Option Text
  str_field v field = get v field >>= as_str

  abbrev pub str_or_empty : Value → Text → Text
  str_or_empty v field = Option.get_or (str_field v field) []

  unfoldable pub verifier_compute_record_chain_hash :
      Text → ℕ → Text → Text → Text → Text → Option Text → Text
  verifier_compute_record_chain_hash capsule_id record_index record_id input output activity tag =
      hex_encode (
        sha512 (
          capsule_id
          ++ (0
              ∷ (decimal record_index
                  ++ (0
                      ∷ (record_id
                          ++ (0
                              ∷ (strip_hash_prefix input
                                  ++ (0
                                      ∷ (strip_hash_prefix output
                                          ++ (0
                                              ∷ (strip_hash_prefix activity
                                                  ++ tag_segment tag))))))))))))

  unfoldable pub serde_jcs_or_json_bytes : Value → Bytes
  serde_jcs_or_json_bytes v = Option.get_or (jcs_to_vec v) (Option.get_or (json_to_vec v) [])

  -- the fold over `record_activity_trail`
  unfoldable pub activity_root_from : Text → List Value → Text
  activity_root_from prev [] = prev
  activity_root_from prev (event ∷ trail) =
      activity_root_from
        (hex_encode (sha512 (prev ++ (0 ∷ hex_encode (sha512 (serde_jcs_or_json_bytes event))))))
        trail

  abbrev activity_root : Option (List Value) → Text
  activity_root none = genesis_hash
  activity_root (some trail) = activity_root_from genesis_hash trail

  -- The chain hash that the fields of a receipt give; `as u32` keeps the index modulo 2 ^ 32.
  unfoldable pub receipt_chain_hash : Text → Value → Text
  receipt_chain_hash capsule_id receipt =
      verifier_compute_record_chain_hash capsule_id
        (Option.get_or (get receipt (text "record_index") >>= as_u64) 0 % 2 ^ 32)
        (str_or_empty receipt (text "record_id")) (str_or_empty receipt (text "record_input_hash"))
        (str_or_empty receipt (text "record_output_hash"))
        (activity_root (get receipt (text "record_activity_trail") >>= as_array))
        (str_field receipt (text "pattern_tag"))

  -- the loop over the receipts, from position `i` on
  unfoldable pub recompute_receipts : Text → ℕ → List Value → Recomputed
  recompute_receipts capsule_id i [] = leaves []
  recompute_receipts capsule_id i (receipt ∷ receipts) =
      let rest = recompute_receipts capsule_id (suc i) receipts in
      let recomputed = receipt_chain_hash capsule_id receipt in
      if text_eq recomputed (strip_hash_prefix (str_or_empty receipt (text "record_chain_hash")))
      then prepend recomputed rest
      else mismatch (step_hash_mismatch i (text "record_receipt[" ++ (decimal i ++ text "]")))

  -- Compare the root of the leaves with the claimed one.
  unfoldable pub check_root : Text → List Text → Option FailureReason
  check_root claimed hashes =
      let computed = Option.get_or (verifier_merkle_root lib hashes) [] in
      if text_eq computed (strip_hash_prefix claimed)
      then none
      else some (final_hash_mismatch claimed (text "sha512:" ++ computed))

  abbrev pub check_recomputed : Text → Recomputed → Option FailureReason
  check_recomputed claimed (mismatch e) = some e
  check_recomputed claimed (leaves hashes) = check_root claimed hashes

  unfoldable pub verify_record_receipts : List Value → Text → Option Text → Option FailureReason
  verify_record_receipts receipts capsule_id (some claimed) =
      check_recomputed claimed (recompute_receipts capsule_id 0 receipts)
  verify_record_receipts [] capsule_id none = none
  verify_record_receipts (r ∷ receipts) capsule_id none =
      some (required_field_missing (text "record_receipts_merkle_root"))

  unfoldable pub parent_leaf : Value → Text
  parent_leaf p = str_or_empty p (text "parent_chain_hash")

  unfoldable pub verify_parent_proofs : List Value → Option Text → Option FailureReason
  verify_parent_proofs parents (some claimed) = check_root claimed (map parent_leaf parents)
  verify_parent_proofs [] none = none
  verify_parent_proofs (p ∷ parents) none =
      some (required_field_missing (text "parent_proofs_merkle_root"))
