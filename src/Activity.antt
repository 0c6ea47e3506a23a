-- ===== src/Activity.antt =====
-- tools/nanorix-verify/src/customer_activity.rs: the root over the customer's own activity record.
pub mod Binding
pub mod Tests
use nanorix_verify.Prelude.{
  ℕ, Bool, true, false, ◌&&◌, ◌||◌, Option, none, some, List, [], ◌∷◌, ◌++◌, map, Text, Bytes, text,
  text_eq, leb, is_digit, decimal, is_empty, ◌==◌, if◌then◌else◌, length,
}
use nanorix_verify.Libs.{Libs}
use nanorix_verify.Failure.{
  FailureReason, required_field_missing, field_malformed, unsigned_field_populated,
  customer_declared_activity_root_mismatch,
}
use nanorix_verify.Steps.{genesis_hash, strip_hash_prefix}
use nanorix_verify.Merkle.{verifier_merkle_root}
use nanorix_verify.Receipts.{str_field}
use mathlib.Core.Option

pub data Result (A : Type 0) : Type 0 where
  ok : A → Result A
  err : FailureReason → Result A

-- `CUSTOMER_DECLARED_ACTIVITY_ROOT_FIELD`
abbrev pub root_field : Text
root_field = text "customer_declared_activity_root"

abbrev pub root_malformed_not_a_string : Text
root_malformed_not_a_string = text "expected a JSON string"

abbrev pub root_malformed_empty : Text
root_malformed_empty = text "empty string"

abbrev pub root_malformed_shape : Text
root_malformed_shape = text "expected sha512: followed by 128 lowercase hex characters"

-- `CANONICAL_VIEW_SIGNED_VERSIONS.contains`
unfoldable pub version_signs_activity_root : Text → Bool
version_signs_activity_root v = text_eq v (text "2.1") || text_eq v (text "2.2")

unfoldable pub is_lower_hex : ℕ → Bool
is_lower_hex b = is_digit b || (leb b'a' b && leb b b'f')

unfoldable pub all_lower_hex : Text → Bool
all_lower_hex [] = true
all_lower_hex (b ∷ bs) = is_lower_hex b && all_lower_hex bs

abbrev pub well_formed : Text → Bool
well_formed hex = length hex == 128 && all_lower_hex hex

-- `check_declared_activity_root_shape`, on the value's `as_str`
unfoldable pub check_root_text : Option Text → Result Text
check_root_text none = err (field_malformed root_field root_malformed_not_a_string)
check_root_text (some root) =
    if is_empty root
    then err (field_malformed root_field root_malformed_empty)
    else if well_formed (strip_hash_prefix root)
    then ok root
    else err (field_malformed root_field root_malformed_shape)

-- the segments of `record.split(|b| b == b'\n')`: one more than there are newlines
abbrev cons_segment : ℕ → List Bytes → List Bytes
cons_segment b [] = (b ∷ []) ∷ []
cons_segment b (seg ∷ segs) = (b ∷ seg) ∷ segs

unfoldable pub split_newline : Bytes → List Bytes
split_newline [] = [] ∷ []
split_newline (b ∷ bs) =
    let segs = split_newline bs in if b == 10 then [] ∷ segs else cons_segment b segs

-- drop the last segment if it is empty
unfoldable pub pop_empty_last : List Bytes → List Bytes
pop_empty_last [] = []
pop_empty_last (seg ∷ []) = if is_empty seg then [] else seg ∷ []
pop_empty_last (seg ∷ next ∷ segs) = seg ∷ pop_empty_last (next ∷ segs)

unfoldable pub split_activity_lines : Bytes → List Bytes
split_activity_lines record' = pop_empty_last (split_newline record')

module _ (lib : Libs) where
  open lib use {Value, get, as_str, is_null, sha512, hex_encode}

  -- `proof.get(field).filter(|v| !v.is_null())`
  unfoldable pub non_null : Option Value → Option Value
  non_null none = none
  non_null (some v) = if is_null v then none else some v

  abbrev pub declared_value : Value → Option Value
  declared_value proof = non_null (get proof root_field)

  unfoldable pub declares_activity_root : Value → Bool
  declares_activity_root proof = elim (declared_value proof) [ none ↦ false | some v ↦ true ]

  unfoldable pub check_declared_activity_root_shape : Value → Result Text
  check_declared_activity_root_shape v = check_root_text (as_str v)

  abbrev pub gate : Bool → Option Value → Option FailureReason
  gate signs none = none
  gate signs (some v) =
      if signs
      then elim (check_declared_activity_root_shape v) [ ok root ↦ none | err e ↦ some e ]
      else some (unsigned_field_populated root_field)

  -- `none` is the source's `Ok(())`.
  unfoldable pub gate_declared_activity_root : Value → Text → Option FailureReason
  gate_declared_activity_root proof cdp_version =
      gate (version_signs_activity_root cdp_version) (declared_value proof)

  unfoldable pub customer_declared_activity_leaf_hashes : Bytes → List Text
  customer_declared_activity_leaf_hashes record' =
      map (λ line. hex_encode (sha512 line)) (split_activity_lines record')

  unfoldable pub compute_customer_declared_activity_root : Bytes → Text
  compute_customer_declared_activity_root record' =
      let leaves = customer_declared_activity_leaf_hashes record' in
      let merkle = Option.get_or (verifier_merkle_root lib leaves) genesis_hash in
      text "sha512:" ++ hex_encode (sha512 (merkle ++ (0 ∷ decimal (length leaves))))

  unfoldable pub declared_activity_root : Value → Option Text
  declared_activity_root proof = str_field lib proof root_field

  unfoldable pub compare_root : Text → Text → Result Text
  compare_root claimed computed =
      if text_eq (strip_hash_prefix claimed) (strip_hash_prefix computed)
      then ok computed
      else err (customer_declared_activity_root_mismatch claimed computed)

  abbrev pub check_declared : Option FailureReason → Option Text → Text → Result Text
  check_declared (some e) claimed computed = err e
  check_declared none none computed = err (required_field_missing root_field)
  check_declared none (some claimed) computed = compare_root claimed computed

  unfoldable pub verify_customer_declared_activity : Value → Bytes → Result Text
  verify_customer_declared_activity proof record' =
      check_declared
        (gate_declared_activity_root proof
          (Option.get_or (str_field lib proof (text "cdp_version")) []))
        (declared_activity_root proof) (compute_customer_declared_activity_root record')
