-- ===== src/Output.antt =====
-- governance/verify-types/src/output_bundle.rs: the unsigned manifest of an output bundle and its
-- structural validation.
pub mod Validity
pub mod Tests
use nanorix_verify.Prelude.{
  ℕ, suc, Bool, true, false, Option, none, some, List, [], ◌∷◌, ◌++◌, Text, text, strip_prefix,
  decimal, is_some, if◌then◌else◌, ◌then◌,
}

pub data OutputHashOrigin : Type 0 where
  capsule_computed customer_declared : OutputHashOrigin

pub record OutputBinding : Type 0 where
  pub work_product_name : Text
  pub work_product_hash : Text
  pub record_output_hash : Text
  pub output_hash_origin : OutputHashOrigin

pub record OutputBundleManifest : Type 0 where
  pub manifest_version : Text
  pub signed : Bool
  pub capsule_id : Text
  pub created_at : Text
  pub destroyed_at : Text
  pub sink_target : Text
  pub audit_proof_final_hash : Text
  pub receipts_merkle_root : Option Text
  pub bindings : List OutputBinding

pub data OutputBundleError : Type 0 where
  no_bindings : OutputBundleError
  unprefixed_hash : (field value : Text) → OutputBundleError
  signed_marker_tampered : OutputBundleError

-- `none` is the source's `Ok(())`, here and below.
unfoldable pub require_sha512 : Text → Text → Option OutputBundleError
require_sha512 field value =
    if is_some (strip_prefix (text "sha512:") value)
    then none
    else some (unprefixed_hash field value)

abbrev pub binding_field : ℕ → Text → Text
binding_field i name = text "bindings[" ++ (decimal i ++ (text "]." ++ name))

-- the loop over the bindings, from position `i` on
unfoldable pub check_bindings : ℕ → List OutputBinding → Option OutputBundleError
check_bindings i [] = none
check_bindings i (b ∷ bs) =
    let rest = check_bindings (suc i) bs in
    require_sha512 (binding_field i (text "work_product_hash")) b.work_product_hash
    then require_sha512 (binding_field i (text "record_output_hash")) b.record_output_hash
    then rest

abbrev pub check_root : Option Text → Option OutputBundleError
check_root none = none
check_root (some root) = require_sha512 (text "receipts_merkle_root") root

abbrev pub require_bindings : List OutputBinding → Option OutputBundleError
require_bindings [] = some no_bindings
require_bindings (b ∷ bs) = none

unfoldable pub validate : OutputBundleManifest → Option OutputBundleError
validate m =
    (if m.signed then some signed_marker_tampered else none)
    then require_bindings m.bindings
    then require_sha512 (text "audit_proof_final_hash") m.audit_proof_final_hash
    then check_root m.receipts_merkle_root
    then check_bindings 0 m.bindings
