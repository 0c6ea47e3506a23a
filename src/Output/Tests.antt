-- ===== src/Output/Tests.antt =====
-- output_bundle.rs: a manifest, and the theorem on validation on it.
use nanorix_verify.Prelude.{◌≡◌, ◌↔◌, false, none, [], ◌∷◌, text}
use nanorix_verify.Output.{OutputBundleManifest, capsule_computed, validate}
use nanorix_verify.Output.Validity.{IsWellFormed, validate_iff}

abbrev manifest : OutputBundleManifest
manifest = record {
  manifest_version = text "1.0";
  signed = false;
  capsule_id = text "capsule";
  created_at = [];
  destroyed_at = [];
  sink_target = [];
  audit_proof_final_hash = text "sha512:00";
  receipts_merkle_root = none;
  bindings =
      (record {
        work_product_name = text "part";
        work_product_hash = text "sha512:01";
        record_output_hash = text "sha512:01";
        output_hash_origin = capsule_computed;
      })
      ∷ [];
}

validate_iff_example : (validate manifest ≡ none) ↔ IsWellFormed manifest
validate_iff_example = validate_iff manifest
