-- ===== src/Output/Validity.antt =====
-- output_bundle.rs: which manifests `validate` accepts.
use nanorix_verify.Prelude.{
  All, ℕ, suc, ◌≡◌, ◌≢◌, ◌↔◌, refl, arith, false, Option, none, some, List, [], ◌∷◌, ◌++◌, Text,
  text, strip_prefix, strip_prefix-append, strip_prefix-eq_some, Option-cases, inl, inr,
}
use nanorix_verify.Output.{
  OutputBinding, OutputBundleManifest, require_sha512, binding_field, check_bindings, check_root,
  require_bindings, validate,
}

-- A hash with its algorithm in front.
abbrev pub IsPrefixed : Text → Type 0
IsPrefixed h = (digits : Text) × (h ≡ text "sha512:" ++ digits)

abbrev pub IsRootPrefixed : Option Text → Type 0
IsRootPrefixed none = Unit
IsRootPrefixed (some root) = IsPrefixed root

abbrev pub IsBindingPrefixed : OutputBinding → Type 0
IsBindingPrefixed b = IsPrefixed b.work_product_hash × IsPrefixed b.record_output_hash

-- The structure that the documentation asks of a manifest.
pub record IsWellFormed (m : OutputBundleManifest) : Type 0 where
  pub unsigned : m.signed ≡ false
  pub bound : m.bindings ≢ []
  pub final_hash : IsPrefixed m.audit_proof_final_hash
  pub root : IsRootPrefixed m.receipts_merkle_root
  pub hashes : All IsBindingPrefixed m.bindings

require_sha512-none : (field value : Text) → require_sha512 field value ≡ none → IsPrefixed value
unfolding require_sha512
require_sha512-none field value h = elim (Option-cases (strip_prefix (text "sha512:") value)) [
  | inl missing ↦ absurd (ground arith)
  | inr (digits, e) ↦ (digits, strip_prefix-eq_some (text "sha512:") value digits e)
]

require_sha512-IsPrefixed :
    (field value : Text) → IsPrefixed value → require_sha512 field value ≡ none
unfolding require_sha512
require_sha512-IsPrefixed field value (digits, e) =
    rw (e, strip_prefix-append (text "sha512:") digits) refl

check_bindings-none :
    (i : ℕ) (bs : List OutputBinding) → check_bindings i bs ≡ none → All IsBindingPrefixed bs
unfolding check_bindings
check_bindings-none i [] h = tt
check_bindings-none i (b ∷ bs) h = (
  (
    require_sha512-none (binding_field i (text "work_product_hash")) b.work_product_hash
        (ground arith),
    require_sha512-none (binding_field i (text "record_output_hash")) b.record_output_hash
        (ground arith),
  ),
  check_bindings-none (suc i) bs (ground arith),
)

check_bindings-All :
    (i : ℕ) (bs : List OutputBinding) → All IsBindingPrefixed bs → check_bindings i bs ≡ none
unfolding check_bindings
check_bindings-All i [] h = refl
check_bindings-All i (b ∷ bs) ((p, q), rest) =
    rw
      (
        require_sha512-IsPrefixed (binding_field i (text "work_product_hash")) b.work_product_hash
            p,
        require_sha512-IsPrefixed (binding_field i (text "record_output_hash")) b.record_output_hash
            q,
      )
      (check_bindings-All (suc i) bs rest)

check_root-none : (r : Option Text) → check_root r ≡ none → IsRootPrefixed r
check_root-none none h = tt
check_root-none (some root) h = require_sha512-none _ root h

check_root-IsRootPrefixed : (r : Option Text) → IsRootPrefixed r → check_root r ≡ none
check_root-IsRootPrefixed none h = refl
check_root-IsRootPrefixed (some root) h = require_sha512-IsPrefixed _ root h

require_bindings-none : (bs : List OutputBinding) → require_bindings bs ≡ none → bs ≢ []
require_bindings-none [] h = absurd (ground arith)
require_bindings-none (b ∷ bs) h = cc

require_bindings-nonempty : (bs : List OutputBinding) → bs ≢ [] → require_bindings bs ≡ none
require_bindings-nonempty [] h = absurd (h refl)
require_bindings-nonempty (b ∷ bs) h = refl

-- `validate` accepts exactly the manifests that are marked unsigned, bind at least one receipt, and
-- have every hash in the `sha512:` form.
pub validate_iff : (m : OutputBundleManifest) → (validate m ≡ none) ↔ IsWellFormed m
unfolding validate
validate_iff m = (
  λ h. record {
    unsigned = ground arith;
    bound = require_bindings-none m.bindings (ground arith);
    final_hash =
        require_sha512-none (text "audit_proof_final_hash") m.audit_proof_final_hash (ground arith);
    root = check_root-none m.receipts_merkle_root (ground arith);
    hashes = check_bindings-none 0 m.bindings (ground arith);
  },
  λ w.
      rw
        (
          w.unsigned,
          require_bindings-nonempty m.bindings w.bound,
          require_sha512-IsPrefixed (text "audit_proof_final_hash") m.audit_proof_final_hash
              w.final_hash,
          check_root-IsRootPrefixed m.receipts_merkle_root w.root,
          check_bindings-All 0 m.bindings w.hashes,
        )
        refl,
)
