-- ===== src/Steps.antt =====
-- tools/nanorix-verify/src/lib.rs: the canonical eight steps and the hash of one step.
use nanorix_verify.Prelude.{
  ℕ, Option, none, some, List, [], ◌∷◌, ◌++◌, Text, text, text_eq, strip_prefix, if◌then◌else◌,
}
use nanorix_verify.Libs.{Libs}
use mathlib.Core.Option

-- `NANORIX_GENESIS_HASH`: SHA-512 of the empty input.
unfoldable pub genesis_hash : Text
genesis_hash =
    text
      "cf83e1357eefb8bdf1542850d66d8007d620e4050b5715dc83f4a921d36ce9ce47d0d13c5d85f2b0ff8318d2877eec2f63b931bd47417a81a538327af927da3e"

-- `NANORIX_CHAIN_STEPS`
abbrev pub chain_steps : ℕ
chain_steps = 8

-- `CANONICAL_CHAIN`: subsystem and method by position.
unfoldable pub canonical_chain : List (Text × Text)
canonical_chain =
    (text "eee_namespace", text "procfs_verification")
    ∷ (text "eee_tmpfs", text "mountinfo_verification")
    ∷ (text "eee_memory", text "dod_5220_multipass_wipe")
    ∷ (text "dire_keys", text "ed25519_key_destruction")
    ∷ (text "dire_identity", text "credential_incineration")
    ∷ (text "fgx_forensic", text "merkle_tree_verification")
    ∷ (text "rzl_audit", text "hash_chain_validation")
    ∷ (text "capsule_destroy", text "capsule_lifecycle_verification")
    ∷ []

unfoldable pub lookup_method : Text → Text
lookup_method subsystem =
    if text_eq subsystem (text "eee_namespace")
    then text "procfs_verification"
    else if text_eq subsystem (text "eee_tmpfs")
    then text "mountinfo_verification"
    else if text_eq subsystem (text "eee_memory")
    then text "dod_5220_multipass_wipe"
    else if text_eq subsystem (text "dire_keys")
    then text "ed25519_key_destruction"
    else if text_eq subsystem (text "dire_identity")
    then text "credential_incineration"
    else if text_eq subsystem (text "fgx_forensic")
    then text "merkle_tree_verification"
    else if text_eq subsystem (text "rzl_audit")
    then text "hash_chain_validation"
    else if text_eq subsystem (text "capsule_destroy")
    then text "capsule_lifecycle_verification"
    else []

unfoldable pub strip_hash_prefix : Text → Text
strip_hash_prefix s = Option.get_or (strip_prefix (text "sha512:") s) s

unfoldable pub strip_base64_prefix : Text → Text
strip_base64_prefix s = Option.get_or (strip_prefix (text "base64:") s) s

module _ (lib : Libs) where
  open lib use {sha512, hex_encode}

  unfoldable pub compute_step_hash : Text → Text → Text → Text → Text → Text
  compute_step_hash prev_hash subsystem action method timestamp = hex_encode (
      sha512
        (prev_hash ++ (0 ∷ (subsystem ++ (0 ∷ (action ++ (0 ∷ (method ++ (0 ∷ timestamp)))))))))

  -- The `match` on the two roots.
  unfoldable pub amend_step_8 : Text → Option Text → Option Text → Text
  amend_step_8 base none none = base
  amend_step_8 base (some rr) none = hex_encode (sha512 (base ++ (0 ∷ strip_hash_prefix rr)))
  amend_step_8 base none (some pp) = hex_encode (sha512 (base ++ (0 ∷ strip_hash_prefix pp)))
  amend_step_8 base (some rr) (some pp) =
      hex_encode (sha512 (base ++ (0 ∷ (strip_hash_prefix rr ++ (0 ∷ strip_hash_prefix pp)))))

  unfoldable pub compute_step_8_amended_verifier : Text → Text → Option Text → Option Text → Text
  compute_step_8_amended_verifier prev_hash timestamp rrmr ppmr =
      amend_step_8
        (compute_step_hash prev_hash (text "capsule_destroy") (text "destroy")
          (text "capsule_lifecycle_verification") timestamp)
        rrmr ppmr
