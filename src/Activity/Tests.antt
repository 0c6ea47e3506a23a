-- ===== src/Activity/Tests.antt =====
-- customer_activity.rs: a record of two lines, with and without its last newline, against the
-- document that declares its root.
use nanorix_verify.Prelude.{
  ◌≡◌, ◌⊎◌, refl, arith, [], ◌∷◌, ◌++◌, Bytes, text, strip_prefix, text_eq, decimal, is_digit,
}
use nanorix_verify.Libs.{Libs}
use nanorix_verify.Sample.{
  Json, crates, str, object, digest, digest_size, find_field, get_field, follow, find_pointer,
  sum_bytes, zeros,
}
use nanorix_verify.Steps.{strip_hash_prefix}
use nanorix_verify.Checkpoint.Document.{hex, hex_digit}
use nanorix_verify.Checkpoint.Leaves.{hex_inj, length-hex, hex-bare}
use nanorix_verify.Checkpoint.Tests.{digest_bytes}
use nanorix_verify.Checkpoint.Binding.{Collision}
use nanorix_verify.Merkle.Binding.{IsHash}
use nanorix_verify.Merkle.{verifier_merkle_root, levels, next_level, verifier_merkle_pair_hash}
use nanorix_verify.Activity.{
  version_signs_activity_root, is_lower_hex, all_lower_hex, check_root_text, split_newline,
  pop_empty_last, non_null, check_declared_activity_root_shape, gate_declared_activity_root,
  customer_declared_activity_leaf_hashes, declared_activity_root, compare_root, ok,
  split_activity_lines, compute_customer_declared_activity_root, verify_customer_declared_activity,
}
use nanorix_verify.Activity.Binding.{verify_customer_declared_activity_binds}

-- the sample crates, with the digits of checkpoint.rs
abbrev printing : Libs
printing = record crates { hex_encode = hex }

abbrev lines : Bytes
lines = text "a" ++ 10 ∷ text "b"

abbrev lines_ended : Bytes
lines_ended = lines ++ 10 ∷ []

abbrev declaring : Json
declaring = object (
    (text "cdp_version", str (text "2.1"))
    ∷ (
      text "customer_declared_activity_root",
      str (compute_customer_declared_activity_root printing lines),
    )
    ∷ [])

printed : (b : Bytes) → IsHash (hex (digest b))
unfolding strip_hash_prefix
printed b = (
  omega (arith, length-hex (digest b), digest_size b),
  rw (hex-bare (digest b) (digest_bytes b)) refl,
)

accepted :
    verify_customer_declared_activity printing declaring lines
    ≡ ok (compute_customer_declared_activity_root printing lines)
unfolding verify_customer_declared_activity gate_declared_activity_root declared_activity_root
    version_signs_activity_root non_null check_declared_activity_root_shape check_root_text
    all_lower_hex is_lower_hex is_digit compare_root compute_customer_declared_activity_root
    customer_declared_activity_leaf_hashes split_activity_lines split_newline pop_empty_last
    verifier_merkle_root levels next_level verifier_merkle_pair_hash strip_hash_prefix strip_prefix
    find_field get_field follow find_pointer sum_bytes zeros digest hex hex_digit decimal text_eq
accepted = refl

accepted_ended :
    verify_customer_declared_activity printing declaring lines_ended
    ≡ ok (compute_customer_declared_activity_root printing lines_ended)
unfolding verify_customer_declared_activity gate_declared_activity_root declared_activity_root
    version_signs_activity_root non_null check_declared_activity_root_shape check_root_text
    all_lower_hex is_lower_hex is_digit compare_root compute_customer_declared_activity_root
    customer_declared_activity_leaf_hashes split_activity_lines split_newline pop_empty_last
    verifier_merkle_root levels next_level verifier_merkle_pair_hash strip_hash_prefix strip_prefix
    find_field get_field follow find_pointer sum_bytes zeros digest hex hex_digit decimal text_eq
accepted_ended = refl

verify_customer_declared_activity_binds_example :
    (split_activity_lines lines ≡ split_activity_lines lines_ended) ⊎ Collision digest
verify_customer_declared_activity_binds_example =
    verify_customer_declared_activity_binds printing
      (λ x y e. hex_inj (digest x) (digest y) (digest_bytes x) (digest_bytes y) e) printed declaring
      lines lines_ended _ _ accepted accepted_ended
