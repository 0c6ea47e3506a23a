-- ===== src/Merkle.antt =====
-- tools/nanorix-verify/src/lib.rs: the Merkle tree over receipt and parent hashes, which pairs an
-- odd last node with itself.
pub mod Total
pub mod Padding
pub mod Binding
use nanorix_verify.Prelude.{
  ℕ, zero, suc, Option, none, some, List, [], ◌∷◌, ◌++◌, map, Text, Bytes, length,
}
use nanorix_verify.Libs.{Libs}
use nanorix_verify.Steps.{strip_hash_prefix}

module _ (lib : Libs) where
  open lib use {sha512, hex_encode}

  unfoldable pub verifier_merkle_pair_hash : Text → Text → Text
  verifier_merkle_pair_hash left right =
      hex_encode (sha512 (strip_hash_prefix left ++ (0 ∷ strip_hash_prefix right)))

  -- one round of the `while level.len() > 1` loop
  unfoldable pub next_level : List Text → List Text
  next_level [] = []
  next_level (x ∷ []) = verifier_merkle_pair_hash x x ∷ []
  next_level (x ∷ y ∷ rest) = verifier_merkle_pair_hash x y ∷ next_level rest

  -- The loop and the final `pop`; `none` is an empty level or a lack of fuel.
  unfoldable pub levels : ℕ → List Text → Option Text
  levels fuel [] = none
  levels fuel (x ∷ []) = some x
  levels zero (x ∷ y ∷ rest) = none
  levels (suc fuel) (x ∷ y ∷ rest) = levels fuel (next_level (x ∷ y ∷ rest))

  unfoldable pub verifier_merkle_root : List Text → Option Text
  verifier_merkle_root leaves = levels (length leaves) (map strip_hash_prefix leaves)
