-- ===== src/Merkle/Total.antt =====
-- lib.rs: the level loop of `verifier_merkle_root` ends, and its fuel does not matter.
use nanorix_verify.Prelude.{
  ℕ, zero, suc, ◌+◌, ◌≤◌, ◌<◌, ◌≡◌, refl, arith, some, List, [], ◌∷◌, map, Text, length, length-map,
}
use nanorix_verify.Libs.{Libs}
use nanorix_verify.Steps.{strip_hash_prefix}
use nanorix_verify.Merkle.{next_level, levels, verifier_merkle_root}

module _ (lib : Libs) where
  -- A level is at most half of the one below, rounded up.
  pub length-next_level :
      (l : List Text) → length (next_level lib l) + length (next_level lib l) ≤ length l + 1
  unfolding next_level
  length-next_level [] = omega arith
  length-next_level (x ∷ []) = omega arith
  length-next_level (x ∷ y ∷ l) = omega (arith, length-next_level l)

  next_level_nonempty : (x : Text) (l : List Text) → 0 < length (next_level lib (x ∷ l))
  unfolding next_level
  next_level_nonempty x [] = omega arith
  next_level_nonempty x (y ∷ l) = omega arith

  pub levels_enough :
      (f g : ℕ) (l : List Text)
      → length l ≤ suc f
      → length l ≤ suc g
      → levels lib f l ≡ levels lib g l
  unfolding levels
  levels_enough f g [] p q = refl
  levels_enough f g (x ∷ []) p q = refl
  levels_enough zero g (x ∷ y ∷ l) p q = absurd (omega arith)
  levels_enough (suc f) zero (x ∷ y ∷ l) p q = absurd (omega arith)
  levels_enough (suc f) (suc g) (x ∷ y ∷ l) p q =
      let h = length-next_level (x ∷ y ∷ l) in
      levels_enough f g (next_level lib (x ∷ y ∷ l)) (omega arith) (omega arith)

  pub levels_total :
      (f : ℕ) (l : List Text)
      → 0 < length l
      → length l ≤ suc f
      → (root : Text) × (levels lib f l ≡ some root)
  unfolding levels
  levels_total f [] h p = elim h [ ]
  levels_total f (x ∷ []) h p = (x, refl)
  levels_total zero (x ∷ y ∷ l) h p = absurd (omega arith)
  levels_total (suc f) (x ∷ y ∷ l) h p =
      let s = length-next_level (x ∷ y ∷ l) in
      levels_total f (next_level lib (x ∷ y ∷ l)) (next_level_nonempty x (y ∷ l)) (omega arith)

  -- `verifier_merkle_root` has a root for every list of leaves but the empty one: the level loop
  -- ends within its fuel.
  pub verifier_merkle_root_total :
      (leaves : List Text)
      → 0 < length leaves
      → (root : Text) × (verifier_merkle_root lib leaves ≡ some root)
  unfolding verifier_merkle_root
  verifier_merkle_root_total leaves h =
      levels_total (length leaves) (map strip_hash_prefix leaves)
        (omega (arith, length-map strip_hash_prefix leaves))
        (omega (arith, length-map strip_hash_prefix leaves))
