-- ===== src/Merkle/Padding.antt =====
-- lib.rs: the Merkle tree that pairs an odd last node with itself does not bind the number of its
-- leaves.
use mathlib.Core.List.{map-append}
use nanorix_verify.Prelude.{
  ℕ, zero, suc, ◌+◌, ◌*◌, ◌≤◌, ◌<◌, ◌≡◌, refl, sym, ap, ◌∙◌, arith, List, [], ◌∷◌, ◌++◌, map, Text,
  length, length-map, length-append,
}
use nanorix_verify.Libs.{Libs}
use nanorix_verify.Steps.{strip_hash_prefix}
use nanorix_verify.Merkle.{verifier_merkle_pair_hash, next_level, levels, verifier_merkle_root}
use nanorix_verify.Merkle.Total.{levels_enough, length-next_level}

module _ (lib : Libs) where
  -- After an even number of nodes a last node and the same node twice give one level.
  next_level_pad :
      (half : ℕ) (l : List Text) (y : Text)
      → length l ≡ 2 * half
      → next_level lib (l ++ y ∷ []) ≡ next_level lib (l ++ y ∷ y ∷ [])
  unfolding next_level
  next_level_pad half [] y e = refl
  next_level_pad half (x ∷ []) y e = absurd (omega arith)
  next_level_pad zero (x ∷ z ∷ l) y e = absurd (omega arith)
  next_level_pad (suc half) (x ∷ z ∷ l) y e =
      ap (λ (t : List Text). verifier_merkle_pair_hash lib x z ∷ t)
        (next_level_pad half l y (omega arith))

  levels_pad :
      (half : ℕ) (x z : Text) (l : List Text) (y : Text) (f g : ℕ)
      → length (x ∷ z ∷ l) ≡ 2 * half
      → length l + 3 ≤ suc (suc f)
      → length l + 4 ≤ suc (suc g)
      → levels lib (suc f) (x ∷ z ∷ l ++ y ∷ []) ≡ levels lib (suc g) (x ∷ z ∷ l ++ y ∷ y ∷ [])
  unfolding levels
  levels_pad half x z l y f g e p q =
      let twice = x ∷ z ∷ (l ++ y ∷ y ∷ []) in
      let n = length-append l (y ∷ y ∷ []) in
      let size = length-next_level lib twice in
      ap (levels lib f) (next_level_pad half (x ∷ z ∷ l) y e)
      ∙ levels_enough lib f g (next_level lib twice) (omega arith) (omega arith)

  map_pad :
      (leaves tail : List Text)
      → map strip_hash_prefix (leaves ++ tail)
        ≡ map strip_hash_prefix leaves ++ map strip_hash_prefix tail
  map_pad leaves tail = map-append strip_hash_prefix leaves tail

  -- Appending the last of an odd number of leaves, three or more, once more leaves the root as it
  -- is: with `leaves` an even number of at least two, the root of `leaves` and `last` is that of
  -- `leaves`, `last` and `last`.
  pub verifier_merkle_root_pad :
      (half : ℕ) (leaves : List Text) (last : Text)
      → length leaves ≡ 2 * half
      → 0 < half
      → verifier_merkle_root lib (leaves ++ last ∷ [])
        ≡ verifier_merkle_root lib (leaves ++ last ∷ last ∷ [])
  unfolding verifier_merkle_root
  verifier_merkle_root_pad half [] last e h = absurd (omega arith)
  verifier_merkle_root_pad half (x ∷ []) last e h = absurd (omega arith)
  verifier_merkle_root_pad half (x ∷ z ∷ l) last e h =
      let s = strip_hash_prefix in
      let a = length-append l (last ∷ []) in
      let b = length-append l (last ∷ last ∷ []) in
      let m = length-map s l in
      ap (λ (t : List Text). levels lib (length (x ∷ z ∷ (l ++ last ∷ []))) (s x ∷ s z ∷ t))
        (map_pad l (last ∷ []))
      ∙ levels_pad half (s x) (s z) (map s l) (s last) (suc (length (l ++ last ∷ [])))
          (suc (length (l ++ last ∷ last ∷ []))) (omega arith) (omega arith) (omega arith)
      ∙ ap
          (λ (t : List Text). levels lib (length (x ∷ z ∷ (l ++ last ∷ last ∷ []))) (s x ∷ s z ∷ t))
          (sym (map_pad l (last ∷ last ∷ [])))
