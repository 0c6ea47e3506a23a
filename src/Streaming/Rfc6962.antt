-- ===== src/Streaming/Rfc6962.antt =====
-- streaming_merkle.rs: the tree that promotes an odd tail node is the tree that splits at the
-- largest power of two.
use nanorix_verify.Prelude.{
  ℕ, zero, suc, ◌+◌, ◌*◌, ◌/◌, ◌≤◌, ◌<◌, ◌≡◌, refl, sym, ap, ◌∙◌, arith, some, List, [], ◌∷◌, ◌++◌,
  map, Bytes, length, take, drop, length-map, length-take_le, take-append-drop, ◌^◌,
}
use nanorix_verify.Libs.{Libs}
use nanorix_verify.Checkpoint.{split_point, node_hash, merkle_root}
use nanorix_verify.Checkpoint.Split.{pow_double, split_point_lem}
use nanorix_verify.Checkpoint.Root.{split_bounds, length-halves, merkle_root-split, merkle_root-one}
use nanorix_verify.Checkpoint.Climb.{split_point-pow}
use nanorix_verify.Streaming.{
  leaf_hash, inner_hash, promote_level, root_level, merkle_root_from_leaves, encode_root,
}
use mathlib.Core.Path.{ap₂}

module _ {ℓ} {A : Type ℓ} where
  take_append : (n : ℕ) (xs ys : List A) → length xs ≡ n → take n (xs ++ ys) ≡ xs
  take_append zero [] ys e = refl
  take_append (suc n) [] ys e = absurd (omega arith)
  take_append zero (x ∷ xs) ys e = absurd (omega arith)
  take_append (suc n) (x ∷ xs) ys e = ap (λ (t : List A). x ∷ t) (take_append n xs ys (omega arith))

  drop_append : (n : ℕ) (xs ys : List A) → length xs ≡ n → drop n (xs ++ ys) ≡ ys
  drop_append zero [] ys e = refl
  drop_append (suc n) [] ys e = absurd (omega arith)
  drop_append zero (x ∷ xs) ys e = absurd (omega arith)
  drop_append (suc n) (x ∷ xs) ys e = drop_append n xs ys (omega arith)

-- The split of the pairs is half the split.
split_point-half :
    (n : ℕ) → 3 ≤ n → (d : ℕ) × (split_point n ≡ 2 * 2 ^ d) × (split_point ((n + 1) / 2) ≡ 2 ^ d)
split_point-half n h = from_lem (split_point_lem n (omega arith))
  where
    from_lem :
        (e : ℕ) × (split_point n ≡ 2 ^ e) × (2 ^ e < n) × (n ≤ 2 * 2 ^ e)
        → (d : ℕ) × (split_point n ≡ 2 * 2 ^ d) × (split_point ((n + 1) / 2) ≡ 2 ^ d)
    from_lem (zero, s, lo, hi) = absurd (omega arith)
    from_lem (suc d, s, lo, hi) =
        let p = pow_double d in
        (d, s ∙ p, split_point-pow ((n + 1) / 2) d (omega arith) (omega arith))

module _ (lib : Libs) where
  open lib use {sha512, hex_encode}

  length-promote_level : (l : List Bytes) → length (promote_level lib l) ≡ (length l + 1) / 2
  unfolding promote_level
  length-promote_level [] = omega arith
  length-promote_level (x ∷ []) = omega arith
  length-promote_level (x ∷ y ∷ l) = omega (arith, length-promote_level l)

  promote_level-append :
      (half : ℕ) (xs ys : List Bytes)
      → length xs ≡ 2 * half
      → promote_level lib (xs ++ ys) ≡ promote_level lib xs ++ promote_level lib ys
  unfolding promote_level
  promote_level-append half [] ys e = refl
  promote_level-append half (x ∷ []) ys e = absurd (omega arith)
  promote_level-append zero (x ∷ y ∷ xs) ys e = absurd (omega arith)
  promote_level-append (suc half) (x ∷ y ∷ xs) ys e =
      ap (λ (t : List Bytes). inner_hash lib x y ∷ t)
        (promote_level-append half xs ys (omega arith))

  -- Promotion commutes with an even split.
  promote_level-halves :
      (d : ℕ) (l : List Bytes)
      → 2 * 2 ^ d ≤ length l
      → (take (2 ^ d) (promote_level lib l) ≡ promote_level lib (take (2 * 2 ^ d) l))
        × (drop (2 ^ d) (promote_level lib l) ≡ promote_level lib (drop (2 * 2 ^ d) l))
  promote_level-halves d l h =
      let k = 2 * 2 ^ d in
      let size = length-take_le k l h in
      let halves = promote_level-append (2 ^ d) (take k l) (drop k l) size in
      let whole : promote_level lib l
          ≡ promote_level lib (take k l) ++ promote_level lib (drop k l) =
        ap (promote_level lib) (sym (take-append-drop k l)) ∙ halves in
      let n : length (promote_level lib (take k l)) ≡ 2 ^ d =
        omega (arith, length-promote_level (take k l)) in
      (
        ap (take (2 ^ d)) whole ∙ take_append (2 ^ d) _ _ n,
        ap (drop (2 ^ d)) whole ∙ drop_append (2 ^ d) _ _ n,
      )

  node_hash-inner_hash : (x y : Bytes) → node_hash sha512 x y ≡ inner_hash lib x y
  unfolding node_hash inner_hash
  node_hash-inner_hash x y = refl

  merkle_root-pair :
      (x y : Bytes)
      → merkle_root sha512 (promote_level lib (x ∷ y ∷ [])) ≡ merkle_root sha512 (x ∷ y ∷ [])
  unfolding promote_level
  merkle_root-pair x y =
      let one : split_point 2 ≡ 1 = split_point-pow 2 0 (omega arith) (omega arith) in
      merkle_root-one sha512 (inner_hash lib x y)
      ∙ sym (node_hash-inner_hash x y)
      ∙ ap₂ (node_hash sha512) (sym (merkle_root-one sha512 x)) (sym (merkle_root-one sha512 y))
      ∙ ap
          (λ (k : ℕ).
            node_hash sha512 (merkle_root sha512 (take k (x ∷ y ∷ [])))
              (merkle_root sha512 (drop k (x ∷ y ∷ []))))
          (sym one)
      ∙ sym (merkle_root-split sha512 (x ∷ y ∷ []) (omega arith))

  -- One round of promotion keeps the root.
  merkle_root-promote_level :
      (fuel : ℕ) (l : List Bytes)
      → length l ≤ fuel
      → merkle_root sha512 (promote_level lib l) ≡ merkle_root sha512 l
  unfolding promote_level
  merkle_root-promote_level fuel [] h = refl
  merkle_root-promote_level fuel (x ∷ []) h = refl
  merkle_root-promote_level fuel (x ∷ y ∷ []) h = merkle_root-pair x y
  merkle_root-promote_level zero (x ∷ y ∷ z ∷ rest) h = absurd (omega arith)
  merkle_root-promote_level (suc fuel) (x ∷ y ∷ z ∷ rest) h =
      let l = x ∷ y ∷ z ∷ rest in
      let (d, k, half) = split_point-half (length l) (omega arith) in
      let b = split_bounds (length l) (omega arith) in
      let s = length-halves l (omega arith) in
      let n = length-promote_level l in
      let (left, right) = promote_level-halves d l (omega arith) in
      let root = merkle_root sha512 in
      let at : split_point (length (promote_level lib l)) ≡ 2 ^ d = ap split_point n ∙ half in
      merkle_root-split sha512 (promote_level lib l) (omega arith)
      ∙ ap₂ (node_hash sha512)
          (ap root (
              ap (λ (i : ℕ). take i (promote_level lib l)) at
              ∙ left
              ∙ ap (λ (i : ℕ). promote_level lib (take i l)) (sym k))
            ∙ merkle_root-promote_level fuel (take (split_point (length l)) l) (omega arith))
          (ap root (
              ap (λ (i : ℕ). drop i (promote_level lib l)) at
              ∙ right
              ∙ ap (λ (i : ℕ). promote_level lib (drop i l)) (sym k))
            ∙ merkle_root-promote_level fuel (drop (split_point (length l)) l) (omega arith))
      ∙ sym (merkle_root-split sha512 l (omega arith))

  root_level-merkle_root :
      (fuel : ℕ) (l : List Bytes)
      → 0 < length l
      → length l ≤ suc fuel
      → root_level lib fuel l ≡ some (merkle_root sha512 l)
  unfolding root_level
  root_level-merkle_root fuel [] pos h = absurd (omega arith)
  root_level-merkle_root fuel (x ∷ []) pos h = ap some (sym (merkle_root-one sha512 x))
  root_level-merkle_root zero (x ∷ y ∷ rest) pos h = absurd (omega arith)
  root_level-merkle_root (suc fuel) (x ∷ y ∷ rest) pos h =
      let l = x ∷ y ∷ rest in
      let n = length-promote_level l in
      root_level-merkle_root fuel (promote_level lib l) (omega arith) (omega arith)
      ∙ ap some (merkle_root-promote_level (length l) l (omega arith))

  -- The root of a stream with a chunk or more is the RFC 6962 root of its leaf hashes, which
  -- checkpoint.rs computes by splitting, in hex; the level loop ends within its fuel.
  pub merkle_root_from_leaves-merkle_root :
      (chunk : Bytes) (chunks : List Bytes)
      → merkle_root_from_leaves lib (chunk ∷ chunks)
        ≡ some (hex_encode (merkle_root sha512 (map (leaf_hash lib) (chunk ∷ chunks))))
  unfolding merkle_root_from_leaves
  merkle_root_from_leaves-merkle_root chunk chunks =
      let l = map (leaf_hash lib) chunks in
      let n = length-map (leaf_hash lib) chunks in
      ap (encode_root lib) (
        root_level-merkle_root (length (chunk ∷ chunks)) (leaf_hash lib chunk ∷ l) (omega arith)
          (omega arith))
