-- ===== src/Checkpoint/Root.antt =====
-- checkpoint.rs: the recursions of `merkle_root` and of the nested `path`, without their fuel.
use nanorix_verify.Prelude.{
  ℕ, zero, suc, ◌-◌, ◌≤◌, ◌<◌, ◌≡◌, refl, arith, List, [], ◌∷◌, ◌++◌, Bytes, length, take, drop,
  length-take_le, length-drop, ltb, if◌then◌else◌,
}
use nanorix_verify.Checkpoint.{Digest64, split_point, node_hash, root_fuel, merkle_root, path_fuel}
use nanorix_verify.Checkpoint.Split.{split_point_lem, pow_pos}
use mathlib.Core.Path.{ap₂}

-- The split leaves leaves on both sides.
pub split_bounds : (n : ℕ) → 2 ≤ n → (0 < split_point n) × (split_point n < n)
split_bounds n h = let (e, p, q, r) = split_point_lem n h in (omega (arith, pow_pos e), omega arith)

module _ {ℓ} {A : Type ℓ} where
  pub length-halves :
      (l : List A)
      → 2 ≤ length l
      → (length (take (split_point (length l)) l) ≡ split_point (length l))
        × (length (drop (split_point (length l)) l) ≡ length l - split_point (length l))
  length-halves l h =
      let (lo, hi) = split_bounds (length l) h in
      (
        length-take_le (split_point (length l)) l (omega arith),
        length-drop (split_point (length l)) l,
      )

module _ (sha512 : Bytes → Bytes) where
  -- Any fuel from the number of leaves on gives the same root.
  pub root_fuel_enough :
      (f g : ℕ) (l : List Digest64)
      → length l ≤ f
      → length l ≤ g
      → root_fuel sha512 f l ≡ root_fuel sha512 g l
  unfolding root_fuel
  root_fuel_enough f g [] p q = refl
  root_fuel_enough f g (x ∷ []) p q = refl
  root_fuel_enough zero g (x ∷ y ∷ rest) p q = absurd (omega arith)
  root_fuel_enough (suc f) zero (x ∷ y ∷ rest) p q = absurd (omega arith)
  root_fuel_enough (suc f) (suc g) (x ∷ y ∷ rest) p q =
      let l = x ∷ y ∷ rest in
      let k = split_point (length l) in
      let b = split_bounds (length l) (omega arith) in
      let h = length-halves l (omega arith) in
      ap₂ (node_hash sha512) (root_fuel_enough f g (take k l) (omega arith) (omega arith))
        (root_fuel_enough f g (drop k l) (omega arith) (omega arith))

  pub merkle_root-one : (x : Digest64) → merkle_root sha512 (x ∷ []) ≡ x
  unfolding merkle_root root_fuel
  merkle_root-one x = refl

  -- The root of two leaves or more is the hash of the roots of the two parts.
  pub merkle_root-split :
      (l : List Digest64)
      → 2 ≤ length l
      → merkle_root sha512 l
        ≡ node_hash sha512
            (merkle_root sha512 (take (split_point (length l)) l))
            (merkle_root sha512 (drop (split_point (length l)) l))
  unfolding merkle_root root_fuel
  merkle_root-split [] h = absurd (omega arith)
  merkle_root-split (x ∷ []) h = absurd (omega arith)
  merkle_root-split (x ∷ y ∷ rest) h =
      let l = x ∷ y ∷ rest in
      let k = split_point (length l) in
      let b = split_bounds (length l) h in
      let s = length-halves l h in
      ap₂ (node_hash sha512)
        (root_fuel_enough (length (y ∷ rest)) (length (take k l)) (take k l) (omega arith)
          (omega arith))
        (root_fuel_enough (length (y ∷ rest)) (length (drop k l)) (drop k l) (omega arith)
          (omega arith))

  abbrev pub path : List Digest64 → ℕ → List Digest64
  path l m = path_fuel sha512 (length l) l m

  pub path_fuel_enough :
      (f g : ℕ) (l : List Digest64) (m : ℕ)
      → length l ≤ f
      → length l ≤ g
      → path_fuel sha512 f l m ≡ path_fuel sha512 g l m
  unfolding path_fuel
  path_fuel_enough f g [] m p q = refl
  path_fuel_enough f g (x ∷ []) m p q = refl
  path_fuel_enough zero g (x ∷ y ∷ rest) m p q = absurd (omega arith)
  path_fuel_enough (suc f) zero (x ∷ y ∷ rest) m p q = absurd (omega arith)
  path_fuel_enough (suc f) (suc g) (x ∷ y ∷ rest) m p q =
      let l = x ∷ y ∷ rest in
      let k = split_point (length l) in
      let b = split_bounds (length l) (omega arith) in
      let h = length-halves l (omega arith) in
      ap₂
        (λ (u v : List Digest64).
          if ltb m k
          then u ++ merkle_root sha512 (drop k l) ∷ []
          else v ++ merkle_root sha512 (take k l) ∷ [])
        (path_fuel_enough f g (take k l) m (omega arith) (omega arith))
        (path_fuel_enough f g (drop k l) (m - k) (omega arith) (omega arith))

  pub path-split :
      (l : List Digest64) (m : ℕ)
      → 2 ≤ length l
      → path l m ≡ (
          let k = split_point (length l) in
          if ltb m k
          then path (take k l) m ++ merkle_root sha512 (drop k l) ∷ []
          else path (drop k l) (m - k) ++ merkle_root sha512 (take k l) ∷ [])
  unfolding path_fuel
  path-split [] m h = absurd (omega arith)
  path-split (x ∷ []) m h = absurd (omega arith)
  path-split (x ∷ y ∷ rest) m h =
      let l = x ∷ y ∷ rest in
      let k = split_point (length l) in
      let b = split_bounds (length l) h in
      let s = length-halves l h in
      ap₂
        (λ (u v : List Digest64).
          if ltb m k
          then u ++ merkle_root sha512 (drop k l) ∷ []
          else v ++ merkle_root sha512 (take k l) ∷ [])
        (path_fuel_enough (length (y ∷ rest)) (length (take k l)) (take k l) m (omega arith)
          (omega arith))
        (path_fuel_enough (length (y ∷ rest)) (length (drop k l)) (drop k l) (m - k) (omega arith)
          (omega arith))
