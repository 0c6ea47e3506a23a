-- ===== src/Checkpoint/Consistency/Climb.antt =====
-- checkpoint.rs: the loop of `verify_consistency` over the consistency proof of a full subtree that
-- the old tree's last leaf lies in.
use nanorix_verify.Prelude.{
  ℕ, zero, suc, ◌+◌, ◌-◌, ◌*◌, ◌/◌, ◌^◌, ◌≤◌, ◌<◌, ◌≡◌, refl, ap, ◌∙◌, sym, arith, Bool, List, [],
  ◌∷◌, ◌++◌, Bytes, length, take, drop, take-take,
}
use mathlib.Core.List.{append_assoc}
use nanorix_verify.Checkpoint.{Digest64, split_point, merkle_root}
use nanorix_verify.Checkpoint.Split.{pow_double, mul_pow_double, pow_pos, lt_pow}
use nanorix_verify.Checkpoint.Root.{length-halves}
use nanorix_verify.Checkpoint.Climb.{split_point-pow, half_level}
use nanorix_verify.Checkpoint.Consistency.{strip_ones, consistency_loop}
use nanorix_verify.Checkpoint.Consistency.Ones.{strip_ones_lem}
use nanorix_verify.Checkpoint.Consistency.Descent.{Descent}
use nanorix_verify.Checkpoint.Consistency.Rounds.{loop_cong, after_left, after_right}

module _ (sha512 : Bytes → Bytes) (old_root new_root : Digest64) where
  -- The loop, as `verify_consistency` starts it with the last index of each tree.
  abbrev pub run : List Digest64 → ℕ → ℕ → Digest64 → Bool
  run proof f s seed =
      let (f', s') = strip_ones f f s in
      consistency_loop sha512 proof f' s' seed seed old_root new_root

  pub run_cong :
      {p p' : List Digest64} {f f' s s' : ℕ} (seed : Digest64)
      → p ≡ p'
      → f ≡ f'
      → s ≡ s'
      → run p f s seed ≡ run p' f' s' seed
  run_cong seed p f s = cc

  -- The old tree ends with the left part of a subtree at an even position.
  pub run_here :
      (l rest : List Digest64) (d a b t : ℕ) (seed : Digest64)
      → 2 ≤ length l
      → split_point (length l) ≡ 2 ^ d
      → seed ≡ merkle_root sha512 (take (split_point (length l)) l)
      → 2 * a < b
      → t < 2 ^ d
      → run
          (merkle_root sha512 (drop (split_point (length l)) l) ∷ rest)
          (2 * a * 2 ^ d + (2 ^ d - 1))
          (b * 2 ^ d + t)
          seed
        ≡ consistency_loop sha512 rest a
            (b / 2)
            (merkle_root sha512 (take (split_point (length l)) l))
            (merkle_root sha512 l)
            old_root
            new_root
  run_here l rest d a b t seed two kd e ab ht =
      let fuel : d ≤ 2 * a * 2 ^ d + (2 ^ d - 1) = omega (arith, lt_pow d) in
      rw (strip_ones_lem d (2 * a * 2 ^ d + (2 ^ d - 1)) a b t fuel ht) (
        loop_cong sha512 old_root new_root refl refl refl e e
        ∙ after_left sha512 old_root new_root l rest two a (b / 2) b _ ab refl)

  -- In a full subtree strictly left of the new tree's last leaf the loop climbs to its root with the
  -- two roots of the subtree, over the old tree's leaves and over all.
  abbrev pub Full : ℕ → Type 0
  Full d =
      (l rest : List Digest64) (m a b t : ℕ) (seed : Digest64) (core : List Digest64)
      → length l ≡ 2 ^ d
      → a < b
      → t < 2 ^ d
      → Descent sha512 l m seed core
      → run (core ++ rest) (a * 2 ^ d + (m - 1)) (b * 2 ^ d + t) seed
        ≡ consistency_loop sha512 rest a b (merkle_root sha512 (take m l)) (merkle_root sha512 l)
            old_root new_root

  pub core_rest :
      (core below rest : List Digest64) (last : Digest64)
      → core ≡ below ++ last ∷ []
      → core ++ rest ≡ below ++ last ∷ rest
  core_rest core below rest last e =
      ap (λ (c : List Digest64). c ++ rest) e ∙ append_assoc below (last ∷ []) rest

  Full-suc : (d : ℕ) → Full d → Full (suc d)
  Full-suc d ih l rest m a b t seed core n ab ht (Descent.here _ _ _ _ two e es ec) =
      let p = pow_double d in
      let k = split_point (length l) in
      let kd : k ≡ 2 ^ d = split_point-pow (length l) d (omega (arith, pow_pos d)) (omega arith) in
      let (b', t', eb, ht', eh, lo) = half_level d b t ht in
      run_cong seed (core_rest core [] rest _ ec) (omega (arith, mul_pow_double a d)) eb
      ∙ run_here l rest d a b' t' seed two kd es (omega arith) ht'
      ∙ loop_cong sha512 old_root new_root refl refl eh
          (ap (λ (i : ℕ). merkle_root sha512 (take i l)) (sym e)) refl
  Full-suc d ih l rest m a b t seed core n ab ht (Descent.left _ _ _ _ below two lt de ec) =
      let p = pow_double d in
      let k = split_point (length l) in
      let kd : k ≡ 2 ^ d = split_point-pow (length l) d (omega (arith, pow_pos d)) (omega arith) in
      let h = length-halves l two in
      let (b', t', eb, ht', eh, lo) = half_level d b t ht in
      run_cong seed (core_rest core below rest _ ec) (omega (arith, mul_pow_double a d)) eb
      ∙ ih (take k l) (merkle_root sha512 (drop k l) ∷ rest) m (2 * a) b' t' seed below
          (omega arith) (omega arith) ht' de
      ∙ after_left sha512 old_root new_root l rest two a b b' _ (omega arith) eh
      ∙ loop_cong sha512 old_root new_root refl refl refl
          (ap (merkle_root sha512) (take-take m k l (omega arith))) refl
  Full-suc d ih l rest m a b t seed core n ab ht (Descent.right _ _ _ _ below two gt lt de ec) =
      let p = pow_double d in
      let k = split_point (length l) in
      let kd : k ≡ 2 ^ d = split_point-pow (length l) d (omega (arith, pow_pos d)) (omega arith) in
      let h = length-halves l two in
      let (b', t', eb, ht', eh, lo) = half_level d b t ht in
      run_cong seed (core_rest core below rest _ ec) (omega (arith, mul_pow_double a d)) eb
      ∙ ih (drop k l) (merkle_root sha512 (take k l) ∷ rest) (m - k) (2 * a + 1) b' t' seed below
          (omega arith) (omega arith) ht' de
      ∙ after_right sha512 old_root new_root l rest two m gt (omega arith) a b b' (omega arith) eh

  pub two_leaves :
      {l : List Digest64} {m : ℕ} {seed : Digest64} {core : List Digest64}
      → Descent sha512 l m seed core
      → 2 ≤ length l
  two_leaves (Descent.here _ _ _ _ two _ _ _) = two
  two_leaves (Descent.left _ _ _ _ _ two _ _ _) = two
  two_leaves (Descent.right _ _ _ _ _ two _ _ _ _) = two

  pub Full-subtree : (d : ℕ) → Full d
  Full-subtree zero l rest m a b t seed core n ab ht de = absurd (omega (arith, two_leaves de))
  Full-subtree (suc d) l rest m a b t seed core n ab ht de =
      Full-suc d (Full-subtree d) l rest m a b t seed core n ab ht de
