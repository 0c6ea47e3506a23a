-- ===== src/Checkpoint/Consistency/Rounds.antt =====
-- checkpoint.rs: one round of the loop of `verify_consistency`, on the roots of the two parts of a
-- subtree: the old tree ends in the left part, or in the right part.
use nanorix_verify.Prelude.{
  ℕ, zero, suc, ◌+◌, ◌-◌, ◌*◌, ◌/◌, ◌%◌, ◌^◌, ◌≤◌, ◌<◌, ◌≡◌, refl, ◌∙◌, sym, arith, List, ◌∷◌,
  Bytes, length, take, drop, length-take_le, take-take, drop-take, ap,
}
use nanorix_verify.Checkpoint.{Digest64, split_point, node_hash, merkle_root}
use nanorix_verify.Checkpoint.Split.{lt_pow, pow_pos, split_point_lem}
use nanorix_verify.Checkpoint.Climb.{split_point-pow}
use mathlib.Core.Path.{ap₂}
use nanorix_verify.Checkpoint.Root.{merkle_root-split}
use nanorix_verify.Checkpoint.Walk.{strip_lem, even_edge}
use nanorix_verify.Checkpoint.Inclusion.{edge_pos}
use nanorix_verify.Checkpoint.Consistency.{consistency_step, consistency_loop}

module _ (sha512 : Bytes → Bytes) where
  -- The root of a prefix that is longer than the split.
  merkle_root-take :
      (l : List Digest64) (m : ℕ)
      → 2 ≤ length l
      → split_point (length l) < m
      → m ≤ length l
      → merkle_root sha512 (take m l)
        ≡ node_hash sha512 (merkle_root sha512 (take (split_point (length l)) l)) (
            merkle_root sha512
              (take (m - split_point (length l)) (drop (split_point (length l)) l)))
  merkle_root-take l m two lo hi =
      let k = split_point (length l) in
      let (d, kd, low, high) = split_point_lem (length l) two in
      let size : length (take m l) ≡ m = length-take_le m l hi in
      let km : split_point (length (take m l)) ≡ k =
        ap split_point size ∙ split_point-pow m d (omega arith) (omega arith) ∙ sym kd in
      merkle_root-split sha512 (take m l) (omega (arith, pow_pos d))
      ∙ ap
          (λ (i : ℕ).
            node_hash sha512 (merkle_root sha512 (take i (take m l)))
              (merkle_root sha512 (drop i (take m l))))
          km
      ∙ ap₂
          (λ (u v : List Digest64). node_hash sha512 (merkle_root sha512 u) (merkle_root sha512 v))
          (take-take k m l (omega arith)) (drop-take k m l)

  module _ (p fr sr : Digest64) where
    step_left :
        (a s : ℕ)
        → 2 * a < s
        → consistency_step sha512 p (2 * a) s fr sr ≡ (a, s / 2, fr, node_hash sha512 sr p)
    unfolding consistency_step
    step_left a s h = ground arith

    step_right :
        (a s : ℕ)
        → consistency_step sha512 p (2 * a + 1) s fr sr
          ≡ (a, s / 2, node_hash sha512 p fr, node_hash sha512 p sr)
    unfolding consistency_step
    step_right a s = ground arith

    step_edge :
        (c j : ℕ)
        → consistency_step sha512 p ((2 * c + 1) * 2 ^ j) ((2 * c + 1) * 2 ^ j) fr sr
          ≡ (c, c, node_hash sha512 p fr, node_hash sha512 p sr)
    unfolding consistency_step
    step_edge c zero =
        let one : (2 * c + 1) * 2 ^ 0 ≡ 2 * c + 1 = omega arith in rw one (ground arith)
    step_edge c (suc j) =
        let x = (2 * c + 1) * 2 ^ suc j in
        let even : x % 2 ≡ 0 = even_edge c j in
        let fuel : suc j ≤ x = grind (arith, lt_pow (suc j)) in
        ground (arith, even, strip_lem x (suc j) c fuel)

  module _ (old_root new_root : Digest64) where
    pub consistency_loop-step :
        (p : Digest64) (proof : List Digest64) (f s : ℕ) (fr sr : Digest64) (f' s' : ℕ)
        (fr' sr' : Digest64)
        → 0 < s
        → consistency_step sha512 p f s fr sr ≡ (f', s', fr', sr')
        → consistency_loop sha512 (p ∷ proof) f s fr sr old_root new_root
          ≡ consistency_loop sha512 proof f' s' fr' sr' old_root new_root
    unfolding consistency_loop
    consistency_loop-step p proof f s fr sr f' s' fr' sr' h e = ground (arith, e)

    pub loop_cong :
        {p p' : List Digest64} {f f' s s' : ℕ} {fr fr' sr sr' : Digest64}
        → p ≡ p'
        → f ≡ f'
        → s ≡ s'
        → fr ≡ fr'
        → sr ≡ sr'
        → consistency_loop sha512 p f s fr sr old_root new_root
          ≡ consistency_loop sha512 p' f' s' fr' sr' old_root new_root
    loop_cong p f s fr sr = cc

    module _ (l rest : List Digest64) (two : 2 ≤ length l) where
      -- The old tree ends in the left part, or with it, and its root is `fr` already.
      pub after_left :
          (a b s : ℕ) (fr : Digest64)
          → 2 * a < s
          → s / 2 ≡ b
          → consistency_loop sha512
              (merkle_root sha512 (drop (split_point (length l)) l) ∷ rest)
              (2 * a)
              s
              fr
              (merkle_root sha512 (take (split_point (length l)) l))
              old_root
              new_root
            ≡ consistency_loop sha512 rest a b fr (merkle_root sha512 l) old_root new_root
      after_left a b s fr lt e =
          consistency_loop-step _ rest (2 * a) s fr _ a (s / 2) fr _ (omega arith)
            (step_left _ fr _ a s lt)
          ∙ loop_cong refl refl e refl (sym (merkle_root-split sha512 l two))

      module _ (m : ℕ) (lo : split_point (length l) < m) (hi : m ≤ length l) where
        -- The old tree ends in the right part, strictly left of the new tree's end.
        pub after_right :
            (a b s : ℕ)
            → 0 < s
            → s / 2 ≡ b
            → consistency_loop sha512
                (merkle_root sha512 (take (split_point (length l)) l) ∷ rest)
                (2 * a + 1)
                s
                (merkle_root sha512
                  (take (m - split_point (length l)) (drop (split_point (length l)) l)))
                (merkle_root sha512 (drop (split_point (length l)) l))
                old_root
                new_root
              ≡ consistency_loop sha512 rest a b
                  (merkle_root sha512 (take m l))
                  (merkle_root sha512 l)
                  old_root
                  new_root
        after_right a b s pos e =
            consistency_loop-step _ rest (2 * a + 1) s _ _ a (s / 2) _ _ pos (step_right _ _ _ a s)
            ∙ loop_cong refl refl e (sym (merkle_root-take l m two lo hi))
                (sym (merkle_root-split sha512 l two))

        -- The old tree ends in the right part, and the new tree with it: the zeros are stripped.
        pub after_edge :
            (c j : ℕ)
            → consistency_loop sha512
                (merkle_root sha512 (take (split_point (length l)) l) ∷ rest)
                ((2 * c + 1) * 2 ^ j)
                ((2 * c + 1) * 2 ^ j)
                (merkle_root sha512
                  (take (m - split_point (length l)) (drop (split_point (length l)) l)))
                (merkle_root sha512 (drop (split_point (length l)) l))
                old_root
                new_root
              ≡ consistency_loop sha512 rest c c
                  (merkle_root sha512 (take m l))
                  (merkle_root sha512 l)
                  old_root
                  new_root
        after_edge c j =
            consistency_loop-step _ rest ((2 * c + 1) * 2 ^ j) ((2 * c + 1) * 2 ^ j) _ _ c c _ _
              (edge_pos c j) (step_edge _ _ _ c j)
            ∙ loop_cong refl refl refl (sym (merkle_root-take l m two lo hi))
                (sym (merkle_root-split sha512 l two))
