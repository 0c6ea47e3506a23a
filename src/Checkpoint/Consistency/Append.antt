-- ===== src/Checkpoint/Consistency/Append.antt =====
-- checkpoint.rs: the consistency proof of every earlier size of a tree is accepted.
use nanorix_verify.Prelude.{
  ℕ, suc, ◌+◌, ◌-◌, ◌*◌, ◌^◌, ◌≤◌, ◌<◌, ◌≡◌, refl, ap, ◌∙◌, sym, arith, true, false, Bool-cases,
  inl, inr, some, List, [], ◌∷◌, ◌++◌, Bytes, length, take, take_all, drop, take-take, ◌==◌, ltb,
  ltb→lt, text_eq_refl, if◌then◌else◌,
}
use mathlib.Core.List.{append-nil}
use nanorix_verify.Checkpoint.{Digest64, split_point, merkle_root}
use nanorix_verify.Checkpoint.Split.{pow_pos, lt_pow, split_point_lem}
use nanorix_verify.Checkpoint.Root.{length-halves}
use nanorix_verify.Checkpoint.Inclusion.{pow_lt_cancel, edge_scale}
use nanorix_verify.Checkpoint.Consistency.{
  is_power_of_two, subproof, consistency_proof, consistency_seed, consistency_loop,
  verify_consistency,
}
use nanorix_verify.Checkpoint.Consistency.Descent.{Descent, descend, subproof-whole}
use nanorix_verify.Checkpoint.Consistency.Rounds.{loop_cong, after_left, after_edge}
use nanorix_verify.Checkpoint.Consistency.Climb.{run, run_cong, run_here, core_rest, Full-subtree}

module _ (sha512 : Bytes → Bytes) where
  module _ (old_root new_root : Digest64) where
    -- Along the right edge the loop ends at the root's position, up to the zeros that missing levels
    -- leave.
    abbrev Edge : List Digest64 → ℕ → Digest64 → List Digest64 → Type 0
    Edge l m seed core =
        (rest : List Digest64) (a e : ℕ)
        → length l ≤ 2 ^ e
        → (j : ℕ) × (run sha512 old_root new_root (core ++ rest) (a * 2 ^ e + (m - 1))
              (a * 2 ^ e + (length l - 1)) seed
            ≡ consistency_loop sha512 rest (a * 2 ^ j) (a * 2 ^ j) (merkle_root sha512 (take m l))
                (merkle_root sha512 l) old_root new_root)

    edge_part :
        (l : List Digest64) (a e : ℕ)
        → 2 ≤ length l
        → length l ≤ 2 ^ e
        → (d : ℕ) × (c : ℕ) × (j : ℕ) × (split_point (length l) ≡ 2 ^ d)
          × (2 ^ d < length l)
          × (length l ≤ 2 * 2 ^ d)
          × (a * 2 ^ e ≡ 2 * c * 2 ^ d)
          × (c ≡ a * 2 ^ j)
    edge_part l a e two he =
        let (d, kd, lo, hi) = split_point_lem (length l) two in
        let de : d < e = pow_lt_cancel d e (omega arith) in
        (d, a * 2 ^ (e - suc d), e - suc d, kd, lo, hi, edge_scale a e d de, refl)

    Descent-Edge :
        (l : List Digest64) (m : ℕ) (seed : Digest64) (core : List Digest64)
        → Descent sha512 l m seed core
        → Edge l m seed core
    Descent-Edge l m seed core (Descent.here _ _ _ _ two e es ec) rest a x he =
        let (d, c, j, kd, lo, hi, up, ej) = edge_part l a x two he in
        let pos = pow_pos d in
        (
          j,
          run_cong sha512 old_root new_root seed
                (core_rest sha512 old_root new_root core [] rest _ ec) (omega arith)
                (omega (arith, two))
              ∙ run_here sha512 old_root new_root l rest d c (2 * c + 1) (length l - 1 - 2 ^ d) seed
                  two kd es (omega arith) (omega arith)
              ∙ loop_cong sha512 old_root new_root refl ej (omega arith)
                  (ap (λ (i : ℕ). merkle_root sha512 (take i l)) (sym e)) refl,
        )
    Descent-Edge l m seed core (Descent.left _ _ _ _ below two lt de ec) rest a x he =
        let (d, c, j, kd, lo, hi, up, ej) = edge_part l a x two he in
        let pos = pow_pos d in
        let k = split_point (length l) in
        let h = length-halves l two in
        (
          j,
          run_cong sha512 old_root new_root seed
                (core_rest sha512 old_root new_root core below rest _ ec) (omega arith)
                (omega arith)
              ∙ Full-subtree sha512 old_root new_root d (take k l)
                  (merkle_root sha512 (drop k l) ∷ rest) m (2 * c) (2 * c + 1)
                  (length l - 1 - 2 ^ d) seed below (omega arith) (omega arith) (omega arith) de
              ∙ after_left sha512 old_root new_root l rest two c c (2 * c + 1) _ (omega arith)
                  (omega arith)
              ∙ loop_cong sha512 old_root new_root refl ej ej
                  (ap (merkle_root sha512) (take-take m k l (omega arith))) refl,
        )
    Descent-Edge l m seed core (Descent.right _ _ _ _ below two gt lt de ec) rest a x he =
        let (d, c, i, kd, lo, hi, up, ei) = edge_part l a x two he in
        let k = split_point (length l) in
        let h = length-halves l two in
        let (j, climbed) =
          Descent-Edge (drop k l) (m - k) seed below de (merkle_root sha512 (take k l) ∷ rest)
            (2 * c + 1) d (omega arith) in
        (
          i,
          run_cong sha512 old_root new_root seed
                (core_rest sha512 old_root new_root core below rest _ ec) (omega arith)
                (omega arith)
              ∙ climbed
              ∙ after_edge sha512 old_root new_root l rest two m gt (omega arith) c j
              ∙ loop_cong sha512 old_root new_root refl ei ei refl refl,
        )

  consistency_loop-done :
      (j : ℕ) (old new : Digest64)
      → consistency_loop sha512 [] (0 * 2 ^ j) (0 * 2 ^ j) old new old new ≡ true
  unfolding consistency_loop
  consistency_loop-done j old new =
      let z : 0 * 2 ^ j ≡ 0 = omega arith in rw z (rw (text_eq_refl old) (text_eq_refl new))

  -- The first digest and the rest of the loop's input, from what `subproof` returns.
  seed_of :
      (m : ℕ) (old_root seed : Digest64) (core : List Digest64)
      → (is_power_of_two m ≡ true → seed ≡ old_root)
      → consistency_seed m old_root (if is_power_of_two m then core else seed ∷ core)
        ≡ some (seed, core)
  unfolding consistency_seed
  seed_of m old_root seed core top = elim (Bool-cases (is_power_of_two m)) [
    | inl p ↦ rw p (rw (top p) refl)
    | inr p ↦ rw p refl
  ]

  pub verify_consistency-run :
      (m n : ℕ) (old_root new_root : Digest64) (proof : List Digest64) (seed : Digest64)
      (core : List Digest64)
      → 0 < m
      → m < n
      → consistency_seed m old_root proof ≡ some (seed, core)
      → verify_consistency sha512 m n old_root new_root proof
        ≡ run sha512 old_root new_root core (m - 1) (n - 1) seed
  unfolding verify_consistency
  verify_consistency-run m n old_root new_root proof seed core pos lt e =
      let z : (m == 0) ≡ false = ground arith in
      let o : ltb n m ≡ false = ground arith in
      let s : (m == n) ≡ false = ground arith in rw z (rw o (rw s (rw e refl)))

  earlier_accepted :
      (leaves : List Digest64) (m : ℕ)
      → 0 < m
      → m < length leaves
      → verify_consistency sha512 m
          (length leaves)
          (merkle_root sha512 (take m leaves))
          (merkle_root sha512 leaves)
          (subproof sha512 (length leaves) leaves m true)
        ≡ true
  earlier_accepted leaves m pos lt =
      let n = length leaves in
      let old = merkle_root sha512 (take m leaves) in
      let new = merkle_root sha512 leaves in
      let (seed, core, de, plain, flagged, top) = descend sha512 n leaves m (omega arith) pos lt in
      let (j, climbed) =
        Descent-Edge old new leaves m seed core de [] 0 n (omega (arith, lt_pow n)) in
      verify_consistency-run m n old new _ seed core pos lt
        (ap (consistency_seed m old) flagged ∙ seed_of m old seed core top)
      ∙ run_cong sha512 old new seed (sym (append-nil core)) (omega arith) (omega arith)
      ∙ climbed
      ∙ consistency_loop-done j old new

  same_accepted :
      (m : ℕ) (root : Digest64) → 0 < m → verify_consistency sha512 m m root root [] ≡ true
  unfolding verify_consistency
  same_accepted m root pos = ground (arith, text_eq_refl root)

  latest_accepted :
      (leaves : List Digest64)
      → 0 < length leaves
      → verify_consistency sha512
          (length leaves)
          (length leaves)
          (merkle_root sha512 (take (length leaves) leaves))
          (merkle_root sha512 leaves)
          (subproof sha512 (length leaves) leaves (length leaves) true)
        ≡ true
  latest_accepted leaves pos = rw (take_all leaves) (
      rw (subproof-whole sha512 (length leaves) leaves (length leaves) true pos refl)
        (same_accepted (length leaves) (merkle_root sha512 leaves) pos))

  -- For every size from one to the tree's, `consistency_proof` returns a proof, and
  -- `verify_consistency` accepts it for the root of the first leaves of that size and the root of
  -- all the leaves.
  pub verify_consistency-consistency_proof :
      (leaves : List Digest64) (old_size : ℕ)
      → 0 < old_size
      → old_size ≤ length leaves
      → (proof : List Digest64) × (consistency_proof sha512 leaves old_size ≡ some proof)
        × (verify_consistency sha512 old_size
              (length leaves)
              (merkle_root sha512 (take old_size leaves))
              (merkle_root sha512 leaves)
              proof
            ≡ true)
  unfolding consistency_proof
  verify_consistency-consistency_proof leaves m pos le =
      let n = length leaves in
      let z : (m == 0) ≡ false = ground arith in
      let o : ltb n m ≡ false = ground arith in
      (
        subproof sha512 n leaves m true,
        rw z (rw o refl),
        elim (Bool-cases (ltb m n)) [
          | inl earlier ↦ earlier_accepted leaves m pos (ltb→lt m n earlier)
          | inr no_earlier ↦
              let e : m ≡ n = ground arith in rw e (latest_accepted leaves (omega arith))
        ],
      )
