-- ===== src/Checkpoint/Inclusion.antt =====
-- checkpoint.rs: every leaf's audit path is accepted against the tree's root.
use mathlib.Core.List.{append-nil}
use nanorix_verify.Prelude.{
  ℕ, zero, suc, ◌+◌, ◌-◌, ◌*◌, ◌/◌, ◌^◌, ◌≤◌, ◌<◌, ◌≡◌, refl, ap, ◌∙◌, sym, arith, Bytes, List, [],
  ◌∷◌, ◌++◌, true, false, some, ltb, ltb→lt, leb, Bool-cases, inl, inr, length, take, drop, get_or,
  get_or-take, get_or-drop, text_eq_refl,
}
use nanorix_verify.Checkpoint.{
  Digest64, split_point, merkle_root, root_fuel, path_fuel, inclusion_loop, inclusion_proof,
  verify_inclusion,
}
use nanorix_verify.Checkpoint.Split.{mul_pow_double, pow_pos, pow_add, lt_pow, split_point_lem}
use nanorix_verify.Checkpoint.Root.{length-halves, merkle_root-split, path}
use nanorix_verify.Checkpoint.Walk.{step_left, step_edge}
use nanorix_verify.Checkpoint.Climb.{
  pow_mono, inclusion_loop-step, loop_cong, path_left, path_right, Full-subtree,
}

pub pow_lt_cancel : (d e : ℕ) → 2 ^ d < 2 ^ e → d < e
pow_lt_cancel d e h = elim (Bool-cases (ltb d e)) [
  | inl p ↦ ltb→lt d e p
  | inr p ↦ absurd (omega (arith, pow_mono e d (ground arith)))
]

pub edge_scale : (a e d : ℕ) → d < e → a * 2 ^ e ≡ 2 * (a * 2 ^ (e - suc d)) * 2 ^ d
edge_scale a e d h =
    let s : e ≡ (e - suc d) + suc d = omega arith in
    ap (λ (n : ℕ). a * 2 ^ n) s
    ∙ ap (λ (t : ℕ). a * t) (pow_add (e - suc d) (suc d) ∙ mul_pow_double (2 ^ (e - suc d)) d)
    ∙ omega arith

pub edge_pos : (c j : ℕ) → 0 < (2 * c + 1) * 2 ^ j
edge_pos c j = grind (arith, pow_pos j)

module _ (sha512 : Bytes → Bytes) where
  -- At the right edge the index keeps the zeros that a missing level leaves, and the next round
  -- that hashes from the left strips them.
  abbrev Edge : ℕ → Type 0
  Edge fuel =
      (l rest : List Digest64) (m a e : ℕ) (x root : Digest64)
      → length l ≤ fuel
      → m < length l
      → length l ≤ 2 ^ e
      → (j : ℕ) × (inclusion_loop sha512 (path sha512 l m ++ rest) (a * 2 ^ e + m)
            (a * 2 ^ e + (length l - 1)) (get_or l m x) root
          ≡ inclusion_loop sha512 rest (a * 2 ^ j) (a * 2 ^ j) (merkle_root sha512 l) root)

  edge_one :
      (y : Digest64) (rest : List Digest64) (m a e : ℕ) (x root : Digest64)
      → m < 1
      → inclusion_loop sha512
          (path sha512 (y ∷ []) m ++ rest)
          (a * 2 ^ e + m)
          (a * 2 ^ e + 0)
          (get_or (y ∷ []) m x)
          root
        ≡ inclusion_loop sha512 rest (a * 2 ^ e) (a * 2 ^ e) (merkle_root sha512 (y ∷ [])) root
  unfolding path_fuel merkle_root root_fuel
  edge_one y rest zero a e x root h = loop_cong sha512 root refl (omega arith) (omega arith) refl
  edge_one y rest (suc m) a e x root h = absurd (omega arith)

  Edge-split :
      (fuel : ℕ)
      → Edge fuel
      → (l rest : List Digest64) (m a e d : ℕ) (x root : Digest64) → length l ≤ suc fuel
      → m < length l
      → 2 ≤ length l
      → split_point (length l) ≡ 2 ^ d
      → 2 ^ d < length l
      → length l ≤ 2 * 2 ^ d
      → d < e
      → inclusion_loop sha512
          (path sha512 l m ++ rest)
          (a * 2 ^ e + m)
          (a * 2 ^ e + (length l - 1))
          (get_or l m x)
          root
        ≡ inclusion_loop sha512 rest
            (a * 2 ^ (e - suc d))
            (a * 2 ^ (e - suc d))
            (merkle_root sha512 l)
            root
  Edge-split fuel ih l rest m a e d x root fits hm two kd lo hi de =
      let k = split_point (length l) in
      let c = a * 2 ^ (e - suc d) in
      let up : a * 2 ^ e ≡ 2 * c * 2 ^ d = edge_scale a e d de in
      let pos = pow_pos d in
      let h = length-halves l two in
      elim (Bool-cases (ltb m k)) [
        | inl less ↦
            let lt : m < k = ltb→lt m k less in
            loop_cong sha512 root (path_left sha512 l rest m two lt) (omega arith) (omega arith)
              (sym (get_or-take k m l x lt))
            ∙ Full-subtree sha512 d (take k l) (merkle_root sha512 (drop k l) ∷ rest) m (2 * c)
                (2 * c + 1) (length l - 1 - 2 ^ d) x root (omega arith) (omega arith) (omega arith)
                (omega arith)
            ∙ inclusion_loop-step sha512 (merkle_root sha512 (drop k l)) rest (2 * c) (2 * c + 1)
                (merkle_root sha512 (take k l)) root c ((2 * c + 1) / 2) _ (omega arith)
                (step_left sha512 _ _ c (2 * c + 1) (omega arith))
            ∙ loop_cong sha512 root refl refl (omega arith) (sym (merkle_root-split sha512 l two))
        | inr more ↦
            let le : k ≤ m = ground arith in
            let em : k + (m - k) ≡ m = omega arith in
            let (j, below) =
              ih (drop k l) (merkle_root sha512 (take k l) ∷ rest) (m - k) (2 * c + 1) d x root
                (omega arith) (omega arith) (omega arith) in
            loop_cong sha512 root (path_right sha512 l rest m two le) (omega arith) (omega arith)
              (sym (get_or-drop k (m - k) l x ∙ ap (λ (i : ℕ). get_or l i x) em))
            ∙ below
            ∙ inclusion_loop-step sha512 (merkle_root sha512 (take k l)) rest ((2 * c + 1) * 2 ^ j)
                ((2 * c + 1) * 2 ^ j) (merkle_root sha512 (drop k l)) root c c _ (edge_pos c j)
                (step_edge sha512 _ _ c j)
            ∙ loop_cong sha512 root refl refl refl (sym (merkle_root-split sha512 l two))
      ]

  Edge-subtree : (fuel : ℕ) → Edge fuel
  Edge-subtree fuel [] rest m a e x root fits hm he = elim hm [ ]
  Edge-subtree fuel (y ∷ []) rest m a e x root fits hm he = (e, edge_one y rest m a e x root hm)
  Edge-subtree zero (y ∷ z ∷ l) rest m a e x root fits hm he = absurd (omega arith)
  Edge-subtree (suc fuel) (y ∷ z ∷ l) rest m a e x root fits hm he =
      let (d, kd, lo, hi) = split_point_lem (length (y ∷ z ∷ l)) (omega arith) in
      (
        e - suc d,
        Edge-split fuel (Edge-subtree fuel) (y ∷ z ∷ l) rest m a e d x root fits hm (omega arith) kd
            lo hi (pow_lt_cancel d e (omega arith)),
      )

  inclusion_loop-done :
      (j : ℕ) (r : Digest64) → inclusion_loop sha512 [] (0 * 2 ^ j) (0 * 2 ^ j) r r ≡ true
  unfolding inclusion_loop
  inclusion_loop-done j r = let z : 0 * 2 ^ j ≡ 0 = omega arith in rw z (text_eq_refl r)

  -- For every leaf of a tree, `inclusion_proof` returns a path, and `verify_inclusion` accepts it
  -- for that leaf, its index, the tree's size and the tree's root.
  pub verify_inclusion-inclusion_proof :
      (leaves : List Digest64) (index : ℕ) (x : Digest64)
      → index < length leaves
      → (proof : List Digest64) × (inclusion_proof sha512 leaves index ≡ some proof)
        × (verify_inclusion sha512
              (get_or leaves index x)
              index
              (length leaves)
              proof
              (merkle_root sha512 leaves)
            ≡ true)
  unfolding inclusion_proof verify_inclusion
  verify_inclusion-inclusion_proof leaves index x h =
      let n = length leaves in
      let (j, run) =
        Edge-subtree n leaves [] index 0 n (x) (merkle_root sha512 leaves) (omega arith) h
          (omega (arith, lt_pow n)) in
      let inside : leb n index ≡ false = ground arith in
      (
        path sha512 leaves index,
        rw inside,
        rw inside (
            loop_cong sha512 _ (sym (append-nil _)) (omega arith) (omega arith) refl
            ∙ run
            ∙ inclusion_loop-done j (merkle_root sha512 leaves)),
      )
