-- ===== src/Checkpoint/Climb.antt =====
-- checkpoint.rs: the loop of `verify_inclusion` over the audit path of a full subtree.
use mathlib.Core.List.{append_assoc}
use nanorix_verify.Prelude.{
  ℕ, zero, suc, ◌+◌, ◌-◌, ◌*◌, ◌/◌, ◌^◌, ◌≤◌, ◌<◌, ◌≡◌, refl, ap, ◌∙◌, sym, arith, Bytes, List, [],
  ◌∷◌, ◌++◌, false, ltb, ltb→lt, lt→ltb, leb, Bool-cases, inl, inr, length, take, drop, get_or,
  get_or-take, get_or-drop,
}
use nanorix_verify.Checkpoint.{
  Digest64, split_point, merkle_root, root_fuel, path_fuel, inclusion_step, inclusion_loop,
}
use nanorix_verify.Checkpoint.Split.{pow_double, mul_pow_double, pow_pos, split_point_lem}
use nanorix_verify.Checkpoint.Root.{length-halves, merkle_root-split, path, path-split}
use nanorix_verify.Checkpoint.Walk.{step_left, step_right}

pub pow_mono : (d e : ℕ) → d ≤ e → 2 ^ d ≤ 2 ^ e
pow_mono d zero h = let z : d ≡ zero = omega arith in rw z (omega arith)
pow_mono d (suc e) h = elim (Bool-cases (leb d e)) [
  | inl p ↦ omega (arith, pow_mono d e (ground arith), pow_double e)
  | inr p ↦ let z : d ≡ suc e = ground arith in rw z (omega arith)
]

-- The split of a number between two powers of two is the lower one.
pub split_point-pow : (n d : ℕ) → 2 ^ d < n → n ≤ 2 * 2 ^ d → split_point n ≡ 2 ^ d
split_point-pow n d lo hi =
    let (e, p, q, r) = split_point_lem n (omega (arith, pow_pos d)) in
    elim (Bool-cases (ltb e d)) [
      | inl less ↦ absurd (omega (arith, pow_mono (suc e) d (ltb→lt e d less), pow_double e))
      | inr more ↦ elim (Bool-cases (ltb d e)) [
        | inl less ↦ absurd (omega (arith, pow_mono (suc d) e (ltb→lt d e less), pow_double d))
        | inr same ↦ let z : e ≡ d = ground arith in rw (← z) p
      ]
    ]

-- The level below: its index has one more bit, and the last leaf's offset one less.
pub half_level :
    (d b s : ℕ)
    → s < 2 ^ suc d
    → (b' : ℕ) × (s' : ℕ) × (b * 2 ^ suc d + s ≡ b' * 2 ^ d + s')
      × (s' < 2 ^ d)
      × (b' / 2 ≡ b)
      × (2 * b ≤ b')
half_level d b s h = elim (Bool-cases (ltb s (2 ^ d))) [
  | inl low ↦
      let lt : s < 2 ^ d = ltb→lt _ _ low in
      (2 * b, s, omega (arith, mul_pow_double b d), lt, omega arith, omega arith)
  | inr high ↦
      let le : 2 ^ d ≤ s = ground arith in
      let p = pow_double d in
      (
        2 * b + 1,
        s - 2 ^ d,
        omega (arith, mul_pow_double b d),
        omega arith,
        omega arith,
        omega arith,
      )
]

full_right : (d a m k : ℕ) → k ≡ 2 ^ d → k ≤ m → a * 2 ^ suc d + m ≡ (2 * a + 1) * 2 ^ d + (m - k)
full_right d a m k e h = omega (arith, mul_pow_double a d)

module _ (sha512 : Bytes → Bytes) where
  pub inclusion_loop-step :
      (p : Digest64) (proof : List Digest64) (f s : ℕ) (r root : Digest64) (f' s' : ℕ)
      (r' : Digest64)
      → 0 < s
      → inclusion_step sha512 p f s r ≡ (f', s', r')
      → inclusion_loop sha512 (p ∷ proof) f s r root ≡ inclusion_loop sha512 proof f' s' r' root
  unfolding inclusion_loop
  inclusion_loop-step p proof f s r root f' s' r' h e = ground (arith, e)

  pub loop_cong :
      {p p' : List Digest64} {f f' s s' : ℕ} {r r' : Digest64} (root : Digest64)
      → p ≡ p'
      → f ≡ f'
      → s ≡ s'
      → r ≡ r'
      → inclusion_loop sha512 p f s r root ≡ inclusion_loop sha512 p' f' s' r' root
  loop_cong root p f s r = cc

  -- What the two branches of a split look like from the loop.
  pub path_left :
      (l rest : List Digest64) (m : ℕ)
      → 2 ≤ length l
      → m < split_point (length l)
      → path sha512 l m ++ rest
        ≡ path sha512 (take (split_point (length l)) l) m
          ++ merkle_root sha512 (drop (split_point (length l)) l) ∷ rest
  path_left l rest m h lt = rw (path-split sha512 l m h) (
      rw (lt→ltb m (split_point (length l)) lt) (
        append_assoc (path sha512 (take (split_point (length l)) l) m)
          (merkle_root sha512 (drop (split_point (length l)) l) ∷ []) rest))

  pub path_right :
      (l rest : List Digest64) (m : ℕ)
      → 2 ≤ length l
      → split_point (length l) ≤ m
      → path sha512 l m ++ rest
        ≡ path sha512 (drop (split_point (length l)) l) (m - split_point (length l))
          ++ merkle_root sha512 (take (split_point (length l)) l) ∷ rest
  path_right l rest m h le =
      let no_lt : ltb m (split_point (length l)) ≡ false = ground arith in
      rw (path-split sha512 l m h) (
        rw no_lt (
          append_assoc (path sha512 (drop (split_point (length l)) l) (m - split_point (length l)))
            (merkle_root sha512 (take (split_point (length l)) l) ∷ []) rest))

  -- In a full subtree strictly left of the last leaf each round climbs one level.
  abbrev pub Full : ℕ → Type 0
  Full d =
      (l rest : List Digest64) (m a b s : ℕ) (x root : Digest64)
      → length l ≡ 2 ^ d
      → m < 2 ^ d
      → a < b
      → s < 2 ^ d
      → inclusion_loop sha512 (path sha512 l m ++ rest) (a * 2 ^ d + m) (b * 2 ^ d + s)
          (get_or l m x) root
        ≡ inclusion_loop sha512 rest a b (merkle_root sha512 l) root

  Full-zero : Full zero
  unfolding path_fuel merkle_root root_fuel
  Full-zero [] rest m a b s x root n hm ab hs = absurd (omega arith)
  Full-zero (y ∷ []) rest zero a b s x root n hm ab hs =
      loop_cong root refl (omega arith) (omega arith) refl
  Full-zero (y ∷ []) rest (suc m) a b s x root n hm ab hs = absurd (omega arith)
  Full-zero (y ∷ z ∷ l) rest m a b s x root n hm ab hs = absurd (omega arith)

  Full-suc : (d : ℕ) → Full d → Full (suc d)
  Full-suc d ih l rest m a b s x root n hm ab hs =
      let p = pow_double d in
      let pos = pow_pos d in
      let two : 2 ≤ length l = omega arith in
      let k = split_point (length l) in
      let kd : k ≡ 2 ^ d = split_point-pow (length l) d (omega arith) (omega arith) in
      let h = length-halves l two in
      let (b', s', eb, es, eh, lo) = half_level d b s hs in
      elim (Bool-cases (ltb m k)) [
        | inl less ↦
            let lt : m < k = ltb→lt m k less in
            loop_cong root (path_left l rest m two lt) (omega (arith, mul_pow_double a d)) eb
              (sym (get_or-take k m l x lt))
            ∙ ih (take k l) (merkle_root sha512 (drop k l) ∷ rest) m (2 * a) b' s' x root
                (omega arith) (omega arith) (omega arith) es
            ∙ inclusion_loop-step (merkle_root sha512 (drop k l)) rest (2 * a) b'
                (merkle_root sha512 (take k l)) root a (b' / 2) _ (omega arith)
                (step_left sha512 _ _ a b' (omega arith))
            ∙ loop_cong root refl refl eh (sym (merkle_root-split sha512 l two))
        | inr more ↦
            let le : k ≤ m = ground arith in
            let em : k + (m - k) ≡ m = omega arith in
            loop_cong root (path_right l rest m two le) (full_right d a m k kd le) eb
              (sym (get_or-drop k (m - k) l x ∙ ap (λ (i : ℕ). get_or l i x) em))
            ∙ ih (drop k l) (merkle_root sha512 (take k l) ∷ rest) (m - k) (2 * a + 1) b' s' x root
                (omega arith) (omega arith) (omega arith) es
            ∙ inclusion_loop-step (merkle_root sha512 (take k l)) rest (2 * a + 1) b'
                (merkle_root sha512 (drop k l)) root a (b' / 2) _ (omega arith)
                (step_right sha512 _ _ a b')
            ∙ loop_cong root refl refl eh (sym (merkle_root-split sha512 l two))
      ]

  pub Full-subtree : (d : ℕ) → Full d
  Full-subtree zero = Full-zero
  Full-subtree (suc d) = Full-suc d (Full-subtree d)
