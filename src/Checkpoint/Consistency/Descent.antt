-- ===== src/Checkpoint/Consistency/Descent.antt =====
-- checkpoint.rs: the descent of the nested `subproof` from the root to the subtree whose last leaf is
-- the old tree's last, as a relation without fuel.
use nanorix_verify.Prelude.{
  ℕ, zero, suc, ◌-◌, ◌≤◌, ◌<◌, ◌≡◌, refl, ap, ◌∙◌, sym, arith, Bool-cases, inl, inr, Bool, true,
  false, List, [], ◌∷◌, ◌++◌, Bytes, ltb, ltb→lt, if◌then◌else◌, length, take, drop, take-take,
}
use nanorix_verify.Checkpoint.{Digest64, split_point, merkle_root}
use nanorix_verify.Checkpoint.Split.{split_point_lem}
use nanorix_verify.Checkpoint.Root.{split_bounds, length-halves}
use nanorix_verify.Checkpoint.Consistency.{is_power_of_two, subproof}
use nanorix_verify.Checkpoint.Consistency.Ones.{is_power_of_two-pow, is_power_of_two-between}

module _ (sha512 : Bytes → Bytes) where
  -- `Descent l m seed core`: below `l` the old tree ends after `m` leaves, strictly inside `l`;
  -- `seed` is the root of the subtree that ends there, and `core` the roots hashed on the way up.
  pub data Descent : List Digest64 → ℕ → Digest64 → List Digest64 → Type 0 where
    here :
        (l : List Digest64) (m : ℕ) (seed : Digest64) (core : List Digest64)
        → 2 ≤ length l
        → m ≡ split_point (length l)
        → seed ≡ merkle_root sha512 (take (split_point (length l)) l)
        → core ≡ merkle_root sha512 (drop (split_point (length l)) l) ∷ []
        → Descent l m seed core
    left :
        (l : List Digest64) (m : ℕ) (seed : Digest64) (core below : List Digest64)
        → 2 ≤ length l
        → m < split_point (length l)
        → Descent (take (split_point (length l)) l) m seed below
        → core ≡ below ++ merkle_root sha512 (drop (split_point (length l)) l) ∷ []
        → Descent l m seed core
    right :
        (l : List Digest64) (m : ℕ) (seed : Digest64) (core below : List Digest64)
        → 2 ≤ length l
        → split_point (length l) < m
        → m < length l
        → Descent (drop (split_point (length l)) l) (m - split_point (length l)) seed below
        → core ≡ below ++ merkle_root sha512 (take (split_point (length l)) l) ∷ []
        → Descent l m seed core

  pub subproof-whole :
      (fuel : ℕ) (l : List Digest64) (m : ℕ) (complete : Bool)
      → 0 < fuel
      → m ≡ length l
      → subproof sha512 fuel l m complete ≡ (if complete then [] else merkle_root sha512 l ∷ [])
  unfolding subproof
  subproof-whole zero l m complete pos e = absurd (omega arith)
  subproof-whole (suc fuel) l m complete pos e = ground (arith, e)

  pub subproof-left :
      (fuel : ℕ) (l : List Digest64) (m : ℕ) (complete : Bool)
      → m < length l
      → m ≤ split_point (length l)
      → subproof sha512 (suc fuel) l m complete
        ≡ subproof sha512 fuel (take (split_point (length l)) l) m complete
          ++ merkle_root sha512 (drop (split_point (length l)) l) ∷ []
  unfolding subproof
  subproof-left fuel l m complete lt le = ground arith

  pub subproof-right :
      (fuel : ℕ) (l : List Digest64) (m : ℕ) (complete : Bool)
      → m < length l
      → split_point (length l) < m
      → subproof sha512 (suc fuel) l m complete
        ≡ subproof sha512 fuel (drop (split_point (length l)) l) (m - split_point (length l)) false
          ++ merkle_root sha512 (take (split_point (length l)) l) ∷ []
  unfolding subproof
  subproof-right fuel l m complete lt gt = ground arith

  -- What the descent from `l` gives, with and without the flag of the nested `subproof`.
  abbrev pub Descends : ℕ → List Digest64 → ℕ → Type 0
  Descends fuel l m =
      (seed : Digest64) × (core : List Digest64) × (Descent l m seed core)
      × (subproof sha512 fuel l m false ≡ seed ∷ core)
      × (subproof sha512 fuel l m true ≡ (if is_power_of_two m then core else seed ∷ core))
      × (is_power_of_two m ≡ true → seed ≡ merkle_root sha512 (take m l))

  descend_here :
      (fuel : ℕ) (l : List Digest64) (m : ℕ)
      → 0 < fuel
      → 2 ≤ length l
      → m ≡ split_point (length l)
      → Descends (suc fuel) l m
  descend_here fuel l m pos two e =
      let k = split_point (length l) in
      let (d, kd, low, high) = split_point_lem (length l) two in
      let whole : m ≡ length (take k l) = e ∙ sym (length-halves l two).0 in
      let power : is_power_of_two m ≡ true = ap is_power_of_two (e ∙ kd) ∙ is_power_of_two-pow d in
      let lt : m < length l = omega arith in
      let last = merkle_root sha512 (drop k l) ∷ [] in
      (
        merkle_root sha512 (take k l),
        last,
        here l m _ _ two e refl refl,
        subproof-left fuel l m false lt (omega arith)
            ∙ ap (λ (t : List Digest64). t ++ last)
                (subproof-whole fuel (take k l) m false pos whole),
        subproof-left fuel l m true lt (omega arith)
            ∙ ap (λ (t : List Digest64). t ++ last)
                (subproof-whole fuel (take k l) m true pos whole)
            ∙ rw power refl,
        (λ _. ap (λ (i : ℕ). merkle_root sha512 (take i l)) (sym e)),
      )

  append-if :
      (b : Bool) (seed : Digest64) (core last : List Digest64)
      → (if b then core else seed ∷ core) ++ last
        ≡ (if b then core ++ last else seed ∷ (core ++ last))
  append-if true seed core last = refl
  append-if false seed core last = refl

  descend_left :
      (fuel : ℕ) (l : List Digest64) (m : ℕ)
      → 2 ≤ length l
      → m < split_point (length l)
      → Descends fuel (take (split_point (length l)) l) m
      → Descends (suc fuel) l m
  descend_left fuel l m two lt (seed, core, d, plain, flagged, top) =
      let k = split_point (length l) in
      let b = split_bounds (length l) two in
      let last = merkle_root sha512 (drop k l) ∷ [] in
      (
        seed,
        core ++ last,
        left l m seed _ core two lt d refl,
        subproof-left fuel l m false (omega arith) (omega arith)
            ∙ ap (λ (t : List Digest64). t ++ last) plain,
        subproof-left fuel l m true (omega arith) (omega arith)
            ∙ ap (λ (t : List Digest64). t ++ last) flagged
            ∙ append-if (is_power_of_two m) seed core last,
        (λ p. top p ∙ ap (merkle_root sha512) (take-take m k l (omega arith))),
      )

  descend_right :
      (fuel : ℕ) (l : List Digest64) (m : ℕ)
      → 2 ≤ length l
      → split_point (length l) < m
      → m < length l
      → Descends fuel (drop (split_point (length l)) l) (m - split_point (length l))
      → Descends (suc fuel) l m
  descend_right fuel l m two gt lt (seed, core, d, plain, flagged, top) =
      let k = split_point (length l) in
      let (e, ke, low, high) = split_point_lem (length l) two in
      let other : is_power_of_two m ≡ false =
        is_power_of_two-between e m (omega arith) (omega arith) in
      let last = merkle_root sha512 (take k l) ∷ [] in
      (
        seed,
        core ++ last,
        right l m seed _ core two gt lt d refl,
        subproof-right fuel l m false lt gt ∙ ap (λ (t : List Digest64). t ++ last) plain,
        subproof-right fuel l m true lt gt
            ∙ ap (λ (t : List Digest64). t ++ last) plain
            ∙ rw other refl,
        (λ p. absurd (cc (p, other))),
      )

  pub descend :
      (fuel : ℕ) (l : List Digest64) (m : ℕ)
      → length l ≤ fuel
      → 0 < m
      → m < length l
      → Descends fuel l m
  descend zero l m fits pos inside = absurd (omega arith)
  descend (suc fuel) l m fits pos inside =
      let two : 2 ≤ length l = omega arith in
      let k = split_point (length l) in
      let h = length-halves l two in
      let b = split_bounds (length l) two in
      elim (Bool-cases (ltb m k)) [
        | inl less ↦
            descend_left fuel l m two (ltb→lt m k less)
              (descend fuel (take k l) m (omega arith) pos (ground arith))
        | inr more ↦ elim (Bool-cases (ltb k m)) [
          | inl above ↦
              let gt : k < m = ltb→lt k m above in
              descend_right fuel l m two gt inside
                (descend fuel (drop k l) (m - k) (omega arith) (omega arith) (omega arith))
          | inr level ↦ descend_here fuel l m (omega arith) two (ground arith)
        ]
      ]
