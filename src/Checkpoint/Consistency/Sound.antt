-- ===== src/Checkpoint/Consistency/Sound.antt =====
-- checkpoint.rs: an accepted consistency proof shows that the log was only appended to: the old
-- tree's leaves are the first leaves of the new tree.
use nanorix_verify.Prelude.{
  ℕ, zero, suc, ◌-◌, ◌≤◌, ◌<◌, ◌≡◌, ◌⊎◌, refl, ap, ◌∙◌, sym, arith, Bool, true, false, Bool-cases,
  inl, inr, some, List, [], ◌∷◌, ◌++◌, Bytes, length, take, drop, ltb, ltb→lt, if◌then◌else◌,
  length-take_le, length-drop, take-append-drop,
}
use nanorix_verify.Checkpoint.{Digest64, split_point, merkle_root}
use nanorix_verify.Checkpoint.Root.{length-halves, split_bounds, merkle_root-split, merkle_root-one}
use nanorix_verify.Checkpoint.Binding.{
  Collision, AreDigests, AreDigests-take, AreDigests-drop, AreDigests-concat, node_hash_inj,
  root_size,
}
use nanorix_verify.Checkpoint.Consistency.{subproof, consistency_proof, verify_consistency}
use nanorix_verify.Checkpoint.Consistency.Accepted.{accepted_in_range, verify_consistency_binds}
use nanorix_verify.Checkpoint.Consistency.Descent.{subproof-whole, subproof-left, subproof-right}
use mathlib.Core.Path.{subst, ap₂}
use nanorix_verify.Checkpoint.Consistency.Append.{verify_consistency-consistency_proof}

module _ (sha512 : Bytes → Bytes) where
  module _ (size : (b : Bytes) → length (sha512 b) ≡ 64) where
    whole_digests :
        (complete : Bool) (l : List Digest64)
        → AreDigests l
        → AreDigests (if complete then [] else merkle_root sha512 l ∷ [])
    unfolding merkle_root
    whole_digests true l d = tt
    whole_digests false l d = (root_size sha512 size (length l) l d, tt)

    subproof_digests :
        (fuel : ℕ) (l : List Digest64) (m : ℕ) (complete : Bool)
        → AreDigests l
        → length l ≤ fuel
        → 0 < m
        → m ≤ length l
        → AreDigests (subproof sha512 fuel l m complete)
    unfolding merkle_root
    subproof_digests zero l m complete d fits pos le = absurd (omega arith)
    subproof_digests (suc fuel) l m complete d fits pos le =
        let k = split_point (length l) in
        elim (Bool-cases (ltb m (length l))) [
          | inr whole ↦
              subst AreDigests
                (sym (subproof-whole sha512 (suc fuel) l m complete (omega arith) (ground arith)))
                (whole_digests complete l d)
          | inl part ↦
              let lt : m < length l = ltb→lt m (length l) part in
              let h = length-halves l (omega arith) in
              let b = split_bounds (length l) (omega arith) in
              elim (Bool-cases (ltb k m)) [
                | inr low ↦
                    let le' : m ≤ k = ground arith in
                    subst AreDigests (sym (subproof-left sha512 fuel l m complete lt le')) (
                      AreDigests-concat _ _
                        (subproof_digests fuel (take k l) m complete (AreDigests-take k l d)
                          (omega arith) pos (omega arith))
                        (root_size sha512 size (length (drop k l)) (drop k l)
                          (AreDigests-drop k l d)))
                | inl high ↦
                    let gt : k < m = ltb→lt k m high in
                    subst AreDigests (sym (subproof-right sha512 fuel l m complete lt gt)) (
                      AreDigests-concat _ _
                        (subproof_digests fuel (drop k l) (m - k) false (AreDigests-drop k l d)
                          (omega arith) (omega arith) (omega arith))
                        (root_size sha512 size (length (take k l)) (take k l)
                          (AreDigests-take k l d)))
              ]
        ]

    own_digests :
        (leaves : List Digest64) (m : ℕ) (own : List Digest64)
        → AreDigests leaves
        → 0 < m
        → m ≤ length leaves
        → consistency_proof sha512 leaves m ≡ some own
        → AreDigests own
    unfolding consistency_proof
    own_digests leaves m own d pos le e =
        let same : subproof sha512 (length leaves) leaves m true ≡ own = ground arith in
        rw same at (subproof_digests (length leaves) leaves m true d (omega arith) pos le)

    -- What is accepted as the root of an earlier size of a tree, against the tree's own root and
    -- size, is the root of that many first leaves, and the size is from one to the tree's, or else
    -- a SHA-512 collision is exhibited. Digests have 64 bytes.
    pub verify_consistency_sound :
        (leaves : List Digest64) (old_size : ℕ) (old_root : Digest64) (proof : List Digest64)
        → AreDigests leaves
        → AreDigests proof
        → length old_root ≡ 64
        → verify_consistency sha512 old_size
            (length leaves)
            old_root
            (merkle_root sha512 leaves)
            proof
          ≡ true
        → (0 < old_size)
          × (old_size ≤ length leaves)
          × ((old_root ≡ merkle_root sha512 (take old_size leaves)) ⊎ Collision sha512)
    unfolding merkle_root
    verify_consistency_sound leaves m old proof dl dp d h =
        let new = merkle_root sha512 leaves in
        let (pos, le) = accepted_in_range sha512 m (length leaves) old new proof h in
        let (own, e, ok) = verify_consistency-consistency_proof sha512 leaves m pos le in
        let honest = take m leaves in
        (
          pos,
          le,
          verify_consistency_binds sha512 size m (length leaves) old (merkle_root sha512 honest) new
              proof own dp (own_digests leaves m own dl pos le e) d
              (root_size sha512 size (length honest) honest (AreDigests-take m leaves dl)) h ok,
        )

    -- Equal roots of trees of one size have equal parts.
    roots_part :
        (l l' : List Digest64) (k : ℕ)
        → 2 ≤ length l
        → length l ≡ length l'
        → k ≡ split_point (length l)
        → AreDigests l
        → AreDigests l'
        → merkle_root sha512 l ≡ merkle_root sha512 l'
        → ((merkle_root sha512 (take k l) ≡ merkle_root sha512 (take k l'))
            × (merkle_root sha512 (drop k l) ≡ merkle_root sha512 (drop k l')))
          ⊎ Collision sha512
    unfolding merkle_root
    roots_part l l' k two n ek d d' e =
        let ek' : k ≡ split_point (length l') = ek ∙ ap split_point n in
        let whole = merkle_root-split sha512 l two in
        let whole' = merkle_root-split sha512 l' (omega arith) in
        node_hash_inj sha512 (merkle_root sha512 (take k l)) (merkle_root sha512 (drop k l))
          (merkle_root sha512 (take k l')) (merkle_root sha512 (drop k l'))
          (root_size sha512 size (length (take k l)) (take k l) (AreDigests-take k l d))
          (root_size sha512 size (length (take k l')) (take k l') (AreDigests-take k l' d'))
          (rw (← ek) at (sym whole) ∙ e ∙ rw (← ek') at whole')

    -- Trees of one size with one root have the same leaves.
    merkle_root_inj :
        (fuel : ℕ) (l l' : List Digest64)
        → length l ≤ fuel
        → length l ≡ length l'
        → AreDigests l
        → AreDigests l'
        → merkle_root sha512 l ≡ merkle_root sha512 l'
        → (l ≡ l') ⊎ Collision sha512
    merkle_root_inj fuel [] [] fits n d d' e = inl refl
    merkle_root_inj fuel [] (y ∷ l') fits n d d' e = absurd (omega arith)
    merkle_root_inj fuel (x ∷ l) [] fits n d d' e = absurd (omega arith)
    merkle_root_inj fuel (x ∷ []) (y ∷ []) fits n d d' e = inl (
        ap (λ (z : Digest64). z ∷ [])
          (sym (merkle_root-one sha512 x) ∙ e ∙ merkle_root-one sha512 y))
    merkle_root_inj fuel (x ∷ []) (y ∷ y' ∷ l') fits n d d' e = absurd (omega arith)
    merkle_root_inj fuel (x ∷ x' ∷ l) (y ∷ []) fits n d d' e = absurd (omega arith)
    merkle_root_inj zero (x ∷ x' ∷ l) (y ∷ y' ∷ l') fits n d d' e = absurd (omega arith)
    merkle_root_inj (suc fuel) (x ∷ x' ∷ l) (y ∷ y' ∷ l') fits n d d' e =
        let old = x ∷ x' ∷ l in
        let new = y ∷ y' ∷ l' in
        let k = split_point (length old) in
        let b = split_bounds (length old) (omega arith) in
        let left_size = length-take_le k old (omega arith) in
        let left_size' = length-take_le k new (omega arith) in
        let right_size = length-drop k old in
        let right_size' = length-drop k new in
        elim (roots_part old new k (omega arith) n refl d d' e) [
          | inr hit ↦ inr hit
          | inl (e_left, e_right) ↦
              elim (merkle_root_inj fuel (take k old) (take k new) (omega arith) (omega arith)
                (AreDigests-take k old d) (AreDigests-take k new d') e_left) [
                  | inr hit ↦ inr hit
                  | inl same_left ↦
                      elim (merkle_root_inj fuel (drop k old) (drop k new) (omega arith)
                        (omega arith) (AreDigests-drop k old d) (AreDigests-drop k new d')
                        e_right) [
                          | inr hit ↦ inr hit
                          | inl same_right ↦ inl (
                              sym (take-append-drop k old)
                              ∙ ap₂ (λ (u v : List Digest64). u ++ v) same_left same_right
                              ∙ take-append-drop k new)
                        ]
                ]
        ]

    -- A log can only be appended to: when a consistency proof is accepted for the sizes and roots of
    -- two trees, the old tree's leaves are the first leaves of the new tree, or else a SHA-512
    -- collision is exhibited. Digests have 64 bytes.
    pub verify_consistency_append_only :
        (olds news : List Digest64) (proof : List Digest64)
        → AreDigests olds
        → AreDigests news
        → AreDigests proof
        → verify_consistency sha512
            (length olds)
            (length news)
            (merkle_root sha512 olds)
            (merkle_root sha512 news)
            proof
          ≡ true
        → (olds ≡ take (length olds) news) ⊎ Collision sha512
    unfolding merkle_root
    verify_consistency_append_only olds news proof d d' dp h =
        let (pos, le, bound) =
          verify_consistency_sound news (length olds) (merkle_root sha512 olds) proof d' dp
            (root_size sha512 size (length olds) olds d) h in
        elim bound [
          | inr hit ↦ inr hit
          | inl same ↦
              merkle_root_inj (length olds) olds (take (length olds) news) (omega arith)
                (sym (length-take_le (length olds) news le)) d
                (AreDigests-take (length olds) news d') same
        ]
