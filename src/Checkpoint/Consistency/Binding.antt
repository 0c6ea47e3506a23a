-- ===== src/Checkpoint/Consistency/Binding.antt =====
-- checkpoint.rs: an accepted consistency proof binds the old root to the first leaves of the new
-- tree, unless it exhibits two inputs with one SHA-512 digest.
use nanorix_verify.Prelude.{
  ℕ, ◌/◌, ◌%◌, ◌<◌, ◌≡◌, refl, ◌∙◌, sym, arith, true, Bool-cases, inl, inr, List, [], ◌∷◌, Bytes,
  ◌==◌, ◌||◌, if◌then◌else◌, text_eq, text_eq-eq, ◌&&◌, &&_split,
}
use nanorix_verify.Checkpoint.{Digest64, strip, node_hash, inclusion_step, inclusion_loop}
use nanorix_verify.Checkpoint.Climb.{inclusion_loop-step}
use nanorix_verify.Checkpoint.Consistency.{consistency_step, consistency_loop}
use nanorix_verify.Checkpoint.Consistency.Rounds.{consistency_loop-step}

module _ (sha512 : Bytes → Bytes) where
  -- How a round hashes, and the next position, depend on the position alone, and the new root's
  -- side of a round is the round of `verify_inclusion`.
  step_shape :
      (f s : ℕ)
      → (f' : ℕ) × (s' : ℕ) × (old_side : Digest64 → Digest64 → Digest64) × (new_side : Digest64
          → Digest64
          → Digest64)
        × ((p fr sr : Digest64)
            → (consistency_step sha512 p f s fr sr ≡ (f', s', old_side p fr, new_side p sr))
              × (inclusion_step sha512 p f s sr ≡ (f', s', new_side p sr)))
  unfolding consistency_step inclusion_step
  step_shape f s = elim (Bool-cases ((f % 2 == 1) || (f == s))) [
    | inl right ↦
        let next : ℕ × ℕ = if f % 2 == 0 then strip f f s else (f, s) in
        (
          next.0 / 2,
          next.1 / 2,
          node_hash sha512,
          node_hash sha512,
          (λ p fr sr. (rw right refl, rw right refl)),
        )
    | inr left ↦ (
      f / 2,
      s / 2,
      (λ p fr. fr),
      (λ p sr. node_hash sha512 sr p),
      (λ p fr sr. (rw left refl, rw left refl)),
    )
  ]

  loop_pos :
      (p : Digest64) (ps : List Digest64) (f s : ℕ) (fr sr old new : Digest64)
      → consistency_loop sha512 (p ∷ ps) f s fr sr old new ≡ true
      → 0 < s
  unfolding consistency_loop
  loop_pos p ps f s fr sr old new h = ground arith

  loop_next :
      (p : Digest64) (ps : List Digest64) (f s : ℕ) (fr sr old new : Digest64) (f' s' : ℕ)
      (fr' sr' : Digest64)
      → consistency_loop sha512 (p ∷ ps) f s fr sr old new ≡ true
      → consistency_step sha512 p f s fr sr ≡ (f', s', fr', sr')
      → consistency_loop sha512 ps f' s' fr' sr' old new ≡ true
  loop_next p ps f s fr sr old new f' s' fr' sr' h e =
      sym (
        consistency_loop-step sha512 old new p ps f s fr sr f' s' fr' sr'
          (loop_pos p ps f s fr sr old new h) e)
      ∙ h

  loop_nil :
      (f s : ℕ) (fr sr old new : Digest64)
      → consistency_loop sha512 [] f s fr sr old new ≡ true
      → fr ≡ old
  unfolding consistency_loop
  loop_nil f s fr sr old new h =
      let (ends, same_new) = &&_split _ _ h in
      let (zeros, same_old) = &&_split _ _ ends in text_eq-eq fr old same_old

  loop_inclusion_nil :
      (f s : ℕ) (fr sr old new : Digest64)
      → consistency_loop sha512 [] f s fr sr old new ≡ true
      → inclusion_loop sha512 [] f s sr new ≡ true
  unfolding consistency_loop inclusion_loop
  loop_inclusion_nil f s fr sr old new h =
      let (ends, same_new) = &&_split ((s == 0) && text_eq fr old) (text_eq sr new) h in
      let (zeros, same_old) = &&_split (s == 0) (text_eq fr old) ends in rw zeros same_new

  -- The new root's side of an accepted run is an accepted run of `verify_inclusion`.
  pub loop_inclusion :
      (ps : List Digest64) (f s : ℕ) (fr sr old new : Digest64)
      → consistency_loop sha512 ps f s fr sr old new ≡ true
      → inclusion_loop sha512 ps f s sr new ≡ true
  loop_inclusion [] f s fr sr old new h = loop_inclusion_nil f s fr sr old new h
  loop_inclusion (p ∷ ps) f s fr sr old new h =
      let (f', s', old_side, new_side, both) = step_shape f s in
      let (here, there) = both p fr sr in
      inclusion_loop-step sha512 p ps f s sr new f' s' _ (loop_pos p ps f s fr sr old new h) there
      ∙ loop_inclusion ps f' s' (old_side p fr) (new_side p sr) old new
          (loop_next p ps f s fr sr old new f' s' _ _ h here)

  -- The old root is determined by the elements and the two digests that the loop starts with.
  pub loop_old :
      (ps : List Digest64) (f s : ℕ) (fr sr old old' new : Digest64)
      → consistency_loop sha512 ps f s fr sr old new ≡ true
      → consistency_loop sha512 ps f s fr sr old' new ≡ true
      → old ≡ old'
  loop_old [] f s fr sr old old' new h k =
      sym (loop_nil f s fr sr old new h) ∙ loop_nil f s fr sr old' new k
  loop_old (p ∷ ps) f s fr sr old old' new h k =
      let (f', s', old_side, new_side, both) = step_shape f s in
      let here = (both p fr sr).0 in
      loop_old ps f' s' (old_side p fr) (new_side p sr) old old' new
        (loop_next p ps f s fr sr old new f' s' _ _ h here)
        (loop_next p ps f s fr sr old' new f' s' _ _ k here)
