-- ===== src/Checkpoint/Consistency/Accepted.antt =====
-- checkpoint.rs: what `verify_consistency` has checked when it accepts, and that the sizes and the
-- new root leave only one old root to accept.
use nanorix_verify.Prelude.{
  ℕ, ◌-◌, ◌≤◌, ◌<◌, ◌≡◌, ◌⊎◌, refl, ap, ◌∙◌, sym, arith, true, false, Bool-cases, Option,
  Option-cases, inl, inr, none, some, List, [], ◌∷◌, Bytes, length, ◌==◌, ◌&&◌, ltb, ltb→lt,
  text_eq, text_eq-eq, &&_split, is_empty,
}
use nanorix_verify.Checkpoint.{Digest64}
use nanorix_verify.Checkpoint.Binding.{Collision, AreDigests, loop_binds}
use nanorix_verify.Checkpoint.Consistency.{
  is_power_of_two, strip_ones, consistency_seed, verify_consistency,
}
use nanorix_verify.Checkpoint.Consistency.Binding.{loop_inclusion, loop_old}
use nanorix_verify.Checkpoint.Consistency.Climb.{run}
use nanorix_verify.Checkpoint.Consistency.Append.{verify_consistency-run}

-- The loop starts with the old root and the whole proof, or else with the proof's first element.
seed_cases :
    (m : ℕ) (old seed : Digest64) (proof core : List Digest64)
    → consistency_seed m old proof ≡ some (seed, core)
    → ((seed ≡ old) × (core ≡ proof)) ⊎ (proof ≡ seed ∷ core)
unfolding consistency_seed
seed_cases m old seed proof core e = elim (Bool-cases (is_power_of_two m)) [
  | inl power ↦
      let e' : some (old, proof) ≡ some (seed, core) = rw power at e in
      let pair : (old, proof) ≡ (seed, core) = cc in
      inl (
        sym (ap (λ (x : Digest64 × List Digest64). x.0) pair),
        sym (ap (λ (x : Digest64 × List Digest64). x.1) pair),
      )
  | inr other ↦ inr (go proof (rw other at e))
]
  where
    go :
        (ps : List Digest64)
        → (elim ps as (λ _. Option (Digest64 × List Digest64)) [
          | [] ↦ none
          | p ∷ rest ↦ some (p, rest)
        ])
          ≡ some (seed, core)
        → ps ≡ seed ∷ core
    go [] f = absurd (cc f)
    go (p ∷ rest) f =
        let pair : (p, rest) ≡ (seed, core) = cc in
        ap (λ (x : Digest64 × List Digest64). x.0 ∷ x.1) pair

seed_digests :
    (m : ℕ) (old seed : Digest64) (proof core : List Digest64)
    → AreDigests proof
    → length old ≡ 64
    → consistency_seed m old proof ≡ some (seed, core)
    → (length seed ≡ 64) × AreDigests core
seed_digests m old seed proof core dp d e = elim (seed_cases m old seed proof core e) [
  | inl (es, ec) ↦ (ap length es ∙ d, rw (← ec) at dp)
  | inr ep ↦ rw ep at dp
]

module _ (sha512 : Bytes → Bytes) where
  pub accepted_in_range :
      (m n : ℕ) (old new : Digest64) (proof : List Digest64)
      → verify_consistency sha512 m n old new proof ≡ true
      → (0 < m) × (m ≤ n)
  unfolding verify_consistency
  accepted_in_range m n old new proof h = (ground arith, ground arith)

  same_size :
      (m n : ℕ) (old new : Digest64) (proof : List Digest64)
      → 0 < m
      → m ≡ n
      → verify_consistency sha512 m n old new proof ≡ is_empty proof && text_eq old new
  unfolding verify_consistency
  same_size m n old new proof pos e =
      let z : (m == 0) ≡ false = ground arith in
      let o : ltb n m ≡ false = ground arith in
      let s : (m == n) ≡ true = ground arith in rw z (rw o (rw s refl))

  accepted_same :
      (m n : ℕ) (old new : Digest64) (proof : List Digest64)
      → m ≡ n
      → verify_consistency sha512 m n old new proof ≡ true
      → old ≡ new
  accepted_same m n old new proof e h =
      let pos = (accepted_in_range m n old new proof h).0 in
      text_eq-eq old new (
        (&&_split (is_empty proof) (text_eq old new)
          (sym (same_size m n old new proof pos e) ∙ h)).1)

  no_seed_rejected :
      (m n : ℕ) (old new : Digest64) (proof : List Digest64)
      → m < n
      → consistency_seed m old proof ≡ none
      → verify_consistency sha512 m n old new proof ≡ false
  unfolding verify_consistency
  no_seed_rejected m n old new proof lt e =
      let s : (m == n) ≡ false = ground arith in rw s (rw e (ground arith))

  accepted_run :
      (m n : ℕ) (old new : Digest64) (proof : List Digest64)
      → m < n
      → verify_consistency sha512 m n old new proof ≡ true
      → (seed : Digest64) × (core : List Digest64) × (consistency_seed m old proof
          ≡ some (seed, core))
        × (run sha512 old new core (m - 1) (n - 1) seed ≡ true)
  accepted_run m n old new proof lt h = elim (Option-cases (consistency_seed m old proof)) [
    | inl e ↦ absurd (cc (h, no_seed_rejected m n old new proof lt e))
    | inr ((seed, core), e) ↦
        let pos = (accepted_in_range m n old new proof h).0 in
        (
          seed,
          core,
          e,
          sym (verify_consistency-run sha512 m n old new proof seed core pos lt e) ∙ h,
        )
  ]

  module _ (size : (b : Bytes) → length (sha512 b) ≡ 64) where
    -- Two runs of the loop from one position to one new root start with the same digests, and then
    -- have the same old root, or else a collision is exhibited.
    runs_bind :
        (f s : ℕ) (seed seed' old old' new : Digest64) (core core' : List Digest64)
        → AreDigests core
        → AreDigests core'
        → length seed ≡ 64
        → length seed' ≡ 64
        → run sha512 old new core f s seed ≡ true
        → run sha512 old' new core' f s seed' ≡ true
        → (old ≡ old') ⊎ Collision sha512
    runs_bind f s seed seed' old old' new core core' dc dc' ds ds' h k =
        let (f', s') = strip_ones f f s in
        elim (loop_binds sha512 size core core' f' s' seed seed' new dc dc' ds ds'
          (loop_inclusion sha512 core f' s' seed seed old new h)
          (loop_inclusion sha512 core' f' s' seed' seed' old' new k)) [
            | inl (es, ec) ↦
                inl (loop_old sha512 core f' s' seed seed old old' new h (rw es (rw ec k)))
            | inr hit ↦ inr hit
          ]

    pub verify_consistency_binds :
        (m n : ℕ) (old old' new : Digest64) (proof proof' : List Digest64)
        → AreDigests proof
        → AreDigests proof'
        → length old ≡ 64
        → length old' ≡ 64
        → verify_consistency sha512 m n old new proof ≡ true
        → verify_consistency sha512 m n old' new proof' ≡ true
        → (old ≡ old') ⊎ Collision sha512
    verify_consistency_binds m n old old' new proof proof' dp dp' d d' h k =
        elim (Bool-cases (ltb m n)) [
          | inl earlier ↦
              let lt = ltb→lt m n earlier in
              let (seed, core, e, run_ok) = accepted_run m n old new proof lt h in
              let (seed', core', e', run_ok') = accepted_run m n old' new proof' lt k in
              let (ds, dc) = seed_digests m old seed proof core dp d e in
              let (ds', dc') = seed_digests m old' seed' proof' core' dp' d' e' in
              runs_bind (m - 1) (n - 1) seed seed' old old' new core core' dc dc' ds ds' run_ok
                run_ok'
          | inr no_earlier ↦
              let le = (accepted_in_range m n old new proof h).1 in
              let same : m ≡ n = ground arith in
              inl (
                accepted_same m n old new proof same h
                ∙ sym (accepted_same m n old' new proof' same k))
        ]
