-- ===== src/Checkpoint/Binding.antt =====
-- checkpoint.rs: an accepted audit path binds the leaf to its index, unless it exhibits two inputs
-- with one SHA-512 digest.
use nanorix_verify.Prelude.{
  ℕ, zero, suc, ◌-◌, ◌/◌, ◌%◌, ◌<◌, ◌≡◌, ◌≢◌, ◌⊎◌, refl, ap, ◌∙◌, sym, arith, Bytes, List, [], ◌∷◌,
  ◌++◌, Bool, true, false, some, ltb, leb, if◌then◌else◌, Bool-cases, inl, inr, ◌||◌, ◌==◌, length,
  take, drop, get_or, text_eq, text_eq-eq, text_eq_refl, &&_split,
}
use nanorix_verify.Checkpoint.{
  Digest64, split_point, node_hash, merkle_root, root_fuel, path_fuel, inclusion_step, strip,
  inclusion_loop, inclusion_proof, verify_inclusion,
}
use nanorix_verify.Checkpoint.Root.{path}
use nanorix_verify.Checkpoint.Climb.{inclusion_loop-step}
use nanorix_verify.Checkpoint.Inclusion.{verify_inclusion-inclusion_proof}

-- Two inputs with one digest.
abbrev pub Collision : (Bytes → Bytes) → Type 0
Collision hash = (x : Bytes) × (y : Bytes) × (x ≢ y) × (hash x ≡ hash y)

pub equal_or_Collision :
    (hash : Bytes → Bytes) (x y : Bytes) → hash x ≡ hash y → (x ≡ y) ⊎ Collision hash
equal_or_Collision hash x y h = elim (Bool-cases (text_eq x y)) [
  | inl same ↦ inl (text_eq-eq x y same)
  | inr other ↦ inr (x, y, (λ e. differ e other), h)
]
  where
    differ : x ≡ y → text_eq x y ≡ false → ⊥
    differ e f = cc (f, text_eq_refl y, ap (λ (z : Bytes). text_eq z y) e)

pub append_inj : (a b c d : Bytes) → length a ≡ length c → a ++ b ≡ c ++ d → (a ≡ c) × (b ≡ d)
append_inj [] b [] d n h = (refl, h)
append_inj [] b (y ∷ c) d n h = absurd (omega arith)
append_inj (x ∷ a) b [] d n h = absurd (omega arith)
append_inj (x ∷ a) b (y ∷ c) d n h = let (p, q) = append_inj a b c d (omega arith) (cc) in (cc, q)

-- Every digest of a list has the 64 bytes of a `Digest64`.
abbrev pub AreDigests : List Digest64 → Type 0
AreDigests [] = Unit
AreDigests (d ∷ ds) = (length d ≡ 64) × AreDigests ds

pub AreDigests-take : (n : ℕ) (l : List Digest64) → AreDigests l → AreDigests (take n l)
AreDigests-take zero l h = tt
AreDigests-take (suc n) [] h = tt
AreDigests-take (suc n) (x ∷ l) h = (h.0, AreDigests-take n l h.1)

pub AreDigests-drop : (n : ℕ) (l : List Digest64) → AreDigests l → AreDigests (drop n l)
AreDigests-drop zero l h = h
AreDigests-drop (suc n) [] h = tt
AreDigests-drop (suc n) (x ∷ l) h = AreDigests-drop n l h.1

pub AreDigests-concat :
    (l : List Digest64) (d : Digest64) → AreDigests l → length d ≡ 64 → AreDigests (l ++ d ∷ [])
AreDigests-concat [] d h e = (e, tt)
AreDigests-concat (x ∷ l) d h e = (h.0, AreDigests-concat l d h.1 e)

AreDigests-get_or :
    (l : List Digest64) (i : ℕ) (x : Digest64)
    → AreDigests l
    → i < length l
    → length (get_or l i x) ≡ 64
AreDigests-get_or [] i x h lt = elim lt [ ]
AreDigests-get_or (y ∷ l) zero x h lt = h.0
AreDigests-get_or (y ∷ l) (suc i) x h lt = AreDigests-get_or l i x h.1 (omega arith)

module _ (sha512 : Bytes → Bytes) where
  accepted_in_range :
      (leaves : List Digest64) (leaf : Digest64) (index : ℕ) (proof : List Digest64)
      → verify_inclusion sha512 leaf index (length leaves) proof (merkle_root sha512 leaves) ≡ true
      → index < length leaves
  unfolding verify_inclusion
  accepted_in_range leaves leaf index proof h = ground arith

  pub node_hash_inj :
      (a b c d : Digest64)
      → length a ≡ 64
      → length c ≡ 64
      → node_hash sha512 a b ≡ node_hash sha512 c d
      → ((a ≡ c) × (b ≡ d)) ⊎ Collision sha512
  unfolding node_hash
  node_hash_inj a b c d p q h = elim (equal_or_Collision sha512 (1 ∷ a ++ b) (1 ∷ c ++ d) h) [
    | inl e ↦ inl (append_inj a b c d (p ∙ sym q) (cc))
    | inr hit ↦ inr hit
  ]

  -- The side on which a sibling is hashed, and the next position, do not depend on the digests.
  pub step_side :
      (f s : ℕ)
      → (f' : ℕ) × (s' : ℕ) × (((p r : Digest64)
            → inclusion_step sha512 p f s r ≡ (f', s', node_hash sha512 p r))
          ⊎ ((p r : Digest64) → inclusion_step sha512 p f s r ≡ (f', s', node_hash sha512 r p)))
  unfolding inclusion_step
  step_side f s = elim (Bool-cases ((f % 2 == 1) || (f == s))) [
    | inl right ↦
        let next : ℕ × ℕ = if f % 2 == 0 then strip f f s else (f, s) in
        (next.0 / 2, next.1 / 2, inl (λ p r. rw right))
    | inr left ↦ (f / 2, s / 2, inr (λ p r. rw left))
  ]

  pub loop_pos :
      (p : Digest64) (ps : List Digest64) (f s : ℕ) (r root : Digest64)
      → inclusion_loop sha512 (p ∷ ps) f s r root ≡ true
      → 0 < s
  unfolding inclusion_loop
  loop_pos p ps f s r root h = ground arith

  loop_next :
      (p : Digest64) (ps : List Digest64) (f s : ℕ) (r root : Digest64) (f' s' : ℕ) (r' : Digest64)
      → inclusion_loop sha512 (p ∷ ps) f s r root ≡ true
      → inclusion_step sha512 p f s r ≡ (f', s', r')
      → inclusion_loop sha512 ps f' s' r' root ≡ true
  loop_next p ps f s r root f' s' r' h e =
      sym (inclusion_loop-step sha512 p ps f s r root f' s' r' (loop_pos p ps f s r root h) e) ∙ h

  pub loop_nil :
      (f s : ℕ) (r root : Digest64)
      → inclusion_loop sha512 [] f s r root ≡ true
      → (s ≡ 0) × (r ≡ root)
  unfolding inclusion_loop
  loop_nil f s r root h =
      let (a, b) = &&_split (s == 0) (text_eq r root) h in (ground arith, text_eq-eq r root b)

  module _ (size : (b : Bytes) → length (sha512 b) ≡ 64) where
    pub node_size : (a b : Digest64) → length (node_hash sha512 a b) ≡ 64
    unfolding node_hash
    node_size a b = size (1 ∷ a ++ b)

    pub loop_binds :
        (ps qs : List Digest64) (f s : ℕ) (r t root : Digest64)
        → AreDigests ps
        → AreDigests qs
        → length r ≡ 64
        → length t ≡ 64
        → inclusion_loop sha512 ps f s r root ≡ true
        → inclusion_loop sha512 qs f s t root ≡ true
        → ((r ≡ t) × (ps ≡ qs)) ⊎ Collision sha512
    loop_binds [] [] f s r t root dp dq dr dt h k =
        inl ((loop_nil f s r root h).1 ∙ sym (loop_nil f s t root k).1, refl)
    loop_binds [] (q ∷ qs) f s r t root dp dq dr dt h k =
        absurd (omega (arith, (loop_nil f s r root h).0, loop_pos q qs f s t root k))
    loop_binds (p ∷ ps) [] f s r t root dp dq dr dt h k =
        absurd (omega (arith, (loop_nil f s t root k).0, loop_pos p ps f s r root h))
    loop_binds (p ∷ ps) (q ∷ qs) f s r t root dp dq dr dt h k =
        let (f', s', side) = step_side f s in
        elim side [
          | inl right ↦
              elim (loop_binds ps qs f' s' (node_hash sha512 p r) (node_hash sha512 q t) root dp.1
                dq.1 (node_size p r) (node_size q t)
                (loop_next p ps f s r root f' s' _ h (right p r))
                (loop_next q qs f s t root f' s' _ k (right q t))) [
                  | inl (e, same) ↦ elim (node_hash_inj p r q t dp.0 dq.0 e) [
                    | inl (ep, er) ↦ inl (er, cc)
                    | inr hit ↦ inr hit
                  ]
                  | inr hit ↦ inr hit
                ]
          | inr left ↦
              elim (loop_binds ps qs f' s' (node_hash sha512 r p) (node_hash sha512 t q) root dp.1
                dq.1 (node_size r p) (node_size t q)
                (loop_next p ps f s r root f' s' _ h (left p r))
                (loop_next q qs f s t root f' s' _ k (left q t))) [
                  | inl (e, same) ↦ elim (node_hash_inj r p t q dr dt e) [
                    | inl (er, ep) ↦ inl (er, cc)
                    | inr hit ↦ inr hit
                  ]
                  | inr hit ↦ inr hit
                ]
        ]

    pub root_size :
        (fuel : ℕ) (l : List Digest64) → AreDigests l → length (root_fuel sha512 fuel l) ≡ 64
    unfolding root_fuel
    root_size fuel [] d = size []
    root_size fuel (x ∷ []) d = d.0
    root_size zero (x ∷ y ∷ rest) d = size []
    root_size (suc fuel) (x ∷ y ∷ rest) d = node_size _ _

    path_digests :
        (fuel : ℕ) (l : List Digest64) (m : ℕ)
        → AreDigests l
        → AreDigests (path_fuel sha512 fuel l m)
    unfolding path_fuel merkle_root
    path_digests fuel [] m d = tt
    path_digests fuel (x ∷ []) m d = tt
    path_digests zero (x ∷ y ∷ rest) m d = tt
    path_digests (suc fuel) (x ∷ y ∷ rest) m d =
        let l = x ∷ y ∷ rest in
        let k = split_point (length l) in
        elim (Bool-cases (ltb m k)) [
          | inl less ↦ rw less (
              AreDigests-concat (path_fuel sha512 fuel (take k l) m) _
                (path_digests fuel (take k l) m (AreDigests-take k l d))
                (root_size (length (drop k l)) (drop k l) (AreDigests-drop k l d)))
          | inr more ↦ rw more (
              AreDigests-concat (path_fuel sha512 fuel (drop k l) (m - k)) _
                (path_digests fuel (drop k l) (m - k) (AreDigests-drop k l d))
                (root_size (length (take k l)) (take k l) (AreDigests-take k l d)))
        ]

    own_digests :
        (leaves : List Digest64) (index : ℕ) (own : List Digest64)
        → AreDigests leaves
        → inclusion_proof sha512 leaves index ≡ some own
        → AreDigests own
    unfolding inclusion_proof
    own_digests leaves index own d e =
        let same : path sha512 leaves index ≡ own = ground arith in
        rw same at (path_digests (length leaves) leaves index d)

    -- Two leaves that are accepted at the same index, tree size and root are the same leaf, or else
    -- the two accepted paths exhibit a SHA-512 collision. Digests have 64 bytes.
    pub verify_inclusion_binds :
        (leaf leaf' : Digest64) (index tree_size : ℕ) (proof proof' : List Digest64)
        (root : Digest64)
        → AreDigests proof
        → AreDigests proof'
        → length leaf ≡ 64
        → length leaf' ≡ 64
        → verify_inclusion sha512 leaf index tree_size proof root ≡ true
        → verify_inclusion sha512 leaf' index tree_size proof' root ≡ true
        → (leaf ≡ leaf') ⊎ Collision sha512
    unfolding verify_inclusion
    verify_inclusion_binds leaf leaf' i n ps qs root dp dq dl dl' h k =
        elim (loop_binds ps qs i (n - 1) leaf leaf' root dp dq dl dl' (accepted h) (accepted k)) [
          | inl both ↦ inl both.0
          | inr hit ↦ inr hit
        ]
      where
        accepted : {b : Bool} → (if leb n i then false else b) ≡ true → b ≡ true
        accepted {b} e = ground arith

    -- What is accepted against the root of a tree is the leaf at the given index of that tree, and
    -- the index lies in the tree, or else a SHA-512 collision is exhibited. Digests have 64 bytes.
    pub verify_inclusion_sound :
        (leaves : List Digest64) (leaf : Digest64) (index : ℕ) (proof : List Digest64)
        (x : Digest64)
        → AreDigests leaves
        → AreDigests proof
        → length leaf ≡ 64
        → verify_inclusion sha512 leaf index (length leaves) proof (merkle_root sha512 leaves)
          ≡ true
        → (index < length leaves) × ((leaf ≡ get_or leaves index x) ⊎ Collision sha512)
    verify_inclusion_sound leaves leaf index proof x dl dp d h =
        let lt = accepted_in_range leaves leaf index proof h in
        let (own, e, ok) = verify_inclusion-inclusion_proof sha512 leaves index x lt in
        (
          lt,
          verify_inclusion_binds leaf (get_or leaves index x) index (length leaves) proof own
              (merkle_root sha512 leaves) dp (own_digests leaves index own dl e) d
              (AreDigests-get_or leaves index x dl lt) h ok,
        )
