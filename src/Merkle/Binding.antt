-- ===== src/Merkle/Binding.antt =====
-- lib.rs: `verifier_merkle_root` binds the leaves of lists of one size, unless it exhibits two
-- inputs with one SHA-512 digest. The `hex` crate is taken to print different digests differently,
-- in 128 characters without the prefix `sha512:`.
use nanorix_verify.Prelude.{
  ℕ, zero, suc, ◌≡◌, ◌⊎◌, refl, ap, sym, ◌∙◌, arith, some, inl, inr, List, [], ◌∷◌, ◌++◌, All, map,
  Text, Bytes, length,
}
use nanorix_verify.Libs.{Libs}
use nanorix_verify.Steps.{strip_hash_prefix}
use nanorix_verify.Checkpoint.Binding.{Collision, equal_or_Collision, append_inj}
use nanorix_verify.Merkle.{verifier_merkle_pair_hash, next_level, levels, verifier_merkle_root}
use mathlib.Core.Path.{ap₂}

-- A digest in hex as the tree takes it.
abbrev pub IsHash : Text → Type 0
IsHash t = (length t ≡ 128) × (strip_hash_prefix t ≡ t)

module _ (lib : Libs) where
  open lib use {sha512, hex_encode}

  module _
      (hex_inj : (x y : Bytes)
        → hex_encode (sha512 x) ≡ hex_encode (sha512 y)
        → sha512 x ≡ sha512 y)
      (hex_hash : (x : Bytes) → IsHash (hex_encode (sha512 x))) where
    pub hashed_inj :
        (x y : Bytes) → hex_encode (sha512 x) ≡ hex_encode (sha512 y) → (x ≡ y) ⊎ Collision sha512
    hashed_inj x y e = equal_or_Collision sha512 x y (hex_inj x y e)

    pair_plain :
        (a b : Text)
        → IsHash a
        → IsHash b
        → verifier_merkle_pair_hash lib a b ≡ hex_encode (sha512 (a ++ (0 ∷ b)))
    unfolding verifier_merkle_pair_hash
    pair_plain a b ha hb = ap₂ (λ (u v : Text). hex_encode (sha512 (u ++ (0 ∷ v)))) ha.1 hb.1

    pair_inj :
        (a b c d : Text)
        → IsHash a
        → IsHash b
        → IsHash c
        → IsHash d
        → verifier_merkle_pair_hash lib a b ≡ verifier_merkle_pair_hash lib c d
        → ((a ≡ c) × (b ≡ d)) ⊎ Collision sha512
    pair_inj a b c d ha hb hc hd e =
        elim (hashed_inj (a ++ (0 ∷ b)) (c ++ (0 ∷ d))
          (sym (pair_plain a b ha hb) ∙ e ∙ pair_plain c d hc hd)) [
            | inr hit ↦ inr hit
            | inl same ↦
                let (p, q) = append_inj a (0 ∷ b) c (0 ∷ d) (ha.0 ∙ sym hc.0) same in inl (p, cc q)
          ]

    next_level-IsHash : (l : List Text) → All IsHash (next_level lib l)
    unfolding next_level verifier_merkle_pair_hash
    next_level-IsHash [] = tt
    next_level-IsHash (x ∷ []) = (hex_hash _, tt)
    next_level-IsHash (x ∷ y ∷ l) = (hex_hash _, next_level-IsHash l)

    length-next_level_cong :
        (l m : List Text)
        → length l ≡ length m
        → length (next_level lib l) ≡ length (next_level lib m)
    unfolding next_level
    length-next_level_cong [] [] n = refl
    length-next_level_cong [] (y ∷ m) n = absurd (omega arith)
    length-next_level_cong (x ∷ l) [] n = absurd (omega arith)
    length-next_level_cong (x ∷ []) (y ∷ []) n = refl
    length-next_level_cong (x ∷ []) (y ∷ v ∷ m) n = absurd (omega arith)
    length-next_level_cong (x ∷ u ∷ l) (y ∷ []) n = absurd (omega arith)
    length-next_level_cong (x ∷ u ∷ l) (y ∷ v ∷ m) n =
        omega (arith, length-next_level_cong l m (omega arith))

    next_level_inj :
        (l m : List Text)
        → length l ≡ length m
        → All IsHash l
        → All IsHash m
        → next_level lib l ≡ next_level lib m
        → (l ≡ m) ⊎ Collision sha512
    unfolding next_level
    next_level_inj [] [] n hl hm e = inl refl
    next_level_inj [] (y ∷ m) n hl hm e = absurd (omega arith)
    next_level_inj (x ∷ l) [] n hl hm e = absurd (omega arith)
    next_level_inj (x ∷ []) (y ∷ v ∷ m) n hl hm e = absurd (omega arith)
    next_level_inj (x ∷ u ∷ l) (y ∷ []) n hl hm e = absurd (omega arith)
    next_level_inj (x ∷ []) (y ∷ []) n hl hm e =
        elim (pair_inj x x y y hl.0 hl.0 hm.0 hm.0 (cc e)) [
          | inr hit ↦ inr hit
          | inl (p, q) ↦ inl (ap (λ (t : Text). t ∷ []) p)
        ]
    next_level_inj (x ∷ u ∷ l) (y ∷ v ∷ m) n hl hm e =
        elim (pair_inj x u y v hl.0 hl.1.0 hm.0 hm.1.0 (cc e)) [
          | inr hit ↦ inr hit
          | inl (p, q) ↦ elim (next_level_inj l m (omega arith) hl.1.1 hm.1.1 (cc e)) [
            | inr hit ↦ inr hit
            | inl rest ↦ inl (cc (p, q, rest))
          ]
        ]

    levels_inj :
        (fuel : ℕ) (l m : List Text) (r : Text)
        → length l ≡ length m
        → All IsHash l
        → All IsHash m
        → levels lib fuel l ≡ some r
        → levels lib fuel m ≡ some r
        → (l ≡ m) ⊎ Collision sha512
    unfolding levels
    levels_inj fuel [] m r n hl hm e f = absurd (cc e)
    levels_inj fuel (x ∷ l) [] r n hl hm e f = absurd (cc f)
    levels_inj fuel (x ∷ []) (y ∷ []) r n hl hm e f = inl (cc (e, f))
    levels_inj fuel (x ∷ []) (y ∷ v ∷ m) r n hl hm e f = absurd (omega arith)
    levels_inj fuel (x ∷ u ∷ l) (y ∷ []) r n hl hm e f = absurd (omega arith)
    levels_inj zero (x ∷ u ∷ l) (y ∷ v ∷ m) r n hl hm e f = absurd (cc e)
    levels_inj (suc fuel) (x ∷ u ∷ l) (y ∷ v ∷ m) r n hl hm e f =
        elim (levels_inj fuel (next_level lib (x ∷ u ∷ l)) (next_level lib (y ∷ v ∷ m)) r
          (length-next_level_cong (x ∷ u ∷ l) (y ∷ v ∷ m) n) (next_level-IsHash (x ∷ u ∷ l))
          (next_level-IsHash (y ∷ v ∷ m)) e f) [
            | inr hit ↦ inr hit
            | inl same ↦ next_level_inj (x ∷ u ∷ l) (y ∷ v ∷ m) n hl hm same
          ]

    levels-IsHash :
        (fuel : ℕ) (l : List Text) (r : Text) → All IsHash l → levels lib fuel l ≡ some r → IsHash r
    unfolding levels
    levels-IsHash fuel [] r hl e = absurd (cc e)
    levels-IsHash fuel (x ∷ []) r hl e = let same : x ≡ r = cc e in rw same at hl.0
    levels-IsHash zero (x ∷ u ∷ l) r hl e = absurd (cc e)
    levels-IsHash (suc fuel) (x ∷ u ∷ l) r hl e =
        levels-IsHash fuel (next_level lib (x ∷ u ∷ l)) r (next_level-IsHash (x ∷ u ∷ l)) e

    map-strip : (l : List Text) → All IsHash l → map strip_hash_prefix l ≡ l
    map-strip [] h = refl
    map-strip (x ∷ l) h = cc (h.0.1, map-strip l h.1)

    pub verifier_merkle_root-IsHash :
        (l : List Text) (r : Text) → All IsHash l → verifier_merkle_root lib l ≡ some r → IsHash r
    unfolding verifier_merkle_root
    verifier_merkle_root-IsHash l r h e = levels-IsHash (length l) l r h (rw (map-strip l h) at e)

    pub verifier_merkle_root_inj :
        (l m : List Text) (r : Text)
        → length l ≡ length m
        → All IsHash l
        → All IsHash m
        → verifier_merkle_root lib l ≡ some r
        → verifier_merkle_root lib m ≡ some r
        → (l ≡ m) ⊎ Collision sha512
    unfolding verifier_merkle_root
    verifier_merkle_root_inj l m r n hl hm e f =
        levels_inj (length l) l m r n hl hm (rw (map-strip l hl) at e)
          (rw (← n) at (rw (map-strip m hm) at f))
