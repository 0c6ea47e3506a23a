-- ===== src/Checkpoint/Consistency.antt =====
-- checkpoint.rs: consistency proofs between two sizes of the tree, and their verification.
-- `usize` and `u64` values stay at most the tree size, so no operation here wraps.
pub mod Ones
pub mod Descent
pub mod Rounds
pub mod Climb
pub mod Append
pub mod Binding
pub mod Accepted
pub mod Sound
pub mod Tests
use nanorix_verify.Prelude.{
  ℕ, zero, suc, ◌+◌, ◌-◌, ◌/◌, ◌%◌, Bool, true, false, ◌&&◌, ◌||◌, Option, none, some, List, [],
  ◌∷◌, ◌++◌, Bytes, text_eq, ltb, leb, ◌==◌, if◌then◌else◌, length, take, drop, is_empty,
}
use nanorix_verify.Checkpoint.{Digest64, split_point, strip, node_hash, merkle_root}

-- the number of ones among the bits of a `u64`, on fuel
pub count_ones : ℕ → ℕ → ℕ
count_ones zero n = 0
count_ones (suc fuel) n = n % 2 + count_ones fuel (n / 2)

-- `u64::is_power_of_two`
pub is_power_of_two : ℕ → Bool
is_power_of_two n = count_ones n n == 1

-- `while fnode & 1 == 1 { fnode >>= 1; snode >>= 1 }`, on fuel
pub strip_ones : ℕ → ℕ → ℕ → ℕ × ℕ
strip_ones zero fnode snode = (fnode, snode)
strip_ones (suc fuel) fnode snode =
    let next = strip_ones fuel (fnode / 2) (snode / 2) in
    if fnode % 2 == 1 then next else (fnode, snode)

-- the first `fr` and `sr`, which are the same digest, and the elements that are left to the loop
pub consistency_seed : ℕ → Digest64 → List Digest64 → Option (Digest64 × List Digest64)
consistency_seed old_size old_root proof =
    if is_power_of_two old_size
    then some (old_root, proof)
    else elim proof [ [] ↦ none | first ∷ rest ↦ some (first, rest) ]

module _ (sha512 : Bytes → Bytes) where
  -- the nested `subproof` of `consistency_proof`
  pub subproof : ℕ → List Digest64 → ℕ → Bool → List Digest64
  subproof zero leaves m complete = []
  subproof (suc fuel) leaves m complete =
      let k = split_point (length leaves) in
      elim (m == length leaves) [
        | true ↦ if complete then [] else merkle_root sha512 leaves ∷ []
        | false ↦ elim (leb m k) [
          | true ↦
              subproof fuel (take k leaves) m complete ++ merkle_root sha512 (drop k leaves) ∷ []
          | false ↦
              subproof fuel (drop k leaves) (m - k) false ++ merkle_root sha512 (take k leaves) ∷ []
        ]
      ]

  -- The part shrinks in each call, so as many calls as there are leaves are enough.
  pub consistency_proof : List Digest64 → ℕ → Option (List Digest64)
  consistency_proof leaves old_size =
      if (old_size == 0) || ltb (length leaves) old_size
      then none
      else some (subproof (length leaves) leaves old_size true)

  -- the body of the loop over the rest of `proof` in `verify_consistency`, after its test of `snode`
  pub consistency_step : Digest64 → ℕ → ℕ → Digest64 → Digest64 → ℕ × ℕ × Digest64 × Digest64
  consistency_step p fnode snode fr sr =
      if (fnode % 2 == 1) || (fnode == snode)
      then (let (fnode', snode') =
            if fnode % 2 == 0 then strip fnode fnode snode else (fnode, snode) in
          (fnode' / 2, snode' / 2, node_hash sha512 p fr, node_hash sha512 p sr))
      else (fnode / 2, snode / 2, fr, node_hash sha512 sr p)

  pub consistency_loop : List Digest64 → ℕ → ℕ → Digest64 → Digest64 → Digest64 → Digest64 → Bool
  consistency_loop [] fnode snode fr sr old_root new_root =
      snode == 0 && text_eq fr old_root && text_eq sr new_root
  consistency_loop (p ∷ proof) fnode snode fr sr old_root new_root =
      let (fnode', snode', fr', sr') = consistency_step p fnode snode fr sr in
      elim (snode == 0) [
        | true ↦ false
        | false ↦ consistency_loop proof fnode' snode' fr' sr' old_root new_root
      ]

  pub verify_consistency : ℕ → ℕ → Digest64 → Digest64 → List Digest64 → Bool
  verify_consistency old_size new_size old_root new_root proof =
      if (old_size == 0) || ltb new_size old_size
      then false
      else if old_size == new_size
      then is_empty proof && text_eq old_root new_root
      else elim (consistency_seed old_size old_root proof) [
        | none ↦ false
        | some (seed, rest) ↦
            let (fnode, snode) = strip_ones (old_size - 1) (old_size - 1) (new_size - 1) in
            consistency_loop rest fnode snode seed seed old_root new_root
      ]
