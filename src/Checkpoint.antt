-- ===== src/Checkpoint.antt =====
-- tools/nanorix-verify/src/checkpoint.rs: the transparency checkpoint, an append-only SHA-512
-- Merkle tree with RFC 9162 inclusion proofs; the child Consistency has the consistency proofs.
-- `sha512` is the `sha2` crate's.
-- A digest is the list of its 64 bytes; `usize` and `u64` values stay below the tree size, so no
-- operation here wraps.
pub mod Split
pub mod Root
pub mod Walk
pub mod Climb
pub mod Inclusion
pub mod Binding
pub mod Document
pub mod Leaves
pub mod Consistency
pub mod Tests
use nanorix_verify.Prelude.{
  ℕ, zero, suc, ◌+◌, ◌-◌, ◌*◌, ◌/◌, ◌%◌, Bool, true, false, not, ◌&&◌, ◌||◌, Option, none, some,
  List, [], ◌∷◌, ◌++◌, Text, Bytes, text, text_eq, ltb, leb, ◌==◌, if◌then◌else◌, length, take,
  drop,
}
use mathlib.Core.Option

abbrev pub Digest64 : Type 0
Digest64 = Bytes

pub record AttestationEnvelope : Type 0 where
  pub algorithm : Text
  pub key_id : Text
  pub public_key : Text
  pub signature : Text
  pub pqc_signature : Option Text

-- `while k * 2 < n { k *= 2 }`, on fuel
split_loop : ℕ → ℕ → ℕ → ℕ
split_loop zero n k = k
split_loop (suc fuel) n k =
    let next = split_loop fuel n (k * 2) in if ltb (k * 2) n then next else k

-- Each round at least adds one to `k`, so `n` rounds are enough.
pub split_point : ℕ → ℕ
split_point n = split_loop n n 1

-- `while fnode & 1 == 0 && fnode != 0 { fnode >>= 1; snode >>= 1 }`, on fuel
pub strip : ℕ → ℕ → ℕ → ℕ × ℕ
strip zero fnode snode = (fnode, snode)
strip (suc fuel) fnode snode =
    let next = strip fuel (fnode / 2) (snode / 2) in
    if (fnode % 2 == 0) && not (fnode == 0) then next else (fnode, snode)

-- The `\x00`-separated concatenation that `digest_hex` and `signed_payload` feed out part by part.
pub join_nul : List Text → Bytes
join_nul [] = []
join_nul (p ∷ []) = p
join_nul (p ∷ q ∷ rest) = p ++ 0 ∷ join_nul (q ∷ rest)

module _ (sha512 : Bytes → Bytes) where
  unfoldable pub node_hash : Digest64 → Digest64 → Digest64
  node_hash left right = sha512 (1 ∷ left ++ right)

  pub root_fuel : ℕ → List Digest64 → Digest64
  root_fuel fuel [] = sha512 []
  root_fuel fuel (x ∷ []) = x
  root_fuel zero (x ∷ y ∷ rest) = sha512 []
  root_fuel (suc fuel) (x ∷ y ∷ rest) =
      let leaves = x ∷ y ∷ rest in
      let k = split_point (length leaves) in
      node_hash (root_fuel fuel (take k leaves)) (root_fuel fuel (drop k leaves))

  pub merkle_root : List Digest64 → Digest64
  merkle_root leaves = root_fuel (length leaves) leaves

  -- the nested `path` of `inclusion_proof`
  pub path_fuel : ℕ → List Digest64 → ℕ → List Digest64
  path_fuel fuel [] m = []
  path_fuel fuel (x ∷ []) m = []
  path_fuel zero (x ∷ y ∷ rest) m = []
  path_fuel (suc fuel) (x ∷ y ∷ rest) m =
      let leaves = x ∷ y ∷ rest in
      let k = split_point (length leaves) in
      let left = path_fuel fuel (take k leaves) m ++ merkle_root (drop k leaves) ∷ [] in
      let right = path_fuel fuel (drop k leaves) (m - k) ++ merkle_root (take k leaves) ∷ [] in
      if ltb m k then left else right

  pub inclusion_proof : List Digest64 → ℕ → Option (List Digest64)
  inclusion_proof leaves index =
      if leb (length leaves) index then none else some (path_fuel (length leaves) leaves index)

  -- the body of the loop over `proof` in `verify_inclusion`, after its test of `snode`
  pub inclusion_step : Digest64 → ℕ → ℕ → Digest64 → ℕ × ℕ × Digest64
  inclusion_step p fnode snode r =
      if (fnode % 2 == 1) || (fnode == snode)
      then (let (fnode', snode') =
            if fnode % 2 == 0 then strip fnode fnode snode else (fnode, snode) in
          (fnode' / 2, snode' / 2, node_hash p r))
      else (fnode / 2, snode / 2, node_hash r p)

  pub inclusion_loop : List Digest64 → ℕ → ℕ → Digest64 → Digest64 → Bool
  inclusion_loop [] fnode snode r root = snode == 0 && text_eq r root
  inclusion_loop (p ∷ proof) fnode snode r root =
      let (fnode', snode', r') = inclusion_step p fnode snode r in
      elim (snode == 0) [ true ↦ false | false ↦ inclusion_loop proof fnode' snode' r' root ]

  pub verify_inclusion : Digest64 → ℕ → ℕ → List Digest64 → Digest64 → Bool
  verify_inclusion leaf index tree_size proof root =
      if leb tree_size index then false else inclusion_loop proof index (tree_size - 1) leaf root
