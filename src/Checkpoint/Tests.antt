-- ===== src/Checkpoint/Tests.antt =====
-- checkpoint.rs: a tree of five leaves, and the theorems of this part on it.
use nanorix_verify.Prelude.{Bytes, text, none}
use nanorix_verify.Checkpoint.{AttestationEnvelope}
use nanorix_verify.Checkpoint.Document.{digest_hex, leaf_hash, envelope_parts}
use nanorix_verify.Checkpoint.Leaves.{AreBytes, leaf_hash_binds}
use nanorix_verify.Prelude.{ℕ, ◌<◌, ◌≡◌, ◌⊎◌, refl, arith, true, some, List, [], ◌∷◌, text_eq, take}
use nanorix_verify.Sample.{digest, digest_size, zeros, sum_bytes}
use nanorix_verify.Checkpoint.{
  Digest64, split_loop, split_point, strip, node_hash, root_fuel, merkle_root, path_fuel,
  inclusion_proof, inclusion_step, inclusion_loop, verify_inclusion,
}
use nanorix_verify.Checkpoint.Inclusion.{verify_inclusion-inclusion_proof}
use nanorix_verify.Checkpoint.Binding.{Collision, AreDigests, verify_inclusion_sound}

abbrev pub leaf : ℕ → Digest64
leaf n = digest (n ∷ [])

abbrev pub tree : List Digest64
tree = leaf 1 ∷ leaf 2 ∷ leaf 3 ∷ leaf 4 ∷ leaf 5 ∷ []

-- The path of the last leaf is the root of the other four.
abbrev last_path : List Digest64
last_path = merkle_root digest (take 4 tree) ∷ []

last_path_runs : inclusion_proof digest tree 4 ≡ some last_path
unfolding inclusion_proof path_fuel split_point split_loop
last_path_runs = refl

last_accepted : verify_inclusion digest (leaf 5) 4 5 last_path (merkle_root digest tree) ≡ true
unfolding verify_inclusion inclusion_loop inclusion_step strip merkle_root root_fuel split_point
    split_loop node_hash digest zeros sum_bytes text_eq
last_accepted = refl

pub tree_digests : AreDigests tree
tree_digests =
    let size = λ (n : ℕ). digest_size (n ∷ []) in
    (size 1, (size 2, (size 3, (size 4, (size 5, tt)))))

last_path_digests : AreDigests last_path
unfolding merkle_root root_fuel split_point split_loop node_hash
last_path_digests = (digest_size _, tt)

verify_inclusion-inclusion_proof_example :
    (proof : List Digest64) × (inclusion_proof digest tree 2 ≡ some proof)
    × (verify_inclusion digest (leaf 3) 2 5 proof (merkle_root digest tree) ≡ true)
verify_inclusion-inclusion_proof_example =
    verify_inclusion-inclusion_proof digest tree 2 [] (omega arith)

verify_inclusion_sound_example : (4 < 5) × ((leaf 5 ≡ leaf 5) ⊎ Collision digest)
verify_inclusion_sound_example =
    verify_inclusion_sound digest digest_size tree (leaf 5) 4 last_path [] tree_digests
      last_path_digests (digest_size (5 ∷ [])) last_accepted

pub digest_bytes : (b : Bytes) → AreBytes (digest b)
unfolding digest zeros
digest_bytes b = omega arith

abbrev envelope : AttestationEnvelope
envelope = record {
  algorithm = text "Ed25519";
  key_id = text "key";
  public_key = text "public";
  signature = text "signature";
  pqc_signature = none;
}

abbrev envelope_with_empty : AttestationEnvelope
envelope_with_empty = record envelope { pqc_signature = some [] }

same_leaf :
    leaf_hash digest (text "abc") envelope ≡ leaf_hash digest (text "abc") envelope_with_empty
unfolding leaf_hash digest_hex
same_leaf = refl

leaf_hash_binds_example :
    ((text "abc" ≡ text "abc") × (envelope_parts envelope ≡ envelope_parts envelope_with_empty))
    ⊎ Collision digest
leaf_hash_binds_example =
    leaf_hash_binds digest digest_bytes (text "abc") (text "abc") envelope envelope_with_empty
      (omega arith) (omega arith) (omega arith) (omega arith) same_leaf
