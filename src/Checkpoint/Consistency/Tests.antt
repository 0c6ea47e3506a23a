-- ===== src/Checkpoint/Consistency/Tests.antt =====
-- checkpoint.rs: the tree of three leaves and the tree of five that it grows into.
use nanorix_verify.Prelude.{
  ◌<◌, ◌≤◌, ◌≡◌, ◌⊎◌, refl, arith, true, some, none, List, [], ◌∷◌, length, take, text_eq,
}
use nanorix_verify.Sample.{digest, digest_size, zeros, sum_bytes}
use nanorix_verify.Checkpoint.{
  Digest64, split_loop, split_point, strip, node_hash, root_fuel, merkle_root,
}
use nanorix_verify.Checkpoint.Binding.{Collision, AreDigests, AreDigests-take}
use nanorix_verify.Checkpoint.Tests.{leaf, tree, tree_digests}
use nanorix_verify.Checkpoint.Consistency.{
  count_ones, is_power_of_two, strip_ones, subproof, consistency_proof, consistency_seed,
  consistency_step, consistency_loop, verify_consistency,
}
use nanorix_verify.Checkpoint.Consistency.Append.{verify_consistency-consistency_proof}
use nanorix_verify.Checkpoint.Consistency.Sound.{
  verify_consistency_sound, verify_consistency_append_only,
}

abbrev old_tree : List Digest64
old_tree = take 3 tree

abbrev growth : List Digest64
growth = leaf 3 ∷ leaf 4 ∷ merkle_root digest (take 2 tree) ∷ leaf 5 ∷ []

growth_runs : consistency_proof digest tree 3 ≡ some growth
unfolding consistency_proof subproof split_point split_loop merkle_root root_fuel
growth_runs = refl

full_tree_runs : consistency_proof digest tree 4 ≡ some (leaf 5 ∷ [])
unfolding consistency_proof subproof split_point split_loop merkle_root root_fuel
full_tree_runs = refl

none_for_empty : consistency_proof digest tree 0 ≡ none
unfolding consistency_proof
none_for_empty = refl

growth_accepted :
    verify_consistency digest 3 5 (merkle_root digest old_tree) (merkle_root digest tree) growth
    ≡ true
unfolding verify_consistency consistency_seed consistency_loop consistency_step is_power_of_two
    count_ones strip_ones strip merkle_root root_fuel split_point split_loop node_hash digest zeros
    sum_bytes text_eq
growth_accepted = refl

growth_digests : AreDigests growth
unfolding merkle_root root_fuel split_point split_loop node_hash
growth_digests = (digest_size _, (digest_size _, (digest_size _, (digest_size _, tt))))

verify_consistency-consistency_proof_example :
    (proof : List Digest64) × (consistency_proof digest tree 3 ≡ some proof)
    × (verify_consistency digest 3 5
          (merkle_root digest (take 3 tree))
          (merkle_root digest tree)
          proof
        ≡ true)
verify_consistency-consistency_proof_example =
    verify_consistency-consistency_proof digest tree 3 (omega arith) (omega arith)

old_root_size : length (merkle_root digest old_tree) ≡ 64
unfolding merkle_root root_fuel split_point split_loop node_hash
old_root_size = digest_size _

verify_consistency_sound_example :
    (0 < 3)
    × (3 ≤ 5)
    × ((merkle_root digest old_tree ≡ merkle_root digest (take 3 tree)) ⊎ Collision digest)
verify_consistency_sound_example =
    verify_consistency_sound digest digest_size tree 3 (merkle_root digest old_tree) growth
      tree_digests growth_digests old_root_size growth_accepted

verify_consistency_append_only_example : (old_tree ≡ take 3 tree) ⊎ Collision digest
verify_consistency_append_only_example =
    verify_consistency_append_only digest digest_size old_tree tree growth
      (AreDigests-take 3 tree tree_digests) tree_digests growth_digests growth_accepted
