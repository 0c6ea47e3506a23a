-- ===== src/Streaming/Tests.antt =====
-- streaming_merkle.rs: a stream of three chunks, and the theorems of this part on it.
use nanorix_verify.Prelude.{ℕ, ◌≡◌, some, [], ◌∷◌, map, Bytes}
use nanorix_verify.Sample.{crates, digest}
use nanorix_verify.Checkpoint.{merkle_root}
use nanorix_verify.Streaming.{leaf_hash, merkle_root_from_leaves}
use nanorix_verify.Streaming.Rfc6962.{merkle_root_from_leaves-merkle_root}

abbrev chunk : ℕ → Bytes
chunk n = digest (n ∷ [])

merkle_root_from_leaves-merkle_root_example :
    merkle_root_from_leaves crates (chunk 1 ∷ chunk 2 ∷ chunk 3 ∷ [])
    ≡ some (merkle_root digest (map (leaf_hash crates) (chunk 1 ∷ chunk 2 ∷ chunk 3 ∷ [])))
merkle_root_from_leaves-merkle_root_example =
    merkle_root_from_leaves-merkle_root crates (chunk 1) (chunk 2 ∷ chunk 3 ∷ [])
