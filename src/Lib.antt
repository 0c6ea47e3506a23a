-- ===== src/Lib.antt =====
-- Verification of the Nanorix AuditProof verifier.
--
-- The program reads an AuditProof, a JSON document that proves the destruction of a capsule, and
-- decides whether it is valid. `verify_auditproof` (tools/nanorix-verify/src/lib.rs) runs gates on the
-- document's version and fields, walks the eight-step hash chain, checks the sets of receipts,
-- parents and streams under their Merkle roots, and then checks the Ed25519 signature
-- (canonical_recompute.rs), anchored to a key of a trust-chain manifest (trust_chain.rs). Beside it
-- stand the walk from a proof to its ancestors (governance/verify-types/src/chain.rs) and the
-- transparency checkpoint, an append-only Merkle tree with audit paths and consistency proofs
-- (tools/nanorix-verify/src/checkpoint.rs), the attestations of a live capsule and their chain
-- (boundary.rs), and the portable bundles of receipts and of public keys (bundle.rs,
-- pubkey_bundle.rs). The command line (main.rs) verifies the manifest's own signature, calls these on
-- files and reports by its exit code.
--
-- The files, with the code that each models:
--   * Prelude and its children: shared names, Boolean tests, lists, texts, numbers.
--   * Libs: the third-party crates (serde_json, serde_jcs, sha2, hex, base64, ed25519_dalek,
--     chrono) as a record that every definition takes. What a theorem assumes of an operation is
--     among its hypotheses: the size of a SHA-512 digest, the form of its hex, and for the round
--     trips the laws of signing in Signature/Laws.
--   * Failure: `FailureReason` and its parts (governance/verify-types/src/lib.rs).
--   * Steps, Timestamp, Merkle, Receipts: the hashes, the timestamp, the Merkle root and the receipt
--     and parent sets of lib.rs, under the source's function names.
--   * Streaming: streaming_merkle.rs. Activity: customer_activity.rs. Manifest: trust_chain.rs, the
--     signature of the manifest in Manifest/Signed.
--   * Signature: canonical_recompute.rs. AuthorityWalk: chain_walk.rs.
--   * Pipeline: `verify_auditproof`. Verdict has its types and early returns, Gates the checks before
--     the chain, Walk those on the chain and the sets, Anchor the signature stages, Verify the
--     whole; Accepted, Stages, ChainFacts and Pins are the proofs.
--   * Lineage: chain.rs. Checkpoint: checkpoint.rs, with the tree and its audit paths in the file
--     itself, the consistency proofs in Checkpoint/Consistency, and the digests and the published
--     record in Checkpoint/Document.
--   * Bundle: the extraction and the verification of a receipt bundle (bundle.rs).
--   * Boundary: boundary.rs, with a single attestation in the file itself, the chain of attestations in
--     Boundary/Chain, and the proofs in Schema, Anchored, Linked, Checked, Valid and Unordered.
--   * PubkeyBundle: pubkey_bundle.rs, with proofs in Published and Resolve.
--   * Output: the validation of an output bundle's manifest
--     (governance/verify-types/src/output_bundle.rs).
--   * Command: the command line (main.rs) from its arguments to the exit code. Operations has the
--     commands on files, Main the setup and the dispatch, Reason the words for a failure, Report the
--     lines printed for a human; Exits, Setup, Accepted, Boundaries and Report/Ladder are the proofs.
--   * Sample: a concrete stand-in for the crates, on which the Tests modules run the model.
--
-- A Rust string or byte slice is the list of its bytes, numbers are natural numbers, and a value that
-- the source narrows keeps its modulus. Maps and sets are lists of their insertions. An early return
-- is a constructor of the monad `Flow`. Loops on slices are structural; those on lengths and depths
-- run on fuel: the number of leaves for the Merkle trees and their paths, one more than the limit for
-- the walk of the lineage, the tree size for the loops of `split_point`, `verify_inclusion` and `verify_consistency`. Each
-- round shortens the list, deepens the walk or moves the number that the loop tests.
--
-- The operating system is the record `Host`: reading a file, listing a directory, the clock, and the
-- parsers that serde derives for the program's own types.
--
-- Not modelled: what the command line prints besides the lines for a verification, the fixed texts
-- and colours of those lines, and how it parses its arguments (main.rs); the generator of the test
-- corpus; and the ports to other languages.
pub mod Activity
pub mod AuthorityWalk
pub mod Boundary
pub mod Bundle
pub mod Checkpoint
pub mod Command
pub mod Failure
pub mod Libs
pub mod Lineage
pub mod Manifest
pub mod Merkle
pub mod Output
pub mod Pipeline
pub mod Prelude
pub mod PubkeyBundle
pub mod Receipts
pub mod Sample
pub mod Signature
pub mod Steps
pub mod Streaming
pub mod Timestamp
