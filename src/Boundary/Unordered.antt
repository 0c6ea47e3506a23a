-- ===== src/Boundary/Unordered.antt =====
-- boundary.rs: the order in which the attestations of a chain are supplied.
use mathlib.Core.List.{Permᴰ}
use nanorix_verify.Prelude.{◌≡◌, ap, List}
use nanorix_verify.Prelude.Reordering.{HasDistinctKeys, sort_by_key-Permᴰ}
use nanorix_verify.Libs.{Libs}
use nanorix_verify.Pipeline.Verdict.{VerifierPolicy}
use nanorix_verify.Boundary.Chain.{index_of, verify_ordered, verify_boundary_chain}

module _ (lib : Libs) where
  open lib use {Value}

  -- The verifier gives the same result, per-document results and failure included, for two orders of
  -- the same attestations, if their indices are distinct.
  pub verify_boundary_chain-Permᴰ :
      (docs reordered : List Value) (policy : VerifierPolicy)
      → Permᴰ docs reordered
      → HasDistinctKeys (index_of lib) docs
      → verify_boundary_chain lib docs policy ≡ verify_boundary_chain lib reordered policy
  unfolding verify_boundary_chain
  verify_boundary_chain-Permᴰ docs reordered policy p distinct =
      ap (verify_ordered lib policy) (sort_by_key-Permᴰ (index_of lib) p distinct).0
