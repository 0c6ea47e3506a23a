-- ===== src/Boundary/Checked.antt =====
-- boundary.rs: the documents of a chain whose signatures were all checked.
use nanorix_verify.Prelude.{
  All, ◌≡◌, arith, true, ◌&&◌, List, [], ◌∷◌, &&_split, Bool-cases, inl, inr, sort_by_key,
}
use nanorix_verify.Libs.{Libs}
use nanorix_verify.Pipeline.Verdict.{VerifierPolicy}
use nanorix_verify.Boundary.{verify_boundary_attestation}
use nanorix_verify.Boundary.Failure.{BoundaryVerificationResult}
use nanorix_verify.Boundary.Chain.{
  checked, index_of, verify_documents, chain_result, verify_ordered, verify_boundary_chain,
}
use nanorix_verify.Boundary.Linked.{IsValidDocument, documents-All, results-cases}

module _ (lib : Libs) where
  open lib use {Value}

  pub documents-checked :
      (policy : VerifierPolicy) (ds : List Value) (rs : List BoundaryVerificationResult)
      → verify_documents lib policy ds ≡ checked true rs
      → All (λ d. (verify_boundary_attestation lib d policy).signature_checked ≡ true) ds
  unfolding verify_documents
  documents-checked policy [] rs h = tt
  documents-checked policy (d ∷ ds) rs h =
      elim (Bool-cases (verify_boundary_attestation lib d policy).valid) [
        | inr bad ↦ absurd (ground arith)
        | inl ok ↦ elim (results-cases (verify_documents lib policy ds)) [
          | inr (r, rs', e) ↦ absurd (ground arith)
          | inl (all, rs', e) ↦
              let both : ((verify_boundary_attestation lib d policy).signature_checked && all)
                  ≡ true =
                ground arith in
              let (one, others) = &&_split _ _ both in
              (one, documents-checked policy ds rs' (ground arith))
        ]
      ]

  -- A document that is valid with its signature checked.
  abbrev pub IsChecked : VerifierPolicy → Value → Type 0
  IsChecked policy d =
      IsValidDocument lib policy d
      × ((verify_boundary_attestation lib d policy).signature_checked ≡ true)

  both :
      (policy : VerifierPolicy) (ds : List Value)
      → All (IsValidDocument lib policy) ds
      → All (λ d. (verify_boundary_attestation lib d policy).signature_checked ≡ true) ds
      → All (IsChecked policy) ds
  both policy [] v c = tt
  both policy (d ∷ ds) (v, vs) (c, cs) = ((v, c), both policy ds vs cs)

  pub chain-IsChecked :
      (docs : List Value) (policy : VerifierPolicy)
      → (verify_boundary_chain lib docs policy).valid ≡ true
      → (verify_boundary_chain lib docs policy).all_signatures_checked ≡ true
      → All (IsChecked policy) (sort_by_key (index_of lib) docs)
  unfolding verify_boundary_chain verify_ordered chain_result
  chain-IsChecked docs policy v s =
      let ds = sort_by_key (index_of lib) docs in
      elim (results-cases (verify_documents lib policy ds)) [
        | inr (r, rs, e) ↦ absurd (ground arith)
        | inl (all, rs, e) ↦
            let every : all ≡ true = ground arith in
            both policy ds (documents-All lib policy ds all rs e)
              (documents-checked policy ds rs (ground arith))
      ]
