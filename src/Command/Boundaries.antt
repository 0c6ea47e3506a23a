-- ===== src/Command/Boundaries.antt =====
-- main.rs: what exit code 0 of `boundary verify` says.
use nanorix_verify.Prelude.{
  All, All-mono, ◌≡◌, refl, arith, true, ◌&&◌, Option, none, some, List, [], ◌∷◌, Text, ltb, length,
  is_some, Bool-cases, inl, inr, sort_by_key, insert_by_key, text,
}
use mathlib.Core.Option
use nanorix_verify.Libs.{Libs}
use nanorix_verify.Pipeline.Verdict.{VerifierPolicy}
use nanorix_verify.Boundary.{check_signatures, check_authenticity, verify_boundary_attestation}
use nanorix_verify.Boundary.Anchored.{IsAnchored, trust_anchored_iff}
use nanorix_verify.Manifest.{TrustChainManifest}
use nanorix_verify.Boundary.Chain.{index_of}
use nanorix_verify.Boundary.Checked.{IsChecked, chain-IsChecked}
use nanorix_verify.Command.{Host, Run, done, failed, exit, ◌>>=◌, require, exit_code}
use nanorix_verify.Command.Operations.{
  read_document, read_documents, read_trail, attestation_verdict, chain_verdict, boundary_documents,
  run_boundary_verify,
}

-- A computation that does not end the process by itself.
abbrev Returns : {A : Type 0} → Run A → Type 0
Returns (done a) = Unit
Returns failed = Unit
Returns (exit code) = ⊥

require-Returns : {A : Type 0} (o : Option A) → Returns (require o)
require-Returns none = tt
require-Returns (some a) = tt

bind-Returns :
    {A B : Type 0} (r : Run A) (f : A → Run B)
    → Returns r
    → ((a : A) → Returns (f a))
    → Returns (r >>= f)
bind-Returns (done a) f h k = k a
bind-Returns failed f h k = tt
bind-Returns (exit code) f h k = h

-- Where the rest exits with 0, the first part was done.
zero_done :
    {A : Type 0} (r : Run A) (f : A → Run (Unit {0}))
    → Returns r
    → exit_code (r >>= f) ≡ 0
    → (a : A) × (r ≡ done a) × (exit_code (f a) ≡ 0)
unfolding exit_code
zero_done (done a) f h e = (a, refl, e)
zero_done failed f h e = absurd (ground arith)
zero_done (exit code) f h e = absurd h

module _ (lib : Libs) (host : Host lib) where
  open lib use {Value, get, as_array, from_slice}
  open host use {read}

  document-Returns : (path : Text) → Returns (read_document lib host path)
  unfolding read_document
  document-Returns path =
      bind-Returns (require (read path)) (λ bytes. require (from_slice bytes))
        (require-Returns (read path)) (λ bytes. require-Returns (from_slice bytes))

  documents-Returns : (paths : List Text) → Returns (read_documents lib host paths)
  unfolding read_documents
  documents-Returns [] = tt
  documents-Returns (p ∷ ps) =
      bind-Returns (read_document lib host p)
        (λ doc. read_documents lib host ps >>= λ docs. done (doc ∷ docs)) (document-Returns p)
        (λ doc.
          bind-Returns (read_documents lib host ps) (λ docs. done (doc ∷ docs))
            (documents-Returns ps) (λ docs. tt))

  trail-Returns : (trail : Option Text) → Returns (read_trail lib host trail)
  unfolding read_trail
  trail-Returns none = tt
  trail-Returns (some path) =
      bind-Returns (read_document lib host path)
        (λ v. require (as_array (Option.get_or (get v (text "events")) v)) >>= λ events.
          done (some events))
        (document-Returns path)
        (λ v.
          bind-Returns (require (as_array (Option.get_or (get v (text "events")) v)))
            (λ events. done (some events))
            (require-Returns (as_array (Option.get_or (get v (text "events")) v))) (λ events. tt))

  documents-IsChecked :
      (policy : VerifierPolicy) (events : Option (List Value)) (docs : List Value)
      → exit_code (boundary_documents lib host policy events docs) ≡ 0
      → All (IsChecked lib policy) (sort_by_key (index_of lib) docs)
  unfolding boundary_documents chain_verdict attestation_verdict exit_code
  documents-IsChecked policy events [] h =
      chain-IsChecked lib [] policy (ground arith) (ground arith)
  documents-IsChecked policy events (d ∷ []) h =
      unfold sort_by_key insert_by_key in ((ground arith, ground arith), tt)
  documents-IsChecked policy events (d ∷ e ∷ ds) h =
      chain-IsChecked lib (d ∷ e ∷ ds) policy (ground arith) (ground arith)

  checked_anchored :
      (policy : VerifierPolicy) (m : TrustChainManifest) (d : Value)
      → policy.trust_chain ≡ some m
      → (verify_boundary_attestation lib d policy).signature_checked ≡ true
      → (verify_boundary_attestation lib d policy).trust_anchored ≡ true
  unfolding verify_boundary_attestation check_signatures check_authenticity
  checked_anchored policy m d em h = ground arith

  read_documents-IsChecked :
      (paths : List Text) (trail : Option Text) (policy : VerifierPolicy)
      → exit_code (run_boundary_verify lib host paths trail policy) ≡ 0
      → (docs : List Value) × (read_documents lib host paths ≡ done docs)
        × All (IsChecked lib policy) (sort_by_key (index_of lib) docs)
  unfolding run_boundary_verify
  read_documents-IsChecked paths trail policy h =
      elim (Bool-cases (is_some trail && ltb 1 (length paths))) [
        | inl usage ↦ absurd (unfold exit_code in ground arith)
        | inr fine ↦
            let (docs, ed, rest) =
              zero_done (read_documents lib host paths)
                (λ docs. read_trail lib host trail >>= λ events.
                  boundary_documents lib host policy events docs)
                (documents-Returns paths) (ground arith) in
            let (events, et, last) =
              zero_done (read_trail lib host trail)
                (λ events. boundary_documents lib host policy events docs) (trail-Returns trail)
                rest in
            (docs, ed, documents-IsChecked policy events docs last)
      ]

  -- When `boundary verify` runs under a trust-chain manifest and exits with 0, all the files were
  -- read, and each document in them is anchored in the trust chain: well formed, its hash
  -- recomputed, and signed under its own key and under a key of the manifest whose authority is not
  -- revoked.
  pub run_boundary_verify-IsAnchored :
      (paths : List Text) (trail : Option Text) (policy : VerifierPolicy) (m : TrustChainManifest)
      → policy.trust_chain ≡ some m
      → exit_code (run_boundary_verify lib host paths trail policy) ≡ 0
      → (docs : List Value) × (read_documents lib host paths ≡ done docs)
        × All (λ d. IsAnchored lib d policy) (sort_by_key (index_of lib) docs)
  run_boundary_verify-IsAnchored paths trail policy m em h =
      let (docs, ed, all) = read_documents-IsChecked paths trail policy h in
      (
        docs,
        ed,
        All-mono (sort_by_key (index_of lib) docs)
            (λ d c. (trust_anchored_iff lib d policy).0 (checked_anchored policy m d em c.1)) all,
      )
