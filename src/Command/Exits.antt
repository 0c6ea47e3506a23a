-- ===== src/Command/Exits.antt =====
-- main.rs: the exit codes of `verify` and `batch`.
use nanorix_verify.Prelude.{
  All, All-mono, ℕ, ◌≤◌, ◌<◌, ◌≡◌, ◌⊎◌, ◌↔◌, refl, arith, true, false, none, some, List, [], ◌∷◌,
  map, Text, Bytes, Option-cases, inl, inr,
}
use nanorix_verify.Libs.{Libs}
use nanorix_verify.Pipeline.Verdict.{VerificationResult, VerifierPolicy}
use nanorix_verify.Pipeline.Verify.{verify_auditproof}
use nanorix_verify.Pipeline.Stages.{verdict_shape}
use nanorix_verify.Command.{
  Host, is_rejected, count_rejected, exit_code, proof_verdict, verify_path, verify_one_for_batch,
}
use nanorix_verify.Command.Operations.{verify_files}

module _ (lib : Libs) (host : Host lib) where
  open lib use {Value, from_slice}
  open host use {read}

  -- A path that holds a JSON document.
  pub record Holds (path : Text) (doc : Value) : Type 0 where
    pub bytes : Bytes
    pub reads : read path ≡ some bytes
    pub parses : from_slice bytes ≡ some doc

  abbrev pub verdict : VerifierPolicy → Value → VerificationResult
  verdict policy doc = verify_auditproof lib doc [] policy

  -- What an exit code of `verify` says of the file.
  pub data PathVerdict (path : Text) (policy : VerifierPolicy) : ℕ → Type 0 where
    unreadable : read path ≡ none → PathVerdict path policy 1
    not_json :
        (bytes : Bytes)
        → read path ≡ some bytes
        → from_slice bytes ≡ none
        → PathVerdict path policy 1
    invalid :
        (doc : Value)
        → Holds path doc
        → (verdict policy doc).valid ≡ false
        → PathVerdict path policy 1
    unchecked :
        (doc : Value)
        → Holds path doc
        → (verdict policy doc).valid ≡ true
        → (verdict policy doc).stage_reached ≡ 4
        → PathVerdict path policy 3
    checked :
        (doc : Value)
        → Holds path doc
        → (verdict policy doc).valid ≡ true
        → ((verdict policy doc).stage_reached ≡ 7) ⊎ ((verdict policy doc).stage_reached ≡ 8)
        → PathVerdict path policy 0

  verdict_code :
      (r : VerificationResult) (code : ℕ)
      → exit_code (proof_verdict lib host r) ≡ code
      → ((r.valid ≡ false) × (code ≡ 1))
        ⊎ (((r.valid ≡ true) × (r.stage_reached < 7) × (code ≡ 3))
            ⊎ ((r.valid ≡ true) × (7 ≤ r.stage_reached) × (code ≡ 0)))
  unfolding exit_code proof_verdict
  verdict_code r code h = ground arith

  held-PathVerdict :
      (path : Text) (policy : VerifierPolicy) (doc : Value)
      → Holds path doc
      → PathVerdict path policy (exit_code (proof_verdict lib host (verdict policy doc)))
  held-PathVerdict path policy doc holds =
      let (named, low, high, stages) = verdict_shape lib doc [] policy in
      elim (verdict_code (verdict policy doc) _ refl) [
        | inl (bad, code) ↦ rw code (invalid doc holds bad)
        | inr (inl (good, below, code)) ↦ rw code (unchecked doc holds good (ground arith))
        | inr (inr (good, above, code)) ↦ rw code (checked doc holds good (ground arith))
      ]

  -- `verify` on a file exits with 0 only if the file holds a document that is valid at stage 7 or
  -- 8, with 3 only if the document is valid at stage 4, its signature unchecked, and otherwise with
  -- 1. Code 1 is thus given to an invalid document and, though nothing was verified then and the
  -- READMEs document 2 for an I/O error, to a file that cannot be read or is not JSON; `verify_path`
  -- never exits with 2.
  pub verify_path-PathVerdict :
      (path : Text) (policy : VerifierPolicy)
      → PathVerdict path policy (exit_code (verify_path lib host path policy))
  unfolding verify_path
  verify_path-PathVerdict path policy = elim (Option-cases (read path)) [
    | inl missing ↦ rw missing (unfold exit_code in unreadable missing)
    | inr (bytes, er) ↦ elim (Option-cases (from_slice bytes)) [
      | inl bad ↦ rw (er, bad) (unfold exit_code in not_json bytes er bad)
      | inr (doc, ed) ↦
          rw (er, ed)
            (held-PathVerdict path policy doc record { bytes = bytes; reads = er; parses = ed })
    ]
  ]

  one_file :
      (path : Text) (policy : VerifierPolicy)
      → (is_rejected (verify_one_for_batch lib host path policy) ≡ false) ↔ (
          (exit_code (verify_path lib host path policy) ≡ 0)
          ⊎ (exit_code (verify_path lib host path policy) ≡ 3))
  unfolding verify_one_for_batch verify_path proof_verdict exit_code
  one_file path policy = elim (Option-cases (read path)) [
    | inl missing ↦ ground arith
    | inr (bytes, er) ↦ elim (Option-cases (from_slice bytes)) [
      | inl bad ↦ ground arith
      | inr (doc, ed) ↦ ground arith
    ]
  ]

  none_rejected :
      (policy : VerifierPolicy) (paths : List Text)
      → count_rejected (map (λ p. verify_one_for_batch lib host p policy) paths) ≡ 0
      → All (λ p. is_rejected (verify_one_for_batch lib host p policy) ≡ false) paths
  unfolding count_rejected
  none_rejected policy [] h = tt
  none_rejected policy (p ∷ ps) h = (ground arith, none_rejected policy ps (ground arith))

  All-count_rejected :
      (policy : VerifierPolicy) (paths : List Text)
      → All (λ p. is_rejected (verify_one_for_batch lib host p policy) ≡ false) paths
      → count_rejected (map (λ p. verify_one_for_batch lib host p policy) paths) ≡ 0
  unfolding count_rejected
  All-count_rejected policy [] h = refl
  All-count_rejected policy (p ∷ ps) (h, hs) = rw h (All-count_rejected policy ps hs)

  -- A batch exits with 0 if and only if `verify` exits with 0 or 3 on each of its files, and
  -- otherwise with 1: it counts documents whose signature was not checked as passed.
  pub verify_files_iff :
      (paths : List Text) (policy : VerifierPolicy)
      → ((exit_code (verify_files lib host paths policy) ≡ 0)
          ↔ All
              (λ p.
                (exit_code (verify_path lib host p policy) ≡ 0)
                ⊎ (exit_code (verify_path lib host p policy) ≡ 3))
              paths)
        × ((exit_code (verify_files lib host paths policy) ≡ 0)
            ⊎ (exit_code (verify_files lib host paths policy) ≡ 1))
  unfolding verify_files exit_code
  verify_files_iff paths policy =
      let n = count_rejected (map (λ p. verify_one_for_batch lib host p policy) paths) in
      (
        (
          λ h.
              All-mono paths (λ p good. (one_file p policy).0 good)
                (none_rejected policy paths (ground arith)),
          λ h.
              let z =
                All-count_rejected policy paths
                  (All-mono paths (λ p good. (one_file p policy).1 good) h) in
              ground (arith, z),
        ),
        ground arith,
      )
