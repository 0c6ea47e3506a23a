-- ===== src/Command/Report/Ladder.antt =====
-- main.rs: the verdicts among the printed lines, against the exit code and against what was checked.
use nanorix_verify.Prelude.{
  ℕ, ◌≡◌, ◌↔◌, ap, ◌∙◌, arith, true, false, List, [], ◌∷◌, ◌++◌, inl, inr, Bool-cases, ltb, leb,
  if◌then◌else◌,
}
use nanorix_verify.Libs.{Libs}
use nanorix_verify.Pipeline.Verdict.{VerificationResult, VerifierPolicy}
use nanorix_verify.Boundary.Failure.{BoundaryVerificationResult}
use nanorix_verify.Boundary.{verify_boundary_attestation, check_signatures, check_authenticity}
use nanorix_verify.Boundary.Anchored.{IsAnchored, trust_anchored_iff}
use nanorix_verify.Command.{Host, exit_code, proof_verdict}
use nanorix_verify.Command.Report.{
  Line, verified, not_anchored, not_checked, verification_failed, boundary_valid,
  boundary_not_anchored, boundary_not_checked, boundary_invalid, print_ladder, print_metadata,
  print_customer_activity_disclosure, print_human, print_boundary_human, unsigned_note,
}

-- What a verdict line says.
pub data Level : Type 0 where
  anchored integrity_only unchecked rejected : Level

-- The verdicts that a report contains, in their order.
abbrev pub verdicts : List Line → List Level
verdicts [] = []
verdicts (verified c g ∷ ls) = anchored ∷ verdicts ls
verdicts (boundary_valid c i t ∷ ls) = anchored ∷ verdicts ls
verdicts (not_anchored c g ∷ ls) = integrity_only ∷ verdicts ls
verdicts (boundary_not_anchored c i t ∷ ls) = integrity_only ∷ verdicts ls
verdicts (not_checked c g ∷ ls) = unchecked ∷ verdicts ls
verdicts (boundary_not_checked c i t ∷ ls) = unchecked ∷ verdicts ls
verdicts (verification_failed ∷ ls) = rejected ∷ verdicts ls
verdicts (boundary_invalid c i ∷ ls) = rejected ∷ verdicts ls
verdicts (l ∷ ls) = verdicts ls

-- The exit code that a verdict stands for.
abbrev pub level_code : Level → ℕ
level_code anchored = 0
level_code integrity_only = 0
level_code unchecked = 3
level_code rejected = 1

metadata_free :
    (r : VerificationResult) (rest : List Line)
    → verdicts (print_metadata r ++ rest) ≡ verdicts rest
unfolding print_metadata
metadata_free r rest = ground arith

disclosure_free :
    (r : VerificationResult) (rest : List Line)
    → verdicts (print_customer_activity_disclosure r ++ rest) ≡ verdicts rest
unfolding print_customer_activity_disclosure
disclosure_free r rest = ground arith

-- the verdict that the result calls for
abbrev pub level_of : VerificationResult → Level
level_of r =
    if r.valid
    then (if leb 8 r.stage_reached
        then anchored
        else if leb 7 r.stage_reached
        then integrity_only
        else unchecked)
    else rejected

-- what a valid document's report has after its verdict
abbrev after_ladder : VerificationResult → List Line
after_ladder r =
    print_metadata r
    ++ (print_customer_activity_disclosure r
        ++ (if ltb r.stage_reached 7 then unsigned_note ∷ [] else []))

after_ladder_free : (r : VerificationResult) → verdicts (after_ladder r) ≡ []
after_ladder_free r =
    let note = if ltb r.stage_reached 7 then unsigned_note ∷ [] else [] in
    metadata_free r (print_customer_activity_disclosure r ++ note)
    ∙ disclosure_free r note
    ∙ ground arith

ladder_first :
    (r : VerificationResult) (rest : List Line)
    → r.valid ≡ true
    → verdicts (print_ladder r ++ rest) ≡ level_of r ∷ verdicts rest
unfolding print_ladder
ladder_first r rest good = ground arith

print_human_valid :
    (r : VerificationResult) → r.valid ≡ true → print_human r ≡ print_ladder r ++ after_ladder r
unfolding print_human
print_human_valid r good = ground arith

print_human_invalid :
    (r : VerificationResult) → r.valid ≡ false → verdicts (print_human r) ≡ rejected ∷ []
unfolding print_human
print_human_invalid r bad = ground arith

pub print_human-level_of : (r : VerificationResult) → verdicts (print_human r) ≡ level_of r ∷ []
print_human-level_of r = elim (Bool-cases r.valid) [
  | inr bad ↦ print_human_invalid r bad ∙ ground arith
  | inl good ↦
      ap verdicts (print_human_valid r good)
      ∙ ladder_first r (after_ladder r) good
      ∙ ap (λ (ls : List Level). level_of r ∷ ls) (after_ladder_free r)
]

boundary_anchored :
    (r : BoundaryVerificationResult)
    → verdicts (print_boundary_human r) ≡ anchored ∷ []
    → r.trust_anchored ≡ true
unfolding print_boundary_human
boundary_anchored r h = ground arith

anchored_boundary :
    (r : BoundaryVerificationResult)
    → r.trust_anchored ≡ true
    → r.valid ≡ true
    → verdicts (print_boundary_human r) ≡ anchored ∷ []
unfolding print_boundary_human
anchored_boundary r t v = ground arith

abbrev head_or : Level → List Level → Level
head_or d [] = d
head_or d (l ∷ ls) = l

module _ (lib : Libs) (host : Host lib) where
  open lib use {Value}

  -- A report on a proof has exactly one verdict, and the exit code is the one that it stands for: 0
  -- for a signature that was checked, 3 for one that was not, 1 for a failure.
  pub print_human-exit_code :
      (r : VerificationResult)
      → (level : Level) × (verdicts (print_human r) ≡ level ∷ [])
        × (exit_code (proof_verdict lib host r) ≡ level_code level)
  unfolding exit_code proof_verdict
  print_human-exit_code r = (level_of r, print_human-level_of r, ground arith)

module _ (lib : Libs) where
  open lib use {Value}

  anchored_valid :
      (doc : Value) (policy : VerifierPolicy)
      → (verify_boundary_attestation lib doc policy).trust_anchored ≡ true
      → (verify_boundary_attestation lib doc policy).valid ≡ true
  unfolding verify_boundary_attestation check_signatures check_authenticity
  anchored_valid doc policy h = ground arith

  -- A boundary attestation is reported as valid, without a reservation, if and only if it is well
  -- formed, its canonical hash recomputes, and its signature is an Ed25519 signature of that hash
  -- under its embedded key and under the key that the policy's manifest lists for its authority and
  -- key version, whose authority is not revoked.
  pub print_boundary_human-IsAnchored :
      (doc : Value) (policy : VerifierPolicy)
      → (verdicts (print_boundary_human (verify_boundary_attestation lib doc policy))
          ≡ anchored ∷ [])
        ↔ IsAnchored lib doc policy
  print_boundary_human-IsAnchored doc policy =
      let r = verify_boundary_attestation lib doc policy in
      let (sound, complete) = trust_anchored_iff lib doc policy in
      (
        (λ h. sound (boundary_anchored r h)),
        (λ a. let t = complete a in anchored_boundary r t (anchored_valid doc policy t)),
      )
