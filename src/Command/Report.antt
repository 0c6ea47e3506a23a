-- ===== src/Command/Report.antt =====
-- main.rs: what a verification prints for a human, as the list of its lines: `print_human`,
-- `print_customer_activity_disclosure` and `print_boundary_human`. A line has the values that it is
-- printed with; a constructor without values stands for lines of fixed text. The colours are left
-- out.
pub mod Ladder
pub mod Tests
use nanorix_verify.Prelude.{
  ℕ, true, false, Option, none, some, List, [], ◌∷◌, ◌++◌, Text, text, decimal, ltb, leb,
  if◌then◌else◌,
}
use nanorix_verify.Failure.{FailureReason}
use nanorix_verify.Boundary.Failure.{BoundaryFailureReason, BoundaryVerificationResult}
use nanorix_verify.Pipeline.Verdict.{VerificationResult}
use nanorix_verify.Command.Reason.{format_reason}
use mathlib.Core.Option

pub data Line : Type 0 where
  -- the verdict on a proof
  verified not_anchored not_checked : (capsule region : Text) → Line
  verification_failed : Line
  -- "Integrity verified … Authenticity pending", and the commands that fetch the trust root
  authenticity_pending how_to_resolve : Line
  signing_key_version algorithm : Text → Line
  chain_steps : ℕ → Line
  parent_links : ℕ → Line
  chain_timestamp : Text → Line
  recovered_note : Line
  -- the customer's declared root, recomputed or not checked, each with its note
  recomputed_root unchecked_root : (root : Text) → Line
  unsigned_note : Line
  failure : (reason : Text) → Line
  stage : (reached of : ℕ) → Line
  hint : FailureReason → Line
  -- the verdict on a boundary attestation
  boundary_valid boundary_not_anchored boundary_not_checked : (capsule index cutoff : Text) → Line
  boundary_invalid : (capsule index : Text) → Line
  against_manifest integrity_note : Line
  boundary_failure : BoundaryFailureReason → Line

-- `if let Some(value) = … { println!(…) }`
abbrev pub when_some : {A : Type 0} → Option A → (A → List Line) → List Line
when_some none f = []
when_some (some a) f = f a

unfoldable pub print_customer_activity_disclosure : VerificationResult → List Line
print_customer_activity_disclosure r = when_some r.metadata.customer_declared_activity_root (λ root.
    elim r.metadata.customer_declared_activity_checked [
      | none ↦ unchecked_root root ∷ []
      | some checked ↦ if checked then recomputed_root root ∷ [] else unchecked_root root ∷ []
    ])

-- the first lines for a valid document
unfoldable pub print_ladder : VerificationResult → List Line
print_ladder r =
    let cap = Option.get_or r.metadata.capsule_id (text "(unknown)") in
    let region = Option.get_or r.metadata.region (text "(unset)") in
    if leb 8 r.stage_reached
    then verified cap region ∷ []
    else if leb 7 r.stage_reached
    then not_anchored cap region ∷ authenticity_pending ∷ how_to_resolve ∷ []
    else not_checked cap region ∷ []

unfoldable pub print_metadata : VerificationResult → List Line
print_metadata r =
    when_some r.metadata.signing_key_version (λ ver. signing_key_version ver ∷ [])
    ++ (when_some r.metadata.algorithm (λ alg. algorithm alg ∷ [])
        ++ (when_some r.metadata.step_count (λ steps. chain_steps steps ∷ [])
            ++ (when_some r.metadata.unattested_parent_attribution (λ n. parent_links n ∷ [])
                ++ when_some r.metadata.recovered_chain_timestamp
                    (λ ts. chain_timestamp ts ∷ recovered_note ∷ []))))

unfoldable pub print_human : VerificationResult → List Line
print_human r =
    if r.valid
    then print_ladder r
      ++ (print_metadata r
          ++ (print_customer_activity_disclosure r
              ++ (if ltb r.stage_reached 7 then unsigned_note ∷ [] else [])))
    else verification_failed
      ∷ when_some r.failure_reason
          (λ reason. failure (format_reason reason) ∷ stage r.stage_reached 8 ∷ hint reason ∷ [])

unfoldable pub print_boundary_human : BoundaryVerificationResult → List Line
print_boundary_human r =
    let cap = Option.get_or r.metadata.capsule_id (text "(unknown)") in
    let idx = Option.get_or (Option.map decimal r.metadata.attestation_index) (text "?") in
    let cutoff = Option.get_or r.metadata.cutoff_ts (text "(unset)") in
    if r.valid
    then (if r.trust_anchored
        then boundary_valid cap idx cutoff ∷ against_manifest ∷ []
        else if r.signature_checked
        then boundary_not_anchored cap idx cutoff ∷ integrity_note ∷ []
        else boundary_not_checked cap idx cutoff ∷ [])
    else boundary_invalid cap idx
      ∷ when_some r.failure_reason
          (λ reason. boundary_failure reason ∷ stage r.stage_reached 3 ∷ [])
