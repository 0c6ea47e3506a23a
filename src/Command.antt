-- ===== src/Command.antt =====
-- tools/nanorix-verify/src/main.rs: the command line, as a function from the arguments to the exit
-- code. The child Report has what it prints on a verification; other output is left out.
pub mod Reason
pub mod Operations
pub mod Main
pub mod Report
pub mod Exits
pub mod Setup
pub mod Accepted
pub mod Boundaries
pub mod Tests
use nanorix_verify.Prelude.{
  ℕ, suc, ◌+◌, ◌-◌, Bool, true, false, ◌&&◌, Option, none, some, List, [], ◌∷◌, ◌++◌, map, Text,
  Bytes, text, text_eq, ltb, leb, if◌then◌else◌, ◌==◌, length, drop, is_some,
}
use nanorix_verify.Libs.{Libs}
use nanorix_verify.Manifest.{TrustChainManifest}
use nanorix_verify.Manifest.Signed.{ManifestError, verify_signature}
use nanorix_verify.Pipeline.Verdict.{VerificationResult, VerifierPolicy}
use nanorix_verify.Pipeline.Verify.{verify_auditproof}
use nanorix_verify.Bundle.{PortableReceiptBundle, ok, verify_receipt_bundle}
use nanorix_verify.PubkeyBundle.{PubKeyEntry, PortablePubkeyBundle, verify_pubkey_bundle}
use nanorix_verify.Boundary.{verify_boundary_attestation, verify_disclosed_activity_trail}
use nanorix_verify.Boundary.Failure.{
  BoundaryFailureReason, BoundaryVerificationResult, BoundaryChainResult,
}
use nanorix_verify.Boundary.Chain.{verify_boundary_chain}
use nanorix_verify.Command.Reason.{format_reason}
use mathlib.Core.Option

-- The contents of a directory, which `read_dir` lists: it does not follow symbolic links, so the
-- contents are finite.
mutual
  pub data Entries : Type 0 where
    nil : Entries
    entry : DirEntry → Entries → Entries

  pub data DirEntry : Type 0 where
    directory : Entries → DirEntry
    regular special : (path : Text) → DirEntry
    unreadable : DirEntry

-- The operating system, and the parsers that serde derives for the program's types.
pub record Host (lib : Libs) : Type 0 where
  pub read : Text → Option Bytes
  pub open_dir : Text → Option Entries
  pub to_lowercase : Text → Text
  -- `Vec::sort` on paths
  pub sort_paths : List Text → List Text
  -- the texts of the errors of `fs::read` and `serde_json`
  pub read_error : Text → Text
  pub json_error : Bytes → Text
  pub decode_error : Text → Text
  pub jcs_error : Text
  pub parse_manifest : Bytes → Option TrustChainManifest
  pub parse_receipt_bundle : Bytes → Option (PortableReceiptBundle lib)
  pub parse_pubkey_bundle : Bytes → Option PortablePubkeyBundle
  pub parse_keys : lib.Value → Option (List PubKeyEntry)
  -- the clock, in the format that the source prints
  pub now : Text
  -- serialising a bundle and writing it to a path: whether both succeed
  pub write_receipt_bundle : Text → PortableReceiptBundle lib → Bool
  pub write_pubkey_bundle : Text → PortablePubkeyBundle → Bool

-- The commands and their operations. The arguments of `verify` that the source ignores are left
-- out.
pub data Commands : Type 0 where
  verify : (proof : Text) → Commands
  batch : (path extension : Text) → Commands
  print_trust_chain : Commands
  bundle_extract : (proof : Text) (record_index : ℕ) (output : Text) → Commands
  bundle_verify : (bundle : Text) → Commands
  pubkey_bundle_build : (keys output signer_seed key_id issuer_org : Text) → Commands
  pubkey_bundle_verify : (bundle publisher_pubkey : Text) → Commands
  boundary_verify : (attestations : List Text) (activity_trail : Option Text) → Commands

pub record Cli : Type 0 where
  pub command : Option Commands
  pub proof : Option Text
  pub reject_diagnostic : Bool
  pub required_region : Option Text
  pub required_authority_id : Option Text
  pub trust_chain : Option Text
  pub identity_fingerprint : Option Text
  pub customer_activity : Option Text

-- How a function of the command line ends: `Ok(value)`, `Err`, or `process::exit`.
pub data Run (A : Type 0) : Type 0 where
  done : A → Run A
  failed : Run A
  exit : (code : ℕ) → Run A

infixl 5 ◌>>=◌
abbrev pub ◌>>=◌ : {A B : Type 0} → Run A → (A → Run B) → Run B
done a >>= f = f a
failed >>= f = failed
exit code >>= f = exit code

-- `with_context(...)?`
abbrev pub require : {A : Type 0} → Option A → Run A
require none = failed
require (some a) = done a

-- The code of the process: an error that `main` returns is code 1.
unfoldable pub exit_code : Run (Unit {0}) → ℕ
exit_code (done u) = 0
exit_code failed = 1
exit_code (exit code) = code

abbrev pub ended : Run (Unit {0})
ended = done tt

-- The result of one file of a batch.
pub data BatchEntry : Type 0 where
  passed : (path : Text) (capsule_id : Option Text) (stage_reached : ℕ) → BatchEntry
  rejected :
      (path : Text) (capsule_id : Option Text) (stage_reached : ℕ) (reason : Text) → BatchEntry

abbrev pub is_rejected : BatchEntry → Bool
is_rejected (passed path capsule_id stage) = false
is_rejected (rejected path capsule_id stage reason) = true

-- the two counters of the loop
unfoldable pub count_rejected : List BatchEntry → ℕ
count_rejected [] = 0
count_rejected (e ∷ es) = if is_rejected e then suc (count_rejected es) else count_rejected es

module _ (lib : Libs) (host : Host lib) where
  open lib use {Value, get, as_array, from_slice, ed25519_key_valid}
  open host use {
    read, open_dir, to_lowercase, sort_paths, read_error, json_error, decode_error, jcs_error,
    parse_manifest, parse_receipt_bundle, parse_pubkey_bundle,
  }

  -- The exit code for the result of a proof.
  unfoldable pub proof_verdict : VerificationResult → Run (Unit {0})
  proof_verdict r = if r.valid then (if ltb r.stage_reached 7 then exit 3 else ended) else exit 1

  unfoldable pub verify_path : Text → VerifierPolicy → Run (Unit {0})
  verify_path path policy = do
    bytes ← require (read path)
    proof ← require (from_slice bytes)
    proof_verdict (verify_auditproof lib proof [] policy)

  abbrev pub batch_verdict : Text → VerificationResult → BatchEntry
  batch_verdict path r =
      if r.valid
      then passed path r.metadata.capsule_id r.stage_reached
      else rejected path r.metadata.capsule_id r.stage_reached
          (Option.get_or (Option.map format_reason r.failure_reason) (text "unknown_failure"))

  abbrev batch_parsed : Text → VerifierPolicy → Bytes → Option Value → BatchEntry
  batch_parsed path policy bytes none =
      rejected path none 0 (text "invalid_json (" ++ (json_error bytes ++ text ")"))
  batch_parsed path policy bytes (some proof) =
      batch_verdict path (verify_auditproof lib proof [] policy)

  abbrev batch_read : Text → VerifierPolicy → Option Bytes → BatchEntry
  batch_read path policy none =
      rejected path none 0 (text "read_error (" ++ (read_error path ++ text ")"))
  batch_read path policy (some bytes) = batch_parsed path policy bytes (from_slice bytes)

  unfoldable pub verify_one_for_batch : Text → VerifierPolicy → BatchEntry
  verify_one_for_batch path policy = batch_read path policy (read path)
