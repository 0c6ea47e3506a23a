-- ===== src/Command/Operations.antt =====
-- tools/nanorix-verify/src/main.rs: the operations of the command line on files.
use nanorix_verify.Prelude.{
  ℕ, ◌-◌, Bool, not, ◌&&◌, Option, none, some, List, [], ◌∷◌, ◌++◌, map, Text, Bytes, text, text_eq,
  ltb, leb, if◌then◌else◌, ◌==◌, length, drop, is_some,
}
use nanorix_verify.Libs.{Libs}
use nanorix_verify.Pipeline.Verdict.{VerifierPolicy}
use nanorix_verify.Bundle.{ok, err, verify_receipt_bundle}
use nanorix_verify.Bundle.Extract.{portable_receipt_bundle_disclaimer, extract_receipt_bundle}
use nanorix_verify.PubkeyBundle.{PubKeyEntry, Checked, build_pubkey_bundle, verify_pubkey_bundle}
use nanorix_verify.Boundary.{verify_boundary_attestation, verify_disclosed_activity_trail}
use nanorix_verify.Boundary.Failure.{
  BoundaryFailureReason, BoundaryVerificationResult, BoundaryChainResult,
}
use nanorix_verify.Boundary.Chain.{verify_boundary_chain}
use nanorix_verify.Command.{
  Entries, DirEntry, nil, entry, directory, regular, special, unreadable, Host, Run, done, failed,
  exit, ◌>>=◌, require, ended, count_rejected, verify_one_for_batch,
}
use mathlib.Core.Option

abbrev ends_with : Text → Text → Bool
ends_with s suffix =
    leb (length suffix) (length s) && text_eq (drop (length s - length suffix) s) suffix

-- `extend` of the collected files; `none` is an error of the file system.
abbrev append : Option (List Text) → Option (List Text) → Option (List Text)
append none ys = none
append (some xs) none = none
append (some xs) (some ys) = some (xs ++ ys)

module _ (lib : Libs) (host : Host lib) where
  open lib use {Value, get, as_array, from_slice, ed25519_key_valid}
  open host use {
    read, open_dir, to_lowercase, sort_paths, decode_error, jcs_error, parse_manifest,
    parse_receipt_bundle, parse_pubkey_bundle, parse_keys, now, write_receipt_bundle,
    write_pubkey_bundle,
  }

  -- The loop over the directories is structural, in the order of the tree: its result is sorted.
  unfoldable mutual
    pub collect : Text → Entries → Option (List Text)
    collect extension nil = some []
    collect extension (entry e es) = append (collect_entry extension e) (collect extension es)

    pub collect_entry : Text → DirEntry → Option (List Text)
    collect_entry extension (directory es) = collect extension es
    collect_entry extension (regular path) =
        if ends_with (to_lowercase path) (to_lowercase extension) then some (path ∷ []) else some []
    collect_entry extension (special path) = some []
    collect_entry extension unreadable = none

  -- the loop over the files of a batch
  unfoldable pub verify_files : List Text → VerifierPolicy → Run (Unit {0})
  verify_files paths policy =
      if count_rejected (map (λ p. verify_one_for_batch lib host p policy) paths) == 0
      then ended
      else exit 1

  unfoldable pub verify_batch : Text → Text → VerifierPolicy → Run (Unit {0})
  verify_batch path extension policy = do
    entries ← require (open_dir path)
    files ← require (collect extension entries)
    verify_files (sort_paths files) policy

  unfoldable pub read_document : Text → Run Value
  read_document path = do bytes ← require (read path); require (from_slice bytes)

  unfoldable pub read_documents : List Text → Run (List Value)
  read_documents [] = done []
  read_documents (path ∷ paths) = do
    doc ← read_document path
    docs ← read_documents paths
    done (doc ∷ docs)

  -- `{"events": [...]}` or a bare array
  unfoldable pub read_trail : Option Text → Run (Option (List Value))
  read_trail none = done none
  read_trail (some path) = do
    v ← read_document path
    events ← require (as_array (Option.get_or (get v (text "events")) v))
    done (some events)

  unfoldable pub trail_failure :
      BoundaryVerificationResult → Value → Option (List Value) → Option BoundaryFailureReason
  trail_failure r doc none = none
  trail_failure r doc (some events) =
      if r.valid then verify_disclosed_activity_trail lib doc events else none

  unfoldable pub attestation_verdict :
      BoundaryVerificationResult → Option BoundaryFailureReason → Run (Unit {0})
  attestation_verdict r failure =
      if r.valid && not (is_some failure)
      then (if r.signature_checked then ended else exit 3)
      else exit 1

  unfoldable pub chain_verdict : BoundaryChainResult → Run (Unit {0})
  chain_verdict r = if r.valid then (if r.all_signatures_checked then ended else exit 3) else exit 1

  -- One document, or a chain.
  unfoldable pub boundary_documents :
      VerifierPolicy → Option (List Value) → List Value → Run (Unit {0})
  boundary_documents policy events [] = chain_verdict (verify_boundary_chain lib [] policy)
  boundary_documents policy events (doc ∷ []) =
      let r = verify_boundary_attestation lib doc policy in
      attestation_verdict r (trail_failure r doc events)
  boundary_documents policy events (doc ∷ next ∷ docs) =
      chain_verdict (verify_boundary_chain lib (doc ∷ next ∷ docs) policy)

  unfoldable pub run_boundary_verify : List Text → Option Text → VerifierPolicy → Run (Unit {0})
  run_boundary_verify paths trail policy =
      if is_some trail && ltb 1 (length paths) then exit 2 else do
        docs ← read_documents paths
        events ← read_trail trail
        boundary_documents policy events docs

  unfoldable pub run_bundle_extract : Text → ℕ → Text → Run (Unit {0})
  run_bundle_extract path record_index output = do
    proof ← read_document path
    bundle ←
        elim (extract_receipt_bundle lib now portable_receipt_bundle_disclaimer proof
          record_index) [ ok b ↦ done b | err e ↦ failed ]
    if write_receipt_bundle output bundle then ended else failed

  unfoldable pub run_bundle_verify : Text → Run (Unit {0})
  run_bundle_verify path = do
    bytes ← require (read path)
    bundle ← require (parse_receipt_bundle bytes)
    elim (verify_receipt_bundle lib decode_error bundle) [ ok u ↦ ended | err e ↦ exit 1 ]

  unfoldable pub build_and_write : List PubKeyEntry → Bytes → Text → Text → Text → Run (Unit {0})
  build_and_write keys seed key_id org output =
      elim (build_pubkey_bundle lib decode_error jcs_error keys seed key_id org now) [
        | Checked.error e ↦ failed
        | Checked.ok b ↦ if write_pubkey_bundle output b then ended else failed
      ]

  unfoldable pub run_pubkey_bundle_build : Text → Text → Text → Text → Text → Run (Unit {0})
  run_pubkey_bundle_build path output seed_path key_id org = do
    v ← read_document path
    keys ← require (parse_keys (Option.get_or (get v (text "pubkeys")) v))
    seed ← require (read seed_path)
    if length seed == 32 then build_and_write keys seed key_id org output else failed

  unfoldable pub run_pubkey_bundle_verify : Text → Text → Run (Unit {0})
  run_pubkey_bundle_verify path key_path = do
    bytes ← require (read path)
    bundle ← require (parse_pubkey_bundle bytes)
    key ← require (read key_path)
    if length key == 32 && ed25519_key_valid key
        then elim (verify_pubkey_bundle lib decode_error jcs_error bundle key) [
          | none ↦ ended
          | some e ↦ exit 1
        ]
        else failed
