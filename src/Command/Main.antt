-- ===== src/Command/Main.antt =====
-- tools/nanorix-verify/src/main.rs: the policy from the arguments, the dispatch of the commands,
-- and `main`.
use nanorix_verify.Prelude.{Bool, true, false, Option, none, some, Text, if◌then◌else◌}
use nanorix_verify.Libs.{Libs}
use nanorix_verify.Signature.{or_else}
use nanorix_verify.Manifest.{TrustChainManifest}
use nanorix_verify.Manifest.Signed.{ManifestError, verify_signature}
use nanorix_verify.Pipeline.Verdict.{VerifierPolicy}
use nanorix_verify.Command.{
  Host, Commands, verify, batch, print_trust_chain, bundle_extract, bundle_verify,
  pubkey_bundle_build, pubkey_bundle_verify, boundary_verify, Cli, Run, done, exit, ◌>>=◌, require,
  ended, verify_path,
}
use nanorix_verify.Command.Operations.{
  verify_batch, run_boundary_verify, run_bundle_extract, run_bundle_verify, run_pubkey_bundle_build,
  run_pubkey_bundle_verify,
}

-- `NANORIX_IDENTITY_FINGERPRINT`
abbrev nanorix_identity_fingerprint : Option Text
nanorix_identity_fingerprint = none

abbrev pub is_batch : Option Commands → Bool
is_batch (some (batch path extension)) = true
is_batch _ = false

module _ (lib : Libs) (host : Host lib) where
  open host use {read, parse_manifest}

  unfoldable pub load_from_file : Text → Run TrustChainManifest
  load_from_file path = do bytes ← require (read path); require (parse_manifest bytes)

  -- What the trust chain adds to the policy.
  unfoldable pub trust_manifest :
      TrustChainManifest → Text → VerifierPolicy → Option ManifestError → Run VerifierPolicy
  trust_manifest m pin policy (some e) = exit 2
  trust_manifest m pin policy none =
      done (record policy { trust_chain = some m; pinned_identity_fingerprint = some pin })

  unfoldable pub setup_trust_chain : Cli → VerifierPolicy → Option Text → Run VerifierPolicy
  setup_trust_chain cli policy none = done policy
  setup_trust_chain cli policy (some path) = do
    m ← load_from_file path
    pin ← require (or_else cli.identity_fingerprint nanorix_identity_fingerprint)
    trust_manifest m pin policy (verify_signature lib m pin)

  unfoldable pub setup_customer_activity : Cli → VerifierPolicy → Option Text → Run VerifierPolicy
  setup_customer_activity cli policy none = done policy
  setup_customer_activity cli policy (some path) = if is_batch cli.command then exit 2 else do
    activity ← require (read path)
    done (record policy { customer_activity = some activity })

  abbrev pub initial_policy : Cli → VerifierPolicy
  initial_policy cli = record {
    reject_diagnostic = cli.reject_diagnostic;
    required_region = cli.required_region;
    required_authority_id = cli.required_authority_id;
    trust_chain = none;
    pinned_identity_fingerprint = none;
    customer_activity = none;
  }

  -- Without a command and a proof the help is printed.
  abbrev pub run_positional : Option Text → VerifierPolicy → Run (Unit {0})
  run_positional none policy = exit 2
  run_positional (some path) policy = verify_path lib host path policy

  unfoldable pub run_command : Option Commands → Option Text → VerifierPolicy → Run (Unit {0})
  run_command none proof policy = run_positional proof policy
  run_command (some (verify path)) proof policy = verify_path lib host path policy
  run_command (some (batch path extension)) proof policy =
      verify_batch lib host path extension policy
  run_command (some print_trust_chain) proof policy = ended
  run_command (some (bundle_extract path index output)) proof policy =
      run_bundle_extract lib host path index output
  run_command (some (pubkey_bundle_build keys output seed key_id org)) proof policy =
      run_pubkey_bundle_build lib host keys output seed key_id org
  run_command (some (bundle_verify path)) proof policy = run_bundle_verify lib host path
  run_command (some (pubkey_bundle_verify path key)) proof policy =
      run_pubkey_bundle_verify lib host path key
  run_command (some (boundary_verify paths trail)) proof policy =
      run_boundary_verify lib host paths trail policy

  unfoldable pub setup : Cli → Run VerifierPolicy
  setup cli = do
    policy ← setup_trust_chain cli (initial_policy cli) cli.trust_chain
    setup_customer_activity cli policy cli.customer_activity

  unfoldable pub main : Cli → Run (Unit {0})
  main cli = do policy ← setup cli; run_command cli.command cli.proof policy
