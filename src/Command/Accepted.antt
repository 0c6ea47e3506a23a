-- ===== src/Command/Accepted.antt =====
-- main.rs: what exit code 0 says when a trust-chain manifest was given.
use nanorix_verify.Prelude.{
  ℕ, ◌≡◌, ◌⊎◌, refl, sym, ◌∙◌, arith, true, false, Option, some, [], Text, text, inl, inr,
}
use nanorix_verify.Libs.{Libs}
use nanorix_verify.Receipts.{str_field}
use nanorix_verify.Manifest.{TrustChainManifest, KeyLookupResult, find_key}
use nanorix_verify.Signature.Facts.{IsSignedBy}
use nanorix_verify.Pipeline.Anchor.{claimed_authority, claimed_version}
use nanorix_verify.Pipeline.Verdict.{VerifierPolicy}
use nanorix_verify.Pipeline.Stages.{anchored_or_unsigned, stage_eight_sound}
use nanorix_verify.Command.{Host, Commands, Cli, verify, exit_code, verify_path}
use nanorix_verify.Command.Main.{run_command, main}
use nanorix_verify.Command.Exits.{
  Holds, PathVerdict, unreadable, not_json, invalid, unchecked, checked, verdict,
  verify_path-PathVerdict,
}
use nanorix_verify.Command.Setup.{IsTrustRoot, main-IsTrustRoot}

module _ (lib : Libs) (host : Host lib) where
  open lib use {Value}

  -- A document under a trust root: a key that the manifest lists and has not revoked signs it.
  pub record IsAuthentic (m : TrustChainManifest) (doc : Value) : Type 0 where
    pub lookup : KeyLookupResult
    pub listed : find_key m (claimed_authority lib doc) (claimed_version lib doc) ≡ some lookup
    pub not_revoked : lookup.authority_record.revoked ≡ false
    pub version : Text
    pub has_version : str_field lib doc (text "cdp_version") ≡ some version
    pub signed : IsSignedBy lib doc version lookup.key.public_key_b64

  zero-checked :
      (path : Text) (policy : VerifierPolicy) (code : ℕ)
      → PathVerdict lib host path policy code
      → code ≡ 0
      → (doc : Value) × Holds lib host path doc
        × ((verdict lib host policy doc).valid ≡ true)
        × (((verdict lib host policy doc).stage_reached ≡ 7)
            ⊎ ((verdict lib host policy doc).stage_reached ≡ 8))
  zero-checked path policy _ (unreadable missing) e = absurd (ground arith)
  zero-checked path policy _ (not_json bytes er bad) e = absurd (ground arith)
  zero-checked path policy _ (invalid doc holds bad) e = absurd (ground arith)
  zero-checked path policy _ (unchecked doc holds good four) e = absurd (ground arith)
  zero-checked path policy _ (checked doc holds good stage) e = (doc, holds, good, stage)

  checked-IsAuthentic :
      (policy : VerifierPolicy) (m : TrustChainManifest) (doc : Value)
      → policy.trust_chain ≡ some m
      → (verdict lib host policy doc).valid ≡ true
      → ((verdict lib host policy doc).stage_reached ≡ 7)
        ⊎ ((verdict lib host policy doc).stage_reached ≡ 8)
      → IsAuthentic m doc
  checked-IsAuthentic policy m doc em good stage =
      elim (anchored_or_unsigned lib doc [] policy good m em) [
        | inr (four, v, named, unsigned) ↦ absurd (ground arith)
        | inl eight ↦
            let (m', l, v, em', listed, active, has_version, signed) =
              stage_eight_sound lib doc [] policy good eight in
            let same : m' ≡ m = ground arith in
            record {
              lookup = l;
              listed = rw (← same) listed;
              not_revoked = active;
              version = v;
              has_version = has_version;
              signed = signed;
            }
      ]

  run_verify :
      (command : Option Commands) (proof : Option Text) (path : Text) (policy : VerifierPolicy)
      → command ≡ some (verify path)
      → exit_code (run_command lib host command proof policy)
        ≡ exit_code (verify_path lib host path policy)
  unfolding run_command
  run_verify command proof path policy h = rw h refl

  -- When `nanorix-verify verify` is run on a file with a trust-chain manifest and exits with 0, the
  -- manifest's own signature verifies under the identity key whose fingerprint the arguments pin,
  -- and the file holds a document that is signed under a key of that manifest, listed for the
  -- document's authority and key version, whose authority is not revoked.
  pub main_verify-IsAuthentic :
      (cli : Cli) (path manifest_path : Text)
      → cli.command ≡ some (verify path)
      → cli.trust_chain ≡ some manifest_path
      → exit_code (main lib host cli) ≡ 0
      → (m : TrustChainManifest) × (doc : Value) × IsTrustRoot lib host cli manifest_path m
        × Holds lib host path doc
        × IsAuthentic m doc
  main_verify-IsAuthentic cli path manifest_path command given zero =
      let (policy, m, em, root, same) =
        main-IsTrustRoot lib host cli manifest_path given (λ e. absurd (ground arith))
          (λ e. absurd (ground arith)) in
      let code : exit_code (verify_path lib host path policy) ≡ 0 =
        sym (run_verify cli.command cli.proof path policy command) ∙ (sym same ∙ zero) in
      let (doc, holds, good, stage) =
        zero-checked path policy _ (verify_path-PathVerdict lib host path policy) code in
      (m, doc, root, holds, checked-IsAuthentic policy m doc em good stage)
