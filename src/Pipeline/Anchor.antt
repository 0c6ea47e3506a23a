-- ===== src/Pipeline/Anchor.antt =====
-- lib.rs: the signature stages of `verify_auditproof`, and `anchor_to_trust_chain`.
use nanorix_verify.Prelude.{Option, none, some, ◌++◌, Text, text, if◌then◌else◌}
use nanorix_verify.Libs.{Libs}
use nanorix_verify.Failure.{
  algorithm_unsupported, signature_mismatch, signing_key_version_unknown, authority_revoked,
}
use nanorix_verify.Receipts.{str_field}
use nanorix_verify.Manifest.{TrustChainManifest, KeyLookupResult, find_key}
use nanorix_verify.Signature.{
  SignatureCheck, verified, absent, unsupported, failed, verify_signature, verify_signature_against,
}
use nanorix_verify.Pipeline.Verdict.{
  VerificationMetadata, VerificationResult, VerifierPolicy, accept, reject,
}
use nanorix_verify.Pipeline.Gates.{claimed_key_version}
use mathlib.Core.Option

-- stages 7 and 8, by the outcome under the manifest's key
unfoldable pub anchored :
    VerificationMetadata → KeyLookupResult → SignatureCheck → VerificationResult
anchored m l verified =
    if l.authority_record.revoked then reject m 8 authority_revoked else accept m 8
anchored m l absent = accept m 7
anchored m l (unsupported mode) = reject m 7 (algorithm_unsupported (text "signing_mode=" ++ mode))
anchored m l (failed reason) = reject m 7 (signature_mismatch reason)

module _ (lib : Libs) where
  open lib use {Value}

  unfoldable pub claimed_authority : Value → Text
  claimed_authority json =
      Option.get_or (str_field lib json (text "authority_id")) (text "us-kms-nanorix-v1")

  unfoldable pub claimed_version : Value → Text
  claimed_version json = Option.get_or (claimed_key_version lib json) (text "")

  abbrev pub anchor_lookup :
      Value → Text → VerificationMetadata → Option KeyLookupResult → VerificationResult
  anchor_lookup json version m none =
      reject m 6 (signing_key_version_unknown (claimed_version json))
  anchor_lookup json version m (some l) =
      anchored m l (verify_signature_against lib json version l.key.public_key_b64)

  abbrev pub anchor_manifest :
      Value → Text → VerificationMetadata → Option TrustChainManifest → VerificationResult
  anchor_manifest json version m none = accept m 7
  anchor_manifest json version m (some manifest) =
      anchor_lookup json version m
        (find_key manifest (claimed_authority json) (claimed_version json))

  unfoldable pub anchor_to_trust_chain :
      Value → Text → VerifierPolicy → VerificationMetadata → VerificationResult
  anchor_to_trust_chain json version policy m = anchor_manifest json version m policy.trust_chain

  abbrev pub signature_outcome :
      Value → Text → VerifierPolicy → VerificationMetadata → SignatureCheck → VerificationResult
  signature_outcome json version policy m verified = anchor_to_trust_chain json version policy m
  signature_outcome json version policy m absent = accept m 4
  signature_outcome json version policy m (unsupported mode) =
      reject m 4 (algorithm_unsupported (text "signing_mode=" ++ mode))
  signature_outcome json version policy m (failed reason) = reject m 7 (signature_mismatch reason)

  -- stages 5 to 8
  unfoldable pub signature_stages :
      Value → Text → VerifierPolicy → VerificationMetadata → VerificationResult
  signature_stages json version policy m =
      signature_outcome json version policy m (verify_signature lib json version)
