-- ===== src/Pipeline/Stages.antt =====
-- lib.rs: the verdict and the stage that `verify_auditproof` reports.
use nanorix_verify.Prelude.{
  ◌≤◌, ◌≡◌, ◌↔◌, ◌⊎◌, arith, true, false, none, some, List, Text, text, inl, inr, Option-cases,
}
use nanorix_verify.Libs.{Libs}
use nanorix_verify.Manifest.{TrustChainManifest, KeyLookupResult, find_key}
use nanorix_verify.Receipts.{str_field}
use nanorix_verify.Signature.{verified, absent, verify_signature, verify_signature_against}
use nanorix_verify.Signature.Facts.{IsSignedBy, verify_signature_against_sound, verified_not_absent}
use nanorix_verify.Pipeline.Verdict.{VerificationMetadata, VerifierPolicy, TrustedAuthority, next}
use nanorix_verify.Pipeline.Accepted.{valid-checked}
use nanorix_verify.Pipeline.Walk.{check_activity_record}
use nanorix_verify.Pipeline.Anchor.{
  signature_stages, anchor_to_trust_chain, anchored, claimed_authority, claimed_version,
}
use nanorix_verify.Pipeline.Verify.{verify_checks, verify_auditproof}

module _ (lib : Libs) where
  open lib use {Value}

  -- The verdict is valid exactly when no failure is named, and the stage lies between 1 and 8; a
  -- valid document has reached stage 4, 7 or 8.
  pub verdict_shape :
      (json : Value) (trust : List TrustedAuthority) (policy : VerifierPolicy)
      → let r = verify_auditproof lib json trust policy in
        ((r.valid ≡ true) ↔ (r.failure_reason ≡ none))
        × (1 ≤ r.stage_reached)
        × (r.stage_reached ≤ 8)
        × ((r.valid ≡ false)
            ⊎ ((r.stage_reached ≡ 4) ⊎ ((r.stage_reached ≡ 7) ⊎ (r.stage_reached ≡ 8))))
  unfolding verify_auditproof verify_checks check_activity_record signature_stages
      anchor_to_trust_chain anchored
  verdict_shape json trust policy = (ground arith, ground arith, ground arith, ground arith)

  stages_eight :
      (json : Value) (policy : VerifierPolicy) (version : Text) (m₀ : VerificationMetadata)
      → (signature_stages lib json version policy m₀).valid ≡ true
      → (signature_stages lib json version policy m₀).stage_reached ≡ 8
      → (manifest : TrustChainManifest) × (l : KeyLookupResult) × (policy.trust_chain
          ≡ some manifest)
        × (find_key manifest (claimed_authority lib json) (claimed_version lib json) ≡ some l)
        × (l.authority_record.revoked ≡ false)
        × (verify_signature_against lib json version l.key.public_key_b64 ≡ verified)
  unfolding signature_stages anchor_to_trust_chain anchored
  stages_eight json policy version m₀ valid stage = elim (Option-cases policy.trust_chain) [
    | inl without ↦ absurd (ground arith)
    | inr (m, em) ↦
        elim (Option-cases (find_key m (claimed_authority lib json) (claimed_version lib json))) [
          | inl unknown ↦ absurd (ground arith)
          | inr (l, el) ↦ (m, l, em, el, ground arith, ground arith)
        ]
  ]

  stages_anchored :
      (json : Value) (policy : VerifierPolicy) (version : Text) (m₀ : VerificationMetadata)
      (manifest : TrustChainManifest)
      → policy.trust_chain ≡ some manifest
      → (signature_stages lib json version policy m₀).valid ≡ true
      → ((signature_stages lib json version policy m₀).stage_reached ≡ 8)
        ⊎ (((signature_stages lib json version policy m₀).stage_reached ≡ 4)
            × (verify_signature lib json version ≡ absent))
  unfolding signature_stages anchor_to_trust_chain anchored
  stages_anchored json policy version m₀ m em valid =
      elim (Option-cases (find_key m (claimed_authority lib json) (claimed_version lib json))) [
        | inl unknown ↦ ground arith
        | inr (l, el) ↦ ground (arith, verified_not_absent lib json version l.key.public_key_b64)
      ]

  module _ (json : Value) (trust : List TrustedAuthority) (policy : VerifierPolicy)
      (valid : (verify_auditproof lib json trust policy).valid ≡ true) where
    checked_version :
        (v : Text) (m : VerificationMetadata)
        → verify_checks lib json policy ≡ next (v, m)
        → str_field lib json (text "cdp_version") ≡ some v
    unfolding verify_checks check_activity_record
    checked_version v m h = ground arith

    -- A document that is valid at stage 8 was checked against a trust-chain manifest: the manifest
    -- has the key of the document's authority and key version, that authority is not revoked, and
    -- the document's signature is an Ed25519 signature of its signed message under that key.
    pub stage_eight_sound :
        (verify_auditproof lib json trust policy).stage_reached ≡ 8
        → (manifest : TrustChainManifest) × (l : KeyLookupResult) × (version : Text)
          × (policy.trust_chain ≡ some manifest)
          × (find_key manifest (claimed_authority lib json) (claimed_version lib json) ≡ some l)
          × (l.authority_record.revoked ≡ false)
          × (str_field lib json (text "cdp_version") ≡ some version)
          × IsSignedBy lib json version l.key.public_key_b64
    stage_eight_sound stage =
        let (v, m₀, checked, same) = valid-checked lib json trust policy valid in
        let (m, l, em, el, active, good) =
          stages_eight json policy v m₀ (rw same at valid) (rw same at stage) in
        (
          m,
          l,
          v,
          em,
          el,
          active,
          checked_version v m₀ checked,
          verify_signature_against_sound lib json v l.key.public_key_b64 good,
        )

    -- With a manifest in the policy, a valid document is anchored at stage 8, or it has no
    -- signature that could be checked and stays at stage 4: stage 7 is not reached.
    pub anchored_or_unsigned :
        (manifest : TrustChainManifest)
        → policy.trust_chain ≡ some manifest
        → ((verify_auditproof lib json trust policy).stage_reached ≡ 8)
          ⊎ (((verify_auditproof lib json trust policy).stage_reached ≡ 4)
              × (version : Text) × (str_field lib json (text "cdp_version") ≡ some version)
              × (verify_signature lib json version ≡ absent))
    anchored_or_unsigned m em =
        let (v, m₀, checked, same) = valid-checked lib json trust policy valid in
        elim (stages_anchored json policy v m₀ m em (rw same at valid)) [
          | inl eight ↦ inl (rw same eight)
          | inr (four, unsigned) ↦ inr (rw same four, v, checked_version v m₀ checked, unsigned)
        ]
