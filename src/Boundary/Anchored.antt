-- ===== src/Boundary/Anchored.antt =====
-- boundary.rs: when `verify_boundary_attestation` anchors a document in the trust chain.
use nanorix_verify.Prelude.{
  ◌≡◌, ◌≢◌, ◌↔◌, refl, sym, ◌∙◌, arith, true, false, none, some, [], ◌∷◌, Text, text, text_eq-eq,
  text_eq_iff, is_empty, Option-cases, inl, inr,
}
use nanorix_verify.Libs.{Libs}
use nanorix_verify.Steps.{strip_hash_prefix}
use nanorix_verify.Receipts.{str_or_empty}
use nanorix_verify.Manifest.{TrustChainManifest, KeyLookupResult, find_key}
use nanorix_verify.Signature.{embedded_signature, verified, verify_message_with_key}
use nanorix_verify.Signature.Facts.{IsKeySignature, verify_message_with_key_iff}
use nanorix_verify.Pipeline.Verdict.{VerifierPolicy}
use nanorix_verify.Boundary.{
  recompute_boundary_canonical_hash, boundary_metadata, check_schema, check_canonical_hash,
  boundary_key, boundary_authority, check_authenticity, check_signatures,
  verify_boundary_attestation,
}
use nanorix_verify.Boundary.Schema.{IsWellFormed, check_schema_iff}

module _ (lib : Libs) where
  open lib use {Value}

  abbrev pub version_of : Value → Text
  version_of doc = str_or_empty lib doc (text "signing_key_version")

  -- What the document must be to be anchored under a policy.
  pub record IsAnchored (doc : Value) (policy : VerifierPolicy) : Type 0 where
    pub well_formed : IsWellFormed lib doc
    pub hash : Text
    pub recomputed : recompute_boundary_canonical_hash lib doc ≡ hash
    pub hashed : hash ≢ []
    pub claimed : strip_hash_prefix (str_or_empty lib doc (text "canonical_hash")) ≡ hash
    pub signature : Text
    pub has_signature : embedded_signature lib doc ≡ some signature
    pub embedded : Text
    pub has_key : boundary_key lib doc ≡ some embedded
    pub integrity : IsKeySignature lib hash signature embedded
    pub manifest : TrustChainManifest
    pub trusts : policy.trust_chain ≡ some manifest
    pub lookup : KeyLookupResult
    pub listed : find_key manifest (boundary_authority lib doc) (version_of doc) ≡ some lookup
    pub not_revoked : lookup.authority_record.revoked ≡ false
    pub authenticity : IsKeySignature lib hash signature lookup.key.public_key_b64

  canonical_sound :
      (doc : Value)
      → check_canonical_hash lib doc ≡ none
      → (recompute_boundary_canonical_hash lib doc ≢ [])
        × (strip_hash_prefix (str_or_empty lib doc (text "canonical_hash"))
            ≡ recompute_boundary_canonical_hash lib doc)
  unfolding check_canonical_hash
  canonical_sound doc h = (
    λ e. absurd (
        let x : is_empty (recompute_boundary_canonical_hash lib doc) ≡ true = rw e refl in
        ground arith),
    sym (text_eq-eq _ _ (ground arith)),
  )

  not_empty : (t : Text) → t ≢ [] → is_empty t ≡ false
  not_empty [] h = absurd (h refl)
  not_empty (c ∷ cs) h = refl

  canonical_complete :
      (doc : Value)
      → recompute_boundary_canonical_hash lib doc ≢ []
      → strip_hash_prefix (str_or_empty lib doc (text "canonical_hash"))
        ≡ recompute_boundary_canonical_hash lib doc
      → check_canonical_hash lib doc ≡ none
  unfolding check_canonical_hash
  canonical_complete doc filled same =
      let e₁ = not_empty (recompute_boundary_canonical_hash lib doc) filled in
      let e₂ = (text_eq_iff (recompute_boundary_canonical_hash lib doc) _).1 (sym same) in
      ground (arith, e₁, e₂)

  trust_anchored-IsAnchored :
      (doc : Value) (policy : VerifierPolicy)
      → (verify_boundary_attestation lib doc policy).trust_anchored ≡ true
      → IsAnchored doc policy
  unfolding verify_boundary_attestation check_signatures check_authenticity boundary_metadata
  trust_anchored-IsAnchored doc policy h = elim (Option-cases (check_schema lib doc)) [
    | inr (reason, e) ↦ absurd (ground arith)
    | inl schema ↦ elim (Option-cases (check_canonical_hash lib doc)) [
      | inr (reason, e) ↦ absurd (ground arith)
      | inl canonical ↦ elim (Option-cases (embedded_signature lib doc)) [
        | inl missing ↦ absurd (ground arith)
        | inr (sig, es) ↦ elim (Option-cases (boundary_key lib doc)) [
          | inl missing ↦ absurd (ground arith)
          | inr (key, ek) ↦ elim (Option-cases policy.trust_chain) [
            | inl missing ↦ absurd (ground arith)
            | inr (m, em) ↦
                elim (Option-cases (find_key m (boundary_authority lib doc) (version_of doc))) [
                  | inl missing ↦ absurd (ground arith)
                  | inr (l, el) ↦
                      let hash = recompute_boundary_canonical_hash lib doc in
                      let first : verify_message_with_key lib hash sig key ≡ verified =
                        ground arith in
                      let second : verify_message_with_key lib hash sig l.key.public_key_b64
                          ≡ verified =
                        ground arith in
                      let (filled, same) = canonical_sound doc canonical in
                      record {
                        well_formed = (check_schema_iff lib doc).0 schema;
                        hash = hash;
                        recomputed = refl;
                        hashed = filled;
                        claimed = same;
                        signature = sig;
                        has_signature = es;
                        embedded = key;
                        has_key = ek;
                        integrity = (verify_message_with_key_iff lib hash sig key).0 first;
                        manifest = m;
                        trusts = em;
                        lookup = l;
                        listed = el;
                        not_revoked = ground arith;
                        authenticity =
                            (verify_message_with_key_iff lib hash sig l.key.public_key_b64).0
                              second;
                      }
                ]
          ]
        ]
      ]
    ]
  ]

  IsAnchored-trust_anchored :
      (doc : Value) (policy : VerifierPolicy)
      → IsAnchored doc policy
      → (verify_boundary_attestation lib doc policy).trust_anchored ≡ true
  unfolding verify_boundary_attestation check_signatures check_authenticity boundary_metadata
  IsAnchored-trust_anchored doc policy a =
      let e₁ = (check_schema_iff lib doc).1 a.well_formed in
      let e₂ =
        canonical_complete doc (λ e. a.hashed (sym a.recomputed ∙ e))
          (a.claimed ∙ sym a.recomputed) in
      let e₃ = (verify_message_with_key_iff lib a.hash a.signature a.embedded).1 a.integrity in
      let e₄ =
        (verify_message_with_key_iff lib a.hash a.signature a.lookup.key.public_key_b64).1
          a.authenticity in
      rw (e₁, e₂, a.has_signature, a.has_key, a.trusts)
        (ground (arith, a.recomputed, e₃, a.listed, e₄, a.not_revoked))

  -- A boundary attestation is reported as anchored in the trust chain if and only if it is well
  -- formed, its canonical hash recomputes, and its signature is an Ed25519 signature of that hash
  -- under its embedded key and under the key that the policy's manifest lists for its authority and
  -- key version, whose authority is not revoked.
  pub trust_anchored_iff :
      (doc : Value) (policy : VerifierPolicy)
      → ((verify_boundary_attestation lib doc policy).trust_anchored ≡ true) ↔ IsAnchored doc policy
  trust_anchored_iff doc policy =
      (trust_anchored-IsAnchored doc policy, IsAnchored-trust_anchored doc policy)
