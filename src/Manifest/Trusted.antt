-- ===== src/Manifest/Trusted.antt =====
-- trust_chain.rs: which manifests `verify_signature` accepts, and that it accepts those that
-- `build_and_sign` makes.
use nanorix_verify.Prelude.{
  ◌≡◌, ◌↔◌, refl, ◌∙◌, arith, true, none, some, List, ◌++◌, Text, Bytes, text, text_eq, text_eq-eq,
  text_eq_iff, strip_prefix-append, Option-cases, inl, inr, length, ==_iff,
}
use nanorix_verify.Libs.{Libs}
use nanorix_verify.Steps.{strip_base64_prefix}
use nanorix_verify.Manifest.{TrustChainManifest, AuthorityRecord}
use nanorix_verify.Manifest.Signed.{
  signed_payload, manifest_entries, fingerprint, check_payload, check_identity, verify_signature,
  build_and_sign, unsigned_manifest,
}
use nanorix_verify.Signature.Laws.{SigningLaws}

module _ (lib : Libs) where
  open lib use {
    base64_decode, base64_encode, ed25519_key_valid, ed25519_verify, ed25519_public, ed25519_sign,
  }

  -- A manifest under a pinned identity: the key it carries has the pinned fingerprint and signs it.
  pub record IsTrusted (m : TrustChainManifest) (pinned : Text) : Type 0 where
    pub key : Bytes
    pub key_bytes : base64_decode (strip_base64_prefix m.identity_public_key_b64) ≡ some key
    pub key_size : length key ≡ 32
    pub key_valid : ed25519_key_valid key ≡ true
    pub own_fingerprint : fingerprint lib key ≡ m.identity_fingerprint
    pub pinned_fingerprint : fingerprint lib key ≡ pinned
    pub sig : Bytes
    pub signature_bytes : base64_decode (strip_base64_prefix m.manifest_signature) ≡ some sig
    pub signature_size : length sig ≡ 64
    pub payload : Bytes
    pub serialises : signed_payload lib m ≡ some payload
    pub verifies : ed25519_verify key payload sig ≡ true

  verified-IsTrusted :
      (m : TrustChainManifest) (pinned : Text)
      → verify_signature lib m pinned ≡ none
      → IsTrusted m pinned
  unfolding verify_signature check_identity check_payload
  verified-IsTrusted m pinned h =
      elim (Option-cases (base64_decode (strip_base64_prefix m.identity_public_key_b64))) [
        | inl bad ↦ absurd (ground arith)
        | inr (key, ek) ↦
            elim (Option-cases (base64_decode (strip_base64_prefix m.manifest_signature))) [
              | inl bad ↦ absurd (ground arith)
              | inr (sig, es) ↦ elim (Option-cases (signed_payload lib m)) [
                | inl bad ↦ absurd (ground arith)
                | inr (payload, ep) ↦ record {
                  key = key;
                  key_bytes = ek;
                  key_size = ground arith;
                  key_valid = ground arith;
                  own_fingerprint = text_eq-eq _ _ (ground arith);
                  pinned_fingerprint = text_eq-eq _ _ (ground arith);
                  sig = sig;
                  signature_bytes = es;
                  signature_size = ground arith;
                  payload = payload;
                  serialises = ep;
                  verifies = ground arith;
                }
              ]
            ]
      ]

  IsTrusted-verified :
      (m : TrustChainManifest) (pinned : Text)
      → IsTrusted m pinned
      → verify_signature lib m pinned ≡ none
  unfolding verify_signature check_identity check_payload
  IsTrusted-verified m pinned t =
      rw
        (
          t.key_bytes,
          (==_iff _ _).1 t.key_size,
          t.key_valid,
          (text_eq_iff _ _).1 t.own_fingerprint,
          (text_eq_iff _ _).1 t.pinned_fingerprint,
          t.signature_bytes,
          (==_iff _ _).1 t.signature_size,
        )
        (ground (arith, t.serialises, t.verifies))

  -- A manifest is accepted if and only if its identity key has the fingerprint that it claims and
  -- that is pinned, and its signature is an Ed25519 signature of its payload under that key.
  pub verify_signature_iff :
      (m : TrustChainManifest) (pinned : Text)
      → (verify_signature lib m pinned ≡ none) ↔ IsTrusted m pinned
  verify_signature_iff m pinned = (verified-IsTrusted m pinned, IsTrusted-verified m pinned)

  pub strip_encoded :
      SigningLaws lib → (b : Bytes) → base64_decode (strip_base64_prefix (base64_encode b)) ≡ some b
  unfolding strip_base64_prefix
  strip_encoded laws b = rw (laws.encode_unprefixed b) (laws.decode_encode b)

  strip_prefixed :
      SigningLaws lib
      → (b : Bytes)
      → base64_decode (strip_base64_prefix (text "base64:" ++ base64_encode b)) ≡ some b
  unfolding strip_base64_prefix
  strip_prefixed laws b =
      rw (strip_prefix-append (text "base64:") (base64_encode b)) (laws.decode_encode b)

  -- The signature has no part in the payload.
  payload_unsigned :
      (m : TrustChainManifest) (signature : Text)
      → signed_payload lib (record m { manifest_signature = signature }) ≡ signed_payload lib m
  unfolding signed_payload manifest_entries text_eq
  payload_unsigned m signature = refl

  -- Given the laws of signing and a seed of 32 bytes, the manifest that `build_and_sign` makes, if
  -- its payload serialises, is accepted under the fingerprint of the public key.
  pub verify_signature-build_and_sign :
      SigningLaws lib
      → (schema_version issued_at : Text) (authorities : List (Text × AuthorityRecord))
      → (seed : Bytes) (m : TrustChainManifest) → length seed ≡ 32
      → build_and_sign lib schema_version issued_at authorities seed ≡ some m
      → verify_signature lib m (fingerprint lib (ed25519_public seed)) ≡ none
  verify_signature-build_and_sign laws schema_version issued_at authorities seed m size h =
      let public = ed25519_public seed in
      let u = unsigned_manifest lib schema_version issued_at authorities public in
      elim (Option-cases (signed_payload lib u)) [
        | inl bad ↦ absurd (unfold build_and_sign in ground arith)
        | inr (payload, e) ↦
            let sig = ed25519_sign seed payload in
            let s = record u { manifest_signature = text "base64:" ++ base64_encode sig } in
            let same : s ≡ m = unfold build_and_sign in ground arith in
            rw (← same) (
              IsTrusted-verified s (fingerprint lib public) record {
                key = public;
                key_bytes = strip_encoded laws public;
                key_size = laws.public_size seed size;
                key_valid = laws.public_valid seed size;
                own_fingerprint = refl;
                pinned_fingerprint = refl;
                sig = sig;
                signature_bytes = strip_prefixed laws sig;
                signature_size = laws.signature_size seed payload size;
                payload = payload;
                serialises = payload_unsigned u (text "base64:" ++ base64_encode sig) ∙ e;
                verifies = laws.verify_sign seed payload size;
              })
      ]
