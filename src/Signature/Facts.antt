-- ===== src/Signature/Facts.antt =====
-- canonical_recompute.rs: what a verified signature means.
use nanorix_verify.Prelude.{
  ◌≡◌, ◌≢◌, ◌↔◌, refl, arith, ==_iff, true, none, some, Text, Bytes, length, Option-cases, inl, inr,
  strip_prefix,
}
use nanorix_verify.Libs.{Libs}
use nanorix_verify.Steps.{strip_base64_prefix}
use nanorix_verify.Signature.{
  verified, absent, check_message, signed_message, verify_message_with_key, verify_signature,
  verify_signature_against, embedded_signature, embedded_key, unsupported_mode_sentinel,
}

module _ (lib : Libs) where
  open lib use {Value, base64_decode, ed25519_key_valid, ed25519_verify}

  -- The Ed25519 check of the document's signature under one base64 key, in full.
  pub record IsSignedBy (proof : Value) (version pub_b64 : Text) : Type 0 where
    pub sig_b64 : Text
    pub message : Text
    pub sig : Bytes
    pub key : Bytes
    pub has_signature : embedded_signature lib proof ≡ some sig_b64
    pub signs : signed_message lib proof version ≡ some message
    pub supported : strip_prefix unsupported_mode_sentinel message ≡ none
    pub signature_bytes : base64_decode (strip_base64_prefix sig_b64) ≡ some sig
    pub signature_size : length sig ≡ 64
    pub key_bytes : base64_decode (strip_base64_prefix pub_b64) ≡ some key
    pub key_size : length key ≡ 32
    pub key_valid : ed25519_key_valid key ≡ true
    pub verifies : ed25519_verify key message sig ≡ true

  pub message_verified :
      (message sig_b64 pub_b64 : Text)
      → verify_message_with_key lib message sig_b64 pub_b64 ≡ verified
      → (sig : Bytes) × (key : Bytes) × (base64_decode (strip_base64_prefix sig_b64) ≡ some sig)
        × (length sig ≡ 64)
        × (base64_decode (strip_base64_prefix pub_b64) ≡ some key)
        × (length key ≡ 32)
        × (ed25519_key_valid key ≡ true)
        × (ed25519_verify key message sig ≡ true)
  unfolding verify_message_with_key
  message_verified message sig_b64 pub_b64 h =
      elim (Option-cases (base64_decode (strip_base64_prefix sig_b64))) [
        | inl bad ↦ absurd (ground arith)
        | inr (sig, es) ↦ elim (Option-cases (base64_decode (strip_base64_prefix pub_b64))) [
          | inl bad ↦ absurd (ground arith)
          | inr (key, ek) ↦
              (sig, key, es, ground arith, ek, ground arith, ground arith, ground arith)
        ]
      ]

  -- The Ed25519 check of one message under a base64 signature and key.
  pub record IsKeySignature (message sig_b64 pub_b64 : Text) : Type 0 where
    pub sig : Bytes
    pub key : Bytes
    pub signature_bytes : base64_decode (strip_base64_prefix sig_b64) ≡ some sig
    pub signature_size : length sig ≡ 64
    pub key_bytes : base64_decode (strip_base64_prefix pub_b64) ≡ some key
    pub key_size : length key ≡ 32
    pub key_valid : ed25519_key_valid key ≡ true
    pub verifies : ed25519_verify key message sig ≡ true

  pub verify_message_with_key_iff :
      (message sig_b64 pub_b64 : Text)
      → (verify_message_with_key lib message sig_b64 pub_b64 ≡ verified)
        ↔ IsKeySignature message sig_b64 pub_b64
  verify_message_with_key_iff message sig_b64 pub_b64 = (
    λ h.
        let (sig, key, e₁, e₂, e₃, e₄, e₅, e₆) = message_verified message sig_b64 pub_b64 h in
        record {
          sig = sig;
          key = key;
          signature_bytes = e₁;
          signature_size = e₂;
          key_bytes = e₃;
          key_size = e₄;
          key_valid = e₅;
          verifies = e₆;
        },
    λ s.
        unfold verify_message_with_key in
        rw
          (
            s.signature_bytes,
            (==_iff _ _).1 s.signature_size,
            s.key_bytes,
            (==_iff _ _).1 s.key_size,
            s.key_valid,
            s.verifies,
          )
          refl,
  )

  -- A signature that verifies against a given key is an Ed25519 signature of the document's signed
  -- message under that key, with a signature of 64 and a key of 32 bytes.
  pub verify_signature_against_sound :
      (proof : Value) (version pub_b64 : Text)
      → verify_signature_against lib proof version pub_b64 ≡ verified
      → IsSignedBy proof version pub_b64
  unfolding verify_signature_against check_message
  verify_signature_against_sound proof version pub_b64 h =
      elim (Option-cases (embedded_signature lib proof)) [
        | inl bad ↦ absurd (ground arith)
        | inr (s, es) ↦ elim (Option-cases (signed_message lib proof version)) [
          | inl bad ↦ absurd (ground arith)
          | inr (m, em) ↦
              let (sig, key, e₁, e₂, e₃, e₄, e₅, e₆) =
                message_verified m s pub_b64 (ground arith) in
              record {
                sig_b64 = s;
                message = m;
                sig = sig;
                key = key;
                has_signature = es;
                signs = em;
                supported = ground arith;
                signature_bytes = e₁;
                signature_size = e₂;
                key_bytes = e₃;
                key_size = e₄;
                key_valid = e₅;
                verifies = e₆;
              }
        ]
      ]

  -- Where the embedded key verifies, the check against any other key has a signature and a message.
  pub verified_not_absent :
      (proof : Value) (version pub_b64 : Text)
      → verify_signature lib proof version ≡ verified
      → verify_signature_against lib proof version pub_b64 ≢ absent
  unfolding verify_signature verify_signature_against check_message verify_message_with_key
  verified_not_absent proof version pub_b64 h = ground arith

  -- A signature that verifies in the document itself is one under the document's embedded key.
  pub embedded_verified :
      (proof : Value) (version : Text)
      → verify_signature lib proof version ≡ verified
      → (pub_b64 : Text) × (embedded_key lib proof ≡ some pub_b64)
        × IsSignedBy proof version pub_b64
  unfolding verify_signature
  embedded_verified proof version h = elim (Option-cases (embedded_key lib proof)) [
    | inl bad ↦ absurd (ground arith)
    | inr (k, ek) ↦ (
      k,
      ek,
      verify_signature_against_sound proof version k
          (unfold verify_signature_against in ground arith),
    )
  ]
