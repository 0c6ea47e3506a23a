-- ===== src/PubkeyBundle/Published.antt =====
-- pubkey_bundle.rs: which bundles `verify_pubkey_bundle` accepts, and that it accepts those that
-- `build_pubkey_bundle` makes.
use nanorix_verify.Prelude.{
  All, ℕ, suc, ◌≡◌, ◌≢◌, ◌↔◌, refl, ◌∙◌, arith, true, false, none, some, List, [], ◌∷◌, Text, Bytes,
  text, text_eq-eq, text_eq_iff, is_empty, ◌then◌, Option-cases, inl, inr, length, ==_iff,
}
use nanorix_verify.Libs.{Libs}
use nanorix_verify.Steps.{strip_base64_prefix}
use nanorix_verify.Signature.Laws.{SigningLaws}
use nanorix_verify.Manifest.Trusted.{strip_encoded}
use nanorix_verify.PubkeyBundle.{
  PubKeyEntry, PortablePubkeyBundle, ok, with_signature, validate_entry, validate_entries,
  require_keys, canonical_bytes_for_signing, sign_bundle, placeholder, build_pubkey_bundle,
  check_header, check_bundle_bytes, verify_pubkey_bundle,
}

module _ (lib : Libs) (decode_error : Text → Text) (jcs_error : Text) where
  open lib use {base64_decode, base64_encode, ed25519_verify, ed25519_public, ed25519_sign}

  -- An entry with a named Ed25519 key of 32 bytes.
  pub record IsUsable (e : PubKeyEntry) : Type 0 where
    pub ed25519 : e.algorithm ≡ text "Ed25519"
    pub key : Bytes
    pub key_bytes : base64_decode (strip_base64_prefix e.public_key) ≡ some key
    pub key_size : length key ≡ 32
    pub named : e.key_id ≢ []

  -- A bundle that its publisher signed.
  pub record IsPublished (b : PortablePubkeyBundle) (publisher : Bytes) : Type 0 where
    pub version : b.bundle_version ≡ text "1.0"
    pub type_ : b.bundle_type ≡ text "pubkey"
    pub has_keys : b.pubkeys ≢ []
    pub usable : All IsUsable b.pubkeys
    pub sig : Bytes
    pub signature_bytes :
        base64_decode (strip_base64_prefix b.bundle_signature.signature) ≡ some sig
    pub signature_size : length sig ≡ 64
    pub canonical : Bytes
    pub serialises : canonical_bytes_for_signing lib decode_error jcs_error b ≡ some canonical
    pub verifies : ed25519_verify publisher canonical sig ≡ true

  not_empty : (t : Text) → is_empty t ≡ false → t ≢ []
  not_empty [] h = absurd (ground arith)
  not_empty (c ∷ cs) h = cc

  empty_false : (t : Text) → t ≢ [] → is_empty t ≡ false
  empty_false [] h = absurd (h refl)
  empty_false (c ∷ cs) h = refl

  entry-IsUsable :
      (e : PubKeyEntry) (i : ℕ) → validate_entry lib decode_error jcs_error e i ≡ none → IsUsable e
  unfolding validate_entry
  entry-IsUsable e i h = elim (Option-cases (base64_decode (strip_base64_prefix e.public_key))) [
    | inl bad ↦ absurd (ground arith)
    | inr (key, ek) ↦ record {
      ed25519 = text_eq-eq _ _ (ground arith);
      key = key;
      key_bytes = ek;
      key_size = ground arith;
      named = not_empty _ (ground arith);
    }
  ]

  IsUsable-entry :
      (e : PubKeyEntry) (i : ℕ) → IsUsable e → validate_entry lib decode_error jcs_error e i ≡ none
  unfolding validate_entry
  IsUsable-entry e i u =
      rw
        (
          (text_eq_iff _ _).1 u.ed25519,
          u.key_bytes,
          (==_iff _ _).1 u.key_size,
          empty_false _ u.named,
        )
        refl

  entries-All :
      (i : ℕ) (es : List PubKeyEntry)
      → validate_entries lib decode_error jcs_error i es ≡ none
      → All IsUsable es
  unfolding validate_entries
  entries-All i [] h = tt
  entries-All i (e ∷ es) h =
      (entry-IsUsable e i (ground arith), entries-All (suc i) es (ground arith))

  All-entries :
      (i : ℕ) (es : List PubKeyEntry)
      → All IsUsable es
      → validate_entries lib decode_error jcs_error i es ≡ none
  unfolding validate_entries
  All-entries i [] u = refl
  All-entries i (e ∷ es) (u, us) = rw (IsUsable-entry e i u) (All-entries (suc i) es us)

  keys-nonempty :
      (es : List PubKeyEntry) → require_keys lib decode_error jcs_error es ≡ none → es ≢ []
  keys-nonempty [] h = absurd (ground arith)
  keys-nonempty (e ∷ es) h = cc

  nonempty-keys :
      (es : List PubKeyEntry) → es ≢ [] → require_keys lib decode_error jcs_error es ≡ none
  nonempty-keys [] h = absurd (h refl)
  nonempty-keys (e ∷ es) h = refl

  -- Clearing a signature twice is clearing it once.
  cleared :
      (b : PortablePubkeyBundle) (s : Text)
      → canonical_bytes_for_signing lib decode_error jcs_error (with_signature b s)
        ≡ canonical_bytes_for_signing lib decode_error jcs_error b
  unfolding canonical_bytes_for_signing
  cleared b s = refl

  verified-IsPublished :
      (b : PortablePubkeyBundle) (publisher : Bytes)
      → verify_pubkey_bundle lib decode_error jcs_error b publisher ≡ none
      → IsPublished b publisher
  unfolding verify_pubkey_bundle check_header check_bundle_bytes
  verified-IsPublished b publisher h =
      elim (Option-cases (base64_decode (strip_base64_prefix b.bundle_signature.signature))) [
        | inl bad ↦ absurd (ground arith)
        | inr (sig, es) ↦
            elim (Option-cases (canonical_bytes_for_signing lib decode_error jcs_error b)) [
              | inl bad ↦ absurd (ground (arith, cleared b []))
              | inr (canonical, ec) ↦ record {
                version = text_eq-eq _ _ (ground arith);
                type_ = text_eq-eq _ _ (ground arith);
                has_keys = keys-nonempty b.pubkeys (ground arith);
                usable = entries-All 0 b.pubkeys (ground arith);
                sig = sig;
                signature_bytes = es;
                signature_size = ground arith;
                canonical = canonical;
                serialises = ec;
                verifies = ground (arith, cleared b []);
              }
            ]
      ]

  IsPublished-verified :
      (b : PortablePubkeyBundle) (publisher : Bytes)
      → IsPublished b publisher
      → verify_pubkey_bundle lib decode_error jcs_error b publisher ≡ none
  unfolding verify_pubkey_bundle check_header check_bundle_bytes
  IsPublished-verified b publisher p =
      rw
        (
          (text_eq_iff _ _).1 p.version,
          (text_eq_iff _ _).1 p.type_,
          nonempty-keys b.pubkeys p.has_keys,
          All-entries 0 b.pubkeys p.usable,
          p.signature_bytes,
          (==_iff _ _).1 p.signature_size,
        )
        (ground (arith, cleared b [], p.serialises, p.verifies))

  -- A bundle of public keys is accepted if and only if it has the supported version and type, at
  -- least one entry, each entry a named Ed25519 key of 32 bytes, and a signature of 64 bytes that
  -- is an Ed25519 signature of the bundle without it under the publisher's key.
  pub verify_pubkey_bundle_iff :
      (b : PortablePubkeyBundle) (publisher : Bytes)
      → (verify_pubkey_bundle lib decode_error jcs_error b publisher ≡ none)
        ↔ IsPublished b publisher
  verify_pubkey_bundle_iff b publisher =
      (verified-IsPublished b publisher, IsPublished-verified b publisher)

  -- Given the laws of signing and a seed of 32 bytes, a bundle that `build_pubkey_bundle` makes is
  -- accepted under the public key of the seed.
  pub verify_pubkey_bundle-build_pubkey_bundle :
      SigningLaws lib
      → (keys : List PubKeyEntry) (seed : Bytes) (key_id org generated_at : Text)
      → (b : PortablePubkeyBundle) → length seed ≡ 32
      → build_pubkey_bundle lib decode_error jcs_error keys seed key_id org generated_at ≡ ok b
      → verify_pubkey_bundle lib decode_error jcs_error b (ed25519_public seed) ≡ none
  unfolding build_pubkey_bundle sign_bundle
  verify_pubkey_bundle-build_pubkey_bundle laws keys seed key_id org generated_at b size h =
      let p = placeholder lib decode_error jcs_error keys key_id org generated_at in
      elim (Option-cases (
        require_keys lib decode_error jcs_error keys
        then validate_entries lib decode_error jcs_error 0 keys)) [
          | inr (e, bad) ↦ absurd (ground arith)
          | inl checked ↦
              elim (Option-cases (canonical_bytes_for_signing lib decode_error jcs_error p)) [
                | inl bad ↦ absurd (ground arith)
                | inr (canonical, ec) ↦
                    let sig = ed25519_sign seed canonical in
                    let signed = with_signature p (base64_encode sig) in
                    let same : signed ≡ b = ground arith in
                    rw (← same) (
                      IsPublished-verified signed (ed25519_public seed) record {
                        version = refl;
                        type_ = refl;
                        has_keys = keys-nonempty keys (ground arith);
                        usable = entries-All 0 keys (ground arith);
                        sig = sig;
                        signature_bytes = strip_encoded lib laws sig;
                        signature_size = laws.signature_size seed canonical size;
                        canonical = canonical;
                        serialises = cleared p (base64_encode sig) ∙ ec;
                        verifies = laws.verify_sign seed canonical size;
                      })
              ]
        ]
