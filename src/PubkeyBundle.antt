-- ===== src/PubkeyBundle.antt =====
-- tools/nanorix-verify/src/pubkey_bundle.rs: the portable bundle of public keys, its publisher's
-- signature, and the lookup of a key.
pub mod Published
pub mod Resolve
pub mod Tests
use nanorix_verify.Prelude.{
  ℕ, suc, Bool, true, false, ◌&&◌, Option, none, some, List, [], ◌∷◌, ◌++◌, map, Text, Bytes, text,
  text_eq, decimal, is_empty, if◌then◌else◌, ◌then◌, ◌>>=◌, ◌==◌, length,
}
use nanorix_verify.Libs.{Libs}
use nanorix_verify.Steps.{strip_base64_prefix}
use nanorix_verify.Manifest.Signed.{optional_entry}

pub record PubKeyEntry : Type 0 where
  pub key_id : Text
  pub algorithm : Text
  pub public_key : Text
  pub valid_from : Text
  pub valid_until : Option Text
  pub issued_by_org : Text

pub record BundleSignature : Type 0 where
  pub algorithm : Text
  pub signed_by_key_id : Text
  pub signature : Text

pub record PortablePubkeyBundle : Type 0 where
  pub bundle_version : Text
  pub bundle_type : Text
  pub generated_at : Text
  pub issuer_organization : Text
  pub pubkeys : List PubKeyEntry
  pub bundle_signature : BundleSignature
  pub disclaimer : Text

pub data PubkeyBundleError : Type 0 where
  unsupported_version : (found : Text) → PubkeyBundleError
  wrong_bundle_type : (found : Text) → PubkeyBundleError
  bundle_signature_failed : PubkeyBundleError
  invalid_publisher_key : (size : ℕ) → PubkeyBundleError
  invalid_signature_size : (size : ℕ) → PubkeyBundleError
  base64_decode_error : (field reason : Text) → PubkeyBundleError
  canonicalization : (reason : Text) → PubkeyBundleError
  invalid_entry : (idx : ℕ) (reason : Text) → PubkeyBundleError
  empty_bundle : PubkeyBundleError

-- `PORTABLE_PUBKEY_BUNDLE_DISCLAIMER`
unfoldable pub portable_pubkey_bundle_disclaimer : Text
portable_pubkey_bundle_disclaimer =
    text
      "This Portable Pubkey Bundle is a key-discovery aid for cross-org chain verification. The bundle_signature confirms publisher integrity. The bundle issuer attests that the listed pubkeys were valid as of generated_at; subsequent key rotation or revocation MUST be verified out-of-band by the consuming party."

-- The result of a step that can fail.
pub data Checked (A : Type 0) : Type 0 where
  error : PubkeyBundleError → Checked A
  ok : A → Checked A

-- `bundle_signature.signature = s`
abbrev pub with_signature : PortablePubkeyBundle → Text → PortablePubkeyBundle
with_signature b s = record b { bundle_signature = record b.bundle_signature { signature = s } }

-- `decode_error` is the text of the `base64` crate's error for an input, `jcs_error` that of
-- `serde_jcs`.
module _ (lib : Libs) (decode_error : Text → Text) (jcs_error : Text) where
  open lib use {
    Value, string_value, array_value, object_value, jcs_to_vec, base64_decode, base64_encode,
    ed25519_verify, ed25519_sign, Instant, parse_from_rfc3339, instant_le,
  }

  abbrev check_entry_key : PubKeyEntry → ℕ → Option Bytes → Option PubkeyBundleError
  check_entry_key entry idx none = some (
      invalid_entry idx
        (text "base64 decode failed: " ++ decode_error (strip_base64_prefix entry.public_key)))
  check_entry_key entry idx (some bytes) =
      if length bytes == 32
      then (if is_empty entry.key_id then some (invalid_entry idx (text "key_id empty")) else none)
      else some (
          invalid_entry idx
            (text "public_key wrong size: got " ++ (decimal (length bytes) ++ text ", want 32")))

  -- `none` is the source's `Ok(())`, here and below.
  unfoldable pub validate_entry : PubKeyEntry → ℕ → Option PubkeyBundleError
  validate_entry entry idx =
      if text_eq entry.algorithm (text "Ed25519")
      then check_entry_key entry idx (base64_decode (strip_base64_prefix entry.public_key))
      else some (invalid_entry idx (text "unsupported algorithm " ++ entry.algorithm))

  -- the loop over the entries, from position `i` on
  unfoldable pub validate_entries : ℕ → List PubKeyEntry → Option PubkeyBundleError
  validate_entries i [] = none
  validate_entries i (e ∷ es) =
      let rest = validate_entries (suc i) es in validate_entry e i then rest

  abbrev require_keys : List PubKeyEntry → Option PubkeyBundleError
  require_keys [] = some empty_bundle
  require_keys (e ∷ es) = none

  -- `serde_json::to_value`, from the derived `Serialize`
  unfoldable pub entry_value : PubKeyEntry → Value
  entry_value e = object_value (
      (text "key_id", string_value e.key_id)
      ∷ (text "algorithm", string_value e.algorithm)
      ∷ (text "public_key", string_value e.public_key)
      ∷ (text "valid_from", string_value e.valid_from)
      ∷ (optional_entry lib (text "valid_until") e.valid_until
          ++ (text "issued_by_org", string_value e.issued_by_org) ∷ []))

  unfoldable pub bundle_value : PortablePubkeyBundle → Value
  bundle_value b = object_value (
      (text "bundle_version", string_value b.bundle_version)
      ∷ (text "bundle_type", string_value b.bundle_type)
      ∷ (text "generated_at", string_value b.generated_at)
      ∷ (text "issuer_organization", string_value b.issuer_organization)
      ∷ (text "pubkeys", array_value (map entry_value b.pubkeys))
      ∷ (
        text "bundle_signature",
        object_value (
            (text "algorithm", string_value b.bundle_signature.algorithm)
            ∷ (text "signed_by_key_id", string_value b.bundle_signature.signed_by_key_id)
            ∷ (text "signature", string_value b.bundle_signature.signature)
            ∷ []),
      )
      ∷ (text "disclaimer", string_value b.disclaimer)
      ∷ [])

  -- `none` is the error `Canonicalization`.
  unfoldable pub canonical_bytes_for_signing : PortablePubkeyBundle → Option Bytes
  canonical_bytes_for_signing b = jcs_to_vec (bundle_value (with_signature b []))

  -- The publisher's signing key is its seed, and `generated_at` is the clock.
  unfoldable pub sign_bundle : PortablePubkeyBundle → Bytes → Checked PortablePubkeyBundle
  sign_bundle placeholder seed = elim (canonical_bytes_for_signing placeholder) [
    | none ↦ error (canonicalization (text "serde_jcs::to_vec failed: " ++ jcs_error))
    | some canonical ↦ ok (with_signature placeholder (base64_encode (ed25519_sign seed canonical)))
  ]

  abbrev pub placeholder : List PubKeyEntry → Text → Text → Text → PortablePubkeyBundle
  placeholder keys key_id org generated_at = record {
    bundle_version = text "1.0";
    bundle_type = text "pubkey";
    generated_at = generated_at;
    issuer_organization = org;
    pubkeys = keys;
    bundle_signature = record {
      algorithm = text "Ed25519";
      signed_by_key_id = key_id;
      signature = [];
    };
    disclaimer = portable_pubkey_bundle_disclaimer;
  }

  unfoldable pub build_pubkey_bundle :
      List PubKeyEntry → Bytes → Text → Text → Text → Checked PortablePubkeyBundle
  build_pubkey_bundle keys seed key_id org generated_at =
      elim (require_keys keys then validate_entries 0 keys) [
        | some e ↦ error e
        | none ↦ sign_bundle (placeholder keys key_id org generated_at) seed
      ]

  -- the Ed25519 check; the source clears the signature before it serialises, which clears it again
  unfoldable pub check_bundle_bytes :
      PortablePubkeyBundle → Bytes → Option Bytes → Option PubkeyBundleError
  check_bundle_bytes b key none = some (
      base64_decode_error (text "bundle_signature.signature")
        (decode_error (strip_base64_prefix b.bundle_signature.signature)))
  check_bundle_bytes b key (some sig) =
      if length sig == 64
      then elim (canonical_bytes_for_signing (with_signature b [])) [
        | none ↦ some (canonicalization (text "serde_jcs::to_vec failed: " ++ jcs_error))
        | some canonical ↦
            if ed25519_verify key canonical sig then none else some bundle_signature_failed
      ]
      else some (invalid_signature_size (length sig))

  unfoldable pub check_header : PortablePubkeyBundle → Option PubkeyBundleError
  check_header b =
      (if text_eq b.bundle_version (text "1.0")
        then none
        else some (unsupported_version b.bundle_version))
      then (if text_eq b.bundle_type (text "pubkey")
          then none
          else some (wrong_bundle_type b.bundle_type))

  -- The key is a `VerifyingKey`, that is, one that `from_bytes` took.
  unfoldable pub verify_pubkey_bundle : PortablePubkeyBundle → Bytes → Option PubkeyBundleError
  verify_pubkey_bundle b key =
      check_header b
      then require_keys b.pubkeys
      then validate_entries 0 b.pubkeys
      then check_bundle_bytes b key
          (base64_decode (strip_base64_prefix b.bundle_signature.signature))

  -- the `match` on the window
  abbrev in_window : Instant → Option Instant → Option Instant → Bool
  in_window at none until = false
  in_window at (some from) none = instant_le from at
  in_window at (some from) (some until) = instant_le from at && instant_le at until

  unfoldable pub resolves : Text → Instant → PubKeyEntry → Bool
  resolves key_id at entry =
      text_eq entry.key_id key_id
      && in_window at (parse_from_rfc3339 entry.valid_from)
          (entry.valid_until >>= parse_from_rfc3339)

  unfoldable pub find_entry : (PubKeyEntry → Bool) → List PubKeyEntry → Option PubKeyEntry
  find_entry matches [] = none
  find_entry matches (e ∷ es) =
      let later = find_entry matches es in if matches e then some e else later

  unfoldable pub resolve_parent_key : PortablePubkeyBundle → Text → Instant → Option PubKeyEntry
  resolve_parent_key b key_id at = find_entry (resolves key_id at) b.pubkeys

  unfoldable pub resolve_parent_key_forever : PortablePubkeyBundle → Text → Option PubKeyEntry
  resolve_parent_key_forever b key_id = find_entry (λ e. text_eq e.key_id key_id) b.pubkeys
