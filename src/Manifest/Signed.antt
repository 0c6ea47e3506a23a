-- ===== src/Manifest/Signed.antt =====
-- trust_chain.rs: the manifest's own signature under the long-term identity key.
use nanorix_verify.Prelude.{
  ◌&&◌, Option, none, some, List, [], ◌∷◌, ◌++◌, map, Text, Bytes, text, text_eq, if◌then◌else◌,
  ◌>>=◌, remove,
}
use nanorix_verify.Libs.{Libs}
use nanorix_verify.Manifest.{TrustChainManifest, AuthorityRecord, KeyVersionRecord}
use nanorix_verify.Signature.{decode_sized}

pub data ManifestError : Type 0 where
  malformed : ManifestError
  fingerprint_mismatch : (pinned computed : Text) → ManifestError
  signature_invalid : ManifestError

module _ (lib : Libs) where
  open lib use {
    Value, string_value, bool_value, array_value, object_value, jcs_to_vec, sha256, hex_encode,
    base64_encode, ed25519_key_valid, ed25519_verify, ed25519_public, ed25519_sign,
  }

  -- `skip_serializing_if = "Option::is_none"`
  abbrev pub optional_entry : Text → Option Text → List (Text × Value)
  optional_entry key none = []
  optional_entry key (some t) = (key, string_value t) ∷ []

  -- `serde_json::to_value`, from the derived `Serialize`
  unfoldable pub key_value : KeyVersionRecord → Value
  key_value r = object_value (
      (text "signing_key_version", string_value r.signing_key_version)
      ∷ (text "public_key_b64", string_value r.public_key_b64)
      ∷ (text "public_key_fingerprint", string_value r.public_key_fingerprint)
      ∷ (text "effective_from", string_value r.effective_from)
      ∷ (optional_entry (text "archived_at") r.archived_at
          ++ optional_entry (text "algorithm") r.algorithm))

  unfoldable pub authority_value : AuthorityRecord → Value
  authority_value a = object_value (
      (text "display_name", string_value a.display_name)
      ∷ (text "active_versions", array_value (map key_value a.active_versions))
      ∷ (text "archived_versions", array_value (map key_value a.archived_versions))
      ∷ (text "revoked", bool_value a.revoked)
      ∷ [])

  abbrev authority_entries : List (Text × AuthorityRecord) → List (Text × Value)
  authority_entries [] = []
  authority_entries ((id, a) ∷ rest) = (id, authority_value a) ∷ authority_entries rest

  unfoldable pub manifest_entries : TrustChainManifest → List (Text × Value)
  manifest_entries m =
      (text "schema_version", string_value m.schema_version)
      ∷ (text "issued_at", string_value m.issued_at)
      ∷ (text "authorities", object_value (authority_entries m.authorities))
      ∷ (text "identity_fingerprint", string_value m.identity_fingerprint)
      ∷ (text "identity_public_key_b64", string_value m.identity_public_key_b64)
      ∷ (text "manifest_signature", string_value m.manifest_signature)
      ∷ optional_entry (text "pqc_manifest_signature") m.pqc_manifest_signature

  -- `none` is the error `Malformed`.
  unfoldable pub signed_payload : TrustChainManifest → Option Bytes
  signed_payload m = jcs_to_vec (
      object_value (
        remove (text "pqc_manifest_signature")
          (remove (text "manifest_signature") (manifest_entries m))))

  unfoldable pub fingerprint : Bytes → Text
  fingerprint pubkey = text "sha256:" ++ hex_encode (sha256 pubkey)

  -- the Ed25519 check over the payload; `none` is the source's `Ok(())`, here and below
  unfoldable pub check_payload : TrustChainManifest → Bytes → Option Bytes → Option ManifestError
  check_payload m key none = some signature_invalid
  check_payload m key (some sig) = elim (signed_payload m) [
    | none ↦ some malformed
    | some payload ↦ if ed25519_verify key payload sig then none else some signature_invalid
  ]

  -- from the fingerprint on
  unfoldable pub check_identity : TrustChainManifest → Text → Option Bytes → Option ManifestError
  check_identity m pinned none = some malformed
  check_identity m pinned (some key) =
      let computed = fingerprint key in
      if ed25519_key_valid key
      then (if text_eq computed m.identity_fingerprint && text_eq computed pinned
          then check_payload m key (decode_sized lib 64 m.manifest_signature)
          else some (fingerprint_mismatch pinned computed))
      else some malformed

  unfoldable pub verify_signature : TrustChainManifest → Text → Option ManifestError
  verify_signature m pinned =
      check_identity m pinned (decode_sized lib 32 m.identity_public_key_b64)

  abbrev pub unsigned_manifest :
      Text → Text → List (Text × AuthorityRecord) → Bytes → TrustChainManifest
  unsigned_manifest schema_version issued_at authorities public = record {
    schema_version = schema_version;
    issued_at = issued_at;
    authorities = authorities;
    identity_fingerprint = fingerprint public;
    identity_public_key_b64 = base64_encode public;
    manifest_signature = [];
    pqc_manifest_signature = none;
  }

  -- The key is its seed; `none` is the panic of `expect`.
  unfoldable pub build_and_sign :
      Text → Text → List (Text × AuthorityRecord) → Bytes → Option TrustChainManifest
  build_and_sign schema_version issued_at authorities seed =
      let m = unsigned_manifest schema_version issued_at authorities (ed25519_public seed) in
      do
        payload ← signed_payload m
        some (record m {
          manifest_signature = text "base64:" ++ base64_encode (ed25519_sign seed payload);
        })
