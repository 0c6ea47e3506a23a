-- ===== src/Manifest/Tests.antt =====
-- trust_chain.rs: a manifest without authorities, and the theorems on its signature.
use nanorix_verify.Prelude.{◌≡◌, ◌↔◌, refl, none, [], ◌++◌, Text, text, remove}
use nanorix_verify.Sample.{crates, crates-SigningLaws, zeros, print}
use nanorix_verify.Manifest.{TrustChainManifest}
use nanorix_verify.Manifest.Signed.{
  unsigned_manifest, manifest_entries, signed_payload, fingerprint, build_and_sign,
  verify_signature,
}
use nanorix_verify.Manifest.Trusted.{
  IsTrusted, verify_signature_iff, verify_signature-build_and_sign,
}

abbrev unsigned : TrustChainManifest
unsigned = unsigned_manifest crates (text "1") [] [] (zeros 32)

abbrev pin : Text
pin = fingerprint crates (zeros 32)

manifest_iff_example : (verify_signature crates unsigned pin ≡ none) ↔ IsTrusted crates unsigned pin
manifest_iff_example = verify_signature_iff crates unsigned pin

abbrev signed : TrustChainManifest
signed = record unsigned {
  manifest_signature =
      text "base64:"
      ++ crates.base64_encode (
          crates.ed25519_sign (zeros 32) (
            print (
              crates.object_value (
                remove (text "pqc_manifest_signature")
                  (remove (text "manifest_signature") (manifest_entries crates unsigned))))));
}

manifest_roundtrip_example : verify_signature crates signed pin ≡ none
unfolding build_and_sign signed_payload zeros
manifest_roundtrip_example =
    verify_signature-build_and_sign crates crates-SigningLaws (text "1") [] [] (zeros 32) signed
      refl refl
