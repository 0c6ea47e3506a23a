-- ===== src/PubkeyBundle/Tests.antt =====
-- pubkey_bundle.rs: a bundle of one key, and the theorems on it.
use nanorix_verify.Prelude.{
  All, ◌≡◌, ◌⊎◌, ◌↔◌, refl, none, some, [], ◌∷◌, Text, text, text_eq, strip_prefix,
}
use nanorix_verify.Sample.{crates, crates-SigningLaws, zeros, print}
use nanorix_verify.Steps.{strip_base64_prefix}
use nanorix_verify.PubkeyBundle.{
  PubKeyEntry, PortablePubkeyBundle, with_signature, placeholder, validate_entry, validate_entries,
  sign_bundle, bundle_value, canonical_bytes_for_signing, build_pubkey_bundle, verify_pubkey_bundle,
  resolve_parent_key,
}
use nanorix_verify.PubkeyBundle.Published.{
  IsPublished, verify_pubkey_bundle_iff, verify_pubkey_bundle-build_pubkey_bundle,
}
use nanorix_verify.PubkeyBundle.Resolve.{IsFirst, IsMatch, resolve_parent_key-IsFirst}

abbrev decode_error : Text → Text
decode_error t = t

abbrev entry : PubKeyEntry
entry = record {
  key_id = text "k";
  algorithm = text "Ed25519";
  public_key = zeros 32;
  valid_from = text "a";
  valid_until = none;
  issued_by_org = [];
}

abbrev built : PortablePubkeyBundle
built = placeholder crates decode_error [] (entry ∷ []) (text "k") [] []

abbrev signature : Text
signature = b'=' ∷ []

pubkey_iff_example :
    (verify_pubkey_bundle crates decode_error [] built (zeros 32) ≡ none)
    ↔ IsPublished crates decode_error [] built (zeros 32)
pubkey_iff_example = verify_pubkey_bundle_iff crates decode_error [] built (zeros 32)

pubkey_resolve_example :
    ((e : PubKeyEntry) × (resolve_parent_key crates decode_error [] built (text "k") 200 ≡ some e)
      × IsFirst crates decode_error [] (text "k") 200 (entry ∷ []) e)
    ⊎ ((resolve_parent_key crates decode_error [] built (text "k") 200 ≡ none)
        × All (λ d. ¬ IsMatch crates decode_error [] (text "k") 200 d) (entry ∷ []))
pubkey_resolve_example = resolve_parent_key-IsFirst crates decode_error [] built (text "k") 200

abbrev signed : PortablePubkeyBundle
signed = with_signature built (
    crates.base64_encode (
      crates.ed25519_sign (zeros 32)
        (print (bundle_value crates decode_error [] (with_signature built [])))))

pubkey_roundtrip_example :
    verify_pubkey_bundle crates decode_error [] signed (crates.ed25519_public (zeros 32)) ≡ none
unfolding zeros text_eq strip_prefix strip_base64_prefix validate_entry validate_entries
    canonical_bytes_for_signing sign_bundle build_pubkey_bundle
pubkey_roundtrip_example =
    verify_pubkey_bundle-build_pubkey_bundle crates decode_error [] crates-SigningLaws (entry ∷ [])
      (zeros 32) (text "k") [] [] signed refl refl
