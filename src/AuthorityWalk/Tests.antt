-- ===== src/AuthorityWalk/Tests.antt =====
-- chain_walk.rs, trust_chain.rs: a manifest, and the theorems on the lookup and the walk on it.
use nanorix_verify.Prelude.{
  ◌≡◌, ◌↔◌, refl, false, none, some, [], ◌∷◌, Text, text, text_eq, text_lt, length,
}
use nanorix_verify.Sample.{crates}
use nanorix_verify.Manifest.{
  TrustChainManifest, AuthorityRecord, KeyVersionRecord, KeyLookupResult, archived, get_authority,
  find_version, find_in_authority, find_key,
}
use nanorix_verify.AuthorityWalk.{
  AuthorityWalkResolution, customer_attested, resolved, is_blank, barred, decode_key,
  walk_authority_chain,
}
use nanorix_verify.AuthorityWalk.Facts.{IsNotArchivedBefore, walk_authority_chain_iff}

abbrev key : Text
key = text "0123456789abcdef0123456789abcdef"

abbrev old_key : KeyVersionRecord
old_key = record {
  signing_key_version = text "1";
  public_key_b64 = key;
  public_key_fingerprint = [];
  effective_from = text "2024";
  archived_at = some (text "2026");
  algorithm = none;
}

abbrev customer : AuthorityRecord
customer = record {
  display_name = [];
  active_versions = [];
  archived_versions = old_key ∷ [];
  revoked = false;
}

abbrev manifest : TrustChainManifest
manifest = record {
  schema_version = text "1.0";
  issued_at = text "2026";
  authorities = (text "customer", customer) ∷ [];
  identity_fingerprint = [];
  identity_public_key_b64 = [];
  manifest_signature = [];
  pqc_manifest_signature = none;
}

abbrev result : KeyLookupResult
result = record { key = old_key; authority_record = customer; status = archived }

abbrev resolution : AuthorityWalkResolution
resolution = record {
  authority_id = text "customer";
  kind = customer_attested;
  public_key = key;
  key_status = archived;
  signing_key_version = text "1";
}

found_runs : find_key manifest (text "customer") (text "1") ≡ some result
unfolding find_key get_authority find_in_authority find_version text_eq
found_runs = refl

-- The proof is from 2023, and the key became effective in 2024.
walk_runs :
    walk_authority_chain crates
      (λ t. t)
      (text "customer")
      (text "1")
      customer_attested
      (text "2023")
      manifest
    ≡ resolved resolution
unfolding walk_authority_chain is_blank barred decode_key text_lt find_key get_authority
    find_in_authority find_version text_eq
walk_runs = refl

walk_authority_chain_iff_example :
    (walk_authority_chain crates
        (λ t. t)
        (text "customer")
        (text "1")
        customer_attested
        (text "2023")
        manifest
      ≡ resolved resolution)
    ↔ ((l : KeyLookupResult) × (find_key manifest (text "customer") (text "1") ≡ some l)
        × (is_blank (text "customer") ≡ false)
        × (l.authority_record.revoked ≡ false)
        × IsNotArchivedBefore l (text "2023")
        × (crates.base64_decode l.key.public_key_b64 ≡ some key)
        × (length key ≡ 32)
        × (text "customer" ≡ text "customer")
        × (customer_attested ≡ customer_attested)
        × (archived ≡ l.status)
        × (text "1" ≡ text "1"))
walk_authority_chain_iff_example =
    walk_authority_chain_iff crates (λ t. t) (text "customer") (text "1") customer_attested
      (text "2023") manifest resolution
