-- ===== src/Manifest.antt =====
-- tools/nanorix-verify/src/trust_chain.rs: the trust-chain manifest and the lookup of a key.
pub mod Lookup
pub mod Signed
pub mod Trusted
pub mod Tests
use nanorix_verify.Prelude.{
  ℕ, ◌+◌, Bool, Option, none, some, List, [], ◌∷◌, Text, text, text_eq, if◌then◌else◌, length,
  is_some,
}
use mathlib.Core.Option

pub record KeyVersionRecord : Type 0 where
  pub signing_key_version : Text
  pub public_key_b64 : Text
  pub public_key_fingerprint : Text
  pub effective_from : Text
  pub archived_at : Option Text
  pub algorithm : Option Text

pub record AuthorityRecord : Type 0 where
  pub display_name : Text
  pub active_versions : List KeyVersionRecord
  pub archived_versions : List KeyVersionRecord
  pub revoked : Bool

-- The `HashMap` of authorities is an association list, read by the first entry of a key.
pub record TrustChainManifest : Type 0 where
  pub schema_version : Text
  pub issued_at : Text
  pub authorities : List (Text × AuthorityRecord)
  pub identity_fingerprint : Text
  pub identity_public_key_b64 : Text
  pub manifest_signature : Text
  pub pqc_manifest_signature : Option Text

pub data KeyStatus : Type 0 where
  active archived : KeyStatus

pub record KeyLookupResult : Type 0 where
  pub key : KeyVersionRecord
  pub authority_record : AuthorityRecord
  pub status : KeyStatus

unfoldable pub algorithm_or_default : KeyVersionRecord → Text
algorithm_or_default r = Option.get_or r.algorithm (text "Ed25519")

unfoldable pub get_authority : Text → List (Text × AuthorityRecord) → Option AuthorityRecord
get_authority id [] = none
get_authority id ((j, a) ∷ rest) = if text_eq j id then some a else get_authority id rest

unfoldable pub names_authority : TrustChainManifest → Text → Bool
names_authority m id = is_some (get_authority id m.authorities)

-- `iter().find(|r| r.signing_key_version == version)`
unfoldable pub find_version : Text → List KeyVersionRecord → Option KeyVersionRecord
find_version version [] = none
find_version version (r ∷ rs) =
    if text_eq r.signing_key_version version then some r else find_version version rs

abbrev found :
    AuthorityRecord → Option KeyVersionRecord → Option KeyVersionRecord → Option KeyLookupResult
found a (some r) old = some (record { key = r; authority_record = a; status = active })
found a none (some r) = some (record { key = r; authority_record = a; status = archived })
found a none none = none

unfoldable pub find_in_authority : AuthorityRecord → Text → Option KeyLookupResult
find_in_authority a version =
    found a (find_version version a.active_versions) (find_version version a.archived_versions)

unfoldable pub find_key : TrustChainManifest → Text → Text → Option KeyLookupResult
find_key m authority_id version = elim (get_authority authority_id m.authorities) [
  | none ↦ none
  | some a ↦ find_in_authority a version
]

sum_over : (AuthorityRecord → ℕ) → List (Text × AuthorityRecord) → ℕ
sum_over f [] = 0
sum_over f ((id, a) ∷ rest) = f a + sum_over f rest

unfoldable pub total_keys : TrustChainManifest → ℕ
unfolding sum_over
total_keys m = sum_over (λ a. length a.active_versions + length a.archived_versions) m.authorities

unfoldable pub active_keys_count : TrustChainManifest → ℕ
unfolding sum_over
active_keys_count m =
    sum_over (λ a. if a.revoked then 0 else length a.active_versions) m.authorities

unfoldable pub archived_keys_count : TrustChainManifest → ℕ
unfolding sum_over
archived_keys_count m = sum_over (λ a. length a.archived_versions) m.authorities
