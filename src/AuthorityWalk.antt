-- ===== src/AuthorityWalk.antt =====
-- tools/nanorix-verify/src/chain_walk.rs: the walk from a customer authority to its public key.
pub mod Facts
pub mod Tests
use nanorix_verify.Prelude.{
  ℕ, Bool, true, false, Option, none, some, [], ◌∷◌, ◌++◌, Text, Bytes, text, text_lt, decimal,
  ◌==◌, ◌&&◌, ◌||◌, if◌then◌else◌, length, leb, drop, zero, suc,
}
use nanorix_verify.Libs.{Libs}
use nanorix_verify.Manifest.{
  TrustChainManifest, KeyLookupResult, KeyStatus, active, archived, find_key,
}

pub data AuthorityKind : Type 0 where
  nanorix_self customer_attested : AuthorityKind

pub data AuthorityWalkFailure : Type 0 where
  authority_not_in_trust_chain_manifest : (authority_id : Text) → AuthorityWalkFailure
  authority_not_active_for_timestamp :
      (authority_id state audit_proof_timestamp : Text) → AuthorityWalkFailure
  customer_public_key_unreachable : (authority_id url reason : Text) → AuthorityWalkFailure
  customer_signature_invalid : (authority_id reason : Text) → AuthorityWalkFailure
  authority_kind_unknown : (found : Text) → AuthorityWalkFailure
  authority_id_malformed : (reason : Text) → AuthorityWalkFailure

pub record AuthorityWalkResolution : Type 0 where
  pub authority_id : Text
  pub kind : AuthorityKind
  pub public_key : Bytes
  pub key_status : KeyStatus
  pub signing_key_version : Text

pub data WalkResult : Type 0 where
  resolved : AuthorityWalkResolution → WalkResult
  rejected : AuthorityWalkFailure → WalkResult

-- The bytes of a leading character of Unicode's White_Space, or 0.
wide_white : ℕ → Text → ℕ
wide_white a [] = 0
wide_white a (b ∷ []) = if a == 0xc2 && (b == 0x85 || b == 0xa0) then 2 else 0
wide_white a (b ∷ c ∷ cs) =
    if a == 0xc2 && (b == 0x85 || b == 0xa0)
    then 2
    else if a == 0xe1 && b == 0x9a && c == 0x80
    then 3
    else if a == 0xe2
        && b == 0x80
        && ((leb 0x80 c && leb c 0x8a) || c == 0xa8 || c == 0xa9 || c == 0xaf)
    then 3
    else if a == 0xe2 && b == 0x81 && c == 0x9f
    then 3
    else if a == 0xe3 && b == 0x80 && c == 0x80
    then 3
    else 0

white_bytes : Text → ℕ
unfolding wide_white
white_bytes [] = 0
white_bytes (c ∷ cs) = if c == 32 || (leb 9 c && leb c 13) then 1 else wide_white c cs

blank_from : ℕ → Text → Bool
unfolding white_bytes
blank_from fuel [] = true
blank_from zero (c ∷ cs) = false
blank_from (suc fuel) (c ∷ cs) = elim (white_bytes (c ∷ cs)) [
  | zero ↦ false
  | suc n ↦ blank_from fuel (drop n cs)
]

-- `s.trim().is_empty()`: each round takes a byte at least.
unfoldable pub is_blank : Text → Bool
unfolding blank_from
is_blank s = blank_from (length s) s

-- `Some(archived_at)` with `audit_proof_timestamp > archived_at`
abbrev pub signed_after : Option Text → Text → Option Text
signed_after none ts = none
signed_after (some archived_at) ts = if text_lt archived_at ts then some archived_at else none

-- steps 3 and 4: the state that bars the key, if one does
unfoldable pub barred : KeyLookupResult → Text → Option Text
barred l ts = if l.authority_record.revoked then some (text "revoked") else elim l.status [
  | active ↦ none
  | archived ↦ elim (signed_after l.key.archived_at ts) [
    | none ↦ none
    | some archived_at ↦ some (text "archived_at=" ++ archived_at)
  ]
]

module _ (lib : Libs) (decode_error : Text → Text) where
  open lib use {base64_decode}

  -- step 5, `decode_error` being the text of the `base64` crate's error for an input
  unfoldable pub decode_key :
      Text → Text → AuthorityKind → KeyLookupResult → Option Bytes → WalkResult
  decode_key id version kind l none = rejected (
      customer_signature_invalid id
        (text "manifest public_key_b64 decode failed: " ++ decode_error l.key.public_key_b64))
  decode_key id version kind l (some bytes) =
      if length bytes == 32
      then resolved (record {
        authority_id = id;
        kind = kind;
        public_key = bytes;
        key_status = l.status;
        signing_key_version = version;
      })
      else rejected (
          customer_signature_invalid id (
            text "manifest public_key_b64 has "
            ++ (decimal (length bytes) ++ text " bytes (expected 32 for Ed25519)")))

  abbrev pub check_lookup : Text → Text → AuthorityKind → Text → Option KeyLookupResult → WalkResult
  check_lookup id version kind ts none = rejected (authority_not_in_trust_chain_manifest id)
  check_lookup id version kind ts (some l) = elim (barred l ts) [
    | some state ↦ rejected (authority_not_active_for_timestamp id state ts)
    | none ↦ decode_key id version kind l (base64_decode l.key.public_key_b64)
  ]

  unfoldable pub walk_authority_chain :
      Text → Text → AuthorityKind → Text → TrustChainManifest → WalkResult
  walk_authority_chain id version kind ts manifest =
      if is_blank id
      then rejected (authority_id_malformed (text "authority_id is empty"))
      else check_lookup id version kind ts (find_key manifest id version)
