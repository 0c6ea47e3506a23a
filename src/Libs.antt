-- ===== src/Libs.antt =====
-- The third-party crates that the verifier calls, as a parameter of the model: `serde_json` and
-- `serde_jcs`, `sha2`, `hex`, `base64`, `ed25519_dalek` and `chrono`. Nothing is assumed of them
-- here; a theorem that relies on a property of one states it.
use nanorix_verify.Prelude.{ℕ, Bool, Option, List, Text, Bytes, ℤ}

pub record Libs : Type 1 where
  -- `serde_json::Value`
  pub Value : Type 0
  pub get : Value → Text → Option Value
  pub pointer : Value → Text → Option Value
  pub as_str : Value → Option Text
  pub as_array : Value → Option (List Value)
  -- the entries of an object, in the order of the map
  pub as_object : Value → Option (List (Text × Value))
  pub as_u64 : Value → Option ℕ
  pub is_null : Value → Bool
  pub null_value : Value
  pub string_value : Text → Value
  pub int_value : ℤ → Value
  pub bool_value : Bool → Value
  pub array_value : List Value → Value
  -- a `Map` from its insertions, in order, under distinct keys
  pub object_value : List (Text × Value) → Value
  -- `serde_json::to_vec`, `serde_jcs::to_vec`
  pub json_to_vec : Value → Option Bytes
  pub jcs_to_vec : Value → Option Bytes
  -- `serde_json::from_slice`
  pub from_slice : Bytes → Option Value
  -- `Sha512::digest`, `Sha256::digest`
  pub sha512 : Bytes → Bytes
  pub sha256 : Bytes → Bytes
  pub hex_encode : Bytes → Text
  pub hex_decode : Text → Option Bytes
  -- the standard alphabet
  pub base64_decode : Text → Option Bytes
  pub base64_encode : Bytes → Text
  -- whether `VerifyingKey::from_bytes` succeeds, and `verify` of a key, a message and a signature
  pub ed25519_key_valid : Bytes → Bool
  pub ed25519_verify : Bytes → Bytes → Bytes → Bool
  -- the public key and a signature of a `SigningKey`, given by its seed
  pub ed25519_public : Bytes → Bytes
  pub ed25519_sign : Bytes → Bytes → Bytes
  -- `chrono::DateTime<FixedOffset>`, `parse_from_rfc3339`, and `<=`
  pub Instant : Type 0
  pub parse_from_rfc3339 : Text → Option Instant
  pub instant_le : Instant → Instant → Bool
