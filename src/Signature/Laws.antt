-- ===== src/Signature/Laws.antt =====
-- What the documentation of `base64` and `ed25519_dalek` promises to a party that signs: the
-- encoding is read back and has no colon, and a signature verifies under the public key of its key.
use nanorix_verify.Prelude.{◌≡◌, true, some, none, Bytes, text, length, strip_prefix}
use nanorix_verify.Libs.{Libs}

pub record SigningLaws (lib : Libs) : Type 0 where
  pub decode_encode : (b : Bytes) → lib.base64_decode (lib.base64_encode b) ≡ some b
  pub encode_unprefixed : (b : Bytes) → strip_prefix (text "base64:") (lib.base64_encode b) ≡ none
  pub public_size : (seed : Bytes) → length seed ≡ 32 → length (lib.ed25519_public seed) ≡ 32
  pub public_valid :
      (seed : Bytes) → length seed ≡ 32 → lib.ed25519_key_valid (lib.ed25519_public seed) ≡ true
  pub signature_size :
      (seed message : Bytes) → length seed ≡ 32 → length (lib.ed25519_sign seed message) ≡ 64
  pub verify_sign :
      (seed message : Bytes)
      → length seed ≡ 32
      → lib.ed25519_verify (lib.ed25519_public seed) message (lib.ed25519_sign seed message) ≡ true
