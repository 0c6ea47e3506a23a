-- ===== src/Signature.antt =====
-- tools/nanorix-verify/src/canonical_recompute.rs: the canonical view, the signed message, and the
-- Ed25519 check against the embedded key or a key of the manifest.
pub mod Facts
pub mod Laws
use nanorix_verify.Prelude.{
  ℕ, Bool, true, false, not, ◌&&◌, ◌||◌, Option, none, some, List, [], ◌∷◌, ◌++◌, Text, Bytes, text,
  text_eq, strip_prefix, is_empty, ◌==◌, if◌then◌else◌, ◌>>=◌, length, ℤ, parse_i64,
}
use nanorix_verify.Libs.{Libs}
use nanorix_verify.Failure.{
  SignatureFailureReason, malformed, does_not_verify, public_key_malformed,
}
use nanorix_verify.Steps.{strip_hash_prefix, strip_base64_prefix}
use nanorix_verify.Receipts.{str_field, str_or_empty}
use nanorix_verify.Activity.{non_null}
use mathlib.Core.Option

pub data SignatureCheck : Type 0 where
  verified : SignatureCheck
  absent : SignatureCheck
  unsupported : (mode : Text) → SignatureCheck
  failed : (reason : SignatureFailureReason) → SignatureCheck

-- `UNSUPPORTED_MODE_SENTINEL`
unfoldable pub unsupported_mode_sentinel : Text
unsupported_mode_sentinel = 0 ∷ text "unsupported-signing-mode:"

-- `filter(|s| !s.is_empty())`
abbrev pub non_empty : Option Text → Option Text
non_empty none = none
non_empty (some s) = if is_empty s then none else some s

-- `a.or_else(|| b)`
abbrev pub or_else {ℓ} : {A : Type ℓ} → Option A → Option A → Option A
or_else none b = b
or_else (some a) b = some a

module _ (lib : Libs) where
  open lib use {
    Value, get, pointer, as_str, null_value, string_value, int_value, array_value, object_value,
    jcs_to_vec, sha512, hex_encode, base64_decode, ed25519_key_valid, ed25519_verify,
  }

  -- `get(k).cloned().unwrap_or(Null)`
  abbrev pub field_or_null : Value → Text → Value
  field_or_null proof k = Option.get_or (get proof k) null_value

  abbrev entry_if : Text → Option Value → List (Text × Value)
  entry_if key none = []
  entry_if key (some x) = (key, x) ∷ []

  -- What `insert_if_present` inserts: nothing for an absent or null field.
  unfoldable pub insert_if_present : Text → Value → List (Text × Value)
  insert_if_present key proof = entry_if key (non_null lib (get proof key))

  abbrev text_or_null : Option Text → Value
  text_or_null none = null_value
  text_or_null (some s) = string_value s

  -- The insertions into the canonical view, in order.
  unfoldable pub canonical_view : Value → List (Text × Value)
  canonical_view proof =
      (text "version", field_or_null proof (text "cdp_version"))
      ∷ (text "signing_mode", field_or_null proof (text "signing_mode"))
      ∷ (text "jurisdiction", field_or_null proof (text "jurisdiction"))
      ∷ (text "authority_id", field_or_null proof (text "authority_id"))
      ∷ (
        text "signing_key_version",
        int_value (
            Option.get_or (str_field lib proof (text "signing_key_version") >>= parse_i64)
              (ℤ.pos 0)),
      )
      ∷ (text "capsule_id", field_or_null proof (text "capsule_id"))
      ∷ (text "org_id", Option.get_or (get proof (text "org_id")) (string_value []))
      ∷ (insert_if_present (text "parent_audit_proof_id") proof
          ++ (insert_if_present (text "cdp_kind") proof
              ++ ((
                text "activity_trail",
                Option.get_or (get proof (text "activity")) (array_value []),
              )
                  ∷ (
                    text "destruction_chain",
                    Option.get_or (get proof (text "chain")) (array_value []),
                  )
                  ∷ (text "destruction_state", field_or_null proof (text "destruction_state"))
                  ∷ (
                    text "destruction_failure_step",
                    field_or_null proof (text "destruction_failure_step"),
                  )
                  ∷ (insert_if_present (text "parent_proofs_merkle_root") proof
                      ++ (insert_if_present (text "record_receipts_merkle_root") proof
                          ++ (insert_if_present (text "customer_declared_activity_root") proof
                              ++ ((
                                text "runtime_attestation",
                                field_or_null proof (text "runtime_attestation"),
                              )
                                  ∷ (
                                    text "attestation",
                                    object_value (
                                        (
                                          text "timestamp_attestation",
                                          field_or_null proof (text "timestamp_attestation"),
                                        )
                                        ∷ (
                                          text "attestation_chain_fingerprint",
                                          text_or_null (
                                              non_empty (
                                                str_field lib proof
                                                  (text "attestation_chain_fingerprint"))),
                                        )
                                        ∷ []),
                                  )
                                  ∷ (
                                    text "hash_algorithm",
                                    field_or_null proof (text "hash_algorithm"),
                                  )
                                  ∷ (
                                    text "signature_algorithm",
                                    field_or_null proof (text "signature_algorithm"),
                                  )
                                  ∷ [])))))))

  abbrev pub hash_bytes : Option Bytes → Text
  hash_bytes none = []
  hash_bytes (some bytes) = hex_encode (sha512 bytes)

  unfoldable pub recompute_canonical_hash : Value → Text
  recompute_canonical_hash proof = hash_bytes (jcs_to_vec (object_value (canonical_view proof)))

  unfoldable pub signed_message : Value → Text → Option Text
  signed_message proof cdp_version =
      let signing_mode =
        Option.get_or (str_field lib proof (text "signing_mode")) (text "nanorix_only") in
      if text_eq cdp_version (text "1.0")
      then some (strip_hash_prefix (str_or_empty lib proof (text "final_hash")))
      else if text_eq cdp_version (text "2.0")
      then some (strip_hash_prefix (str_or_empty lib proof (text "document_hash")))
      else if text_eq cdp_version (text "2.1") || text_eq cdp_version (text "2.2")
      then (if text_eq signing_mode (text "nanorix_only")
          then some (recompute_canonical_hash proof)
          else some (unsupported_mode_sentinel ++ signing_mode))
      else none

  -- `Ok(b) if b.len() == n`
  abbrev pub decode_sized : ℕ → Text → Option Bytes
  decode_sized n s = do
    b ← base64_decode (strip_base64_prefix s)
    if length b == n then some b else none

  abbrev check_bytes : Text → Option Bytes → Option Bytes → SignatureCheck
  check_bytes message none key = failed malformed
  check_bytes message (some sig) none = failed public_key_malformed
  check_bytes message (some sig) (some key) =
      if ed25519_key_valid key
      then (if ed25519_verify key message sig then verified else failed does_not_verify)
      else failed public_key_malformed

  unfoldable pub verify_message_with_key : Text → Text → Text → SignatureCheck
  verify_message_with_key message sig_b64 pub_b64 =
      check_bytes message (decode_sized 64 sig_b64) (decode_sized 32 pub_b64)

  unfoldable pub embedded_signature : Value → Option Text
  embedded_signature proof = non_empty (pointer proof (text "/attestation/signature") >>= as_str)

  unfoldable pub embedded_key : Value → Option Text
  embedded_key proof = non_empty (
      or_else (pointer proof (text "/attestation/public_key"))
        (pointer proof (text "/attestation/verification_key"))
      >>= as_str)

  -- the tail of both checks, from the message on
  unfoldable pub check_message : Option Text → Text → Text → SignatureCheck
  check_message none sig_b64 pub_b64 = absent
  check_message (some m) sig_b64 pub_b64 = elim (strip_prefix unsupported_mode_sentinel m) [
    | some mode ↦ unsupported mode
    | none ↦ verify_message_with_key m sig_b64 pub_b64
  ]

  abbrev check_parts : Option Text → Option Text → Option Text → SignatureCheck
  check_parts none key message = absent
  check_parts (some sig) none message = absent
  check_parts (some sig) (some key) message = check_message message sig key

  unfoldable pub verify_signature : Value → Text → SignatureCheck
  verify_signature proof cdp_version =
      check_parts (embedded_signature proof) (embedded_key proof) (signed_message proof cdp_version)

  unfoldable pub verify_signature_against : Value → Text → Text → SignatureCheck
  verify_signature_against proof cdp_version pub_b64 =
      check_parts (embedded_signature proof) (some pub_b64) (signed_message proof cdp_version)
