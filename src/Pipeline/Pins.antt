-- ===== src/Pipeline/Pins.antt =====
-- lib.rs: what the gates before the chain walk guarantee of a valid document.
use nanorix_verify.Prelude.{
  All, ◌≡◌, ◌≢◌, refl, sym, arith, Bool, true, false, Option, none, some, List, [], ◌∷◌, Text, text,
  text_eq, text_eq-eq, Bool-cases, Option-cases, inl, inr, ◌>>=◌,
}
use nanorix_verify.Libs.{Libs}
use nanorix_verify.Steps.{strip_hash_prefix}
use nanorix_verify.Receipts.{str_field}
use nanorix_verify.Activity.{
  well_formed, check_root_text, check_declared_activity_root_shape, declared_value,
  gate_declared_activity_root, version_signs_activity_root,
}
use nanorix_verify.Pipeline.Verdict.{VerifierPolicy, TrustedAuthority}
use nanorix_verify.Pipeline.Gates.{
  is_populated, first_populated, populated_unsigned_slot, check_unsigned_slots,
  unsigned_reserved_slots, check_authority_pin, check_region_pin, signed_region,
}
use nanorix_verify.Pipeline.Walk.{check_activity_record}
use nanorix_verify.Pipeline.Anchor.{signature_stages, anchor_to_trust_chain}
use nanorix_verify.Pipeline.Verify.{verify_checks, verify_auditproof}
use nanorix_verify.Pipeline.Accepted.{verify_auditproof-IsAccepted}

module _ (lib : Libs) where
  open lib use {Value, pointer, as_str}

  authority_pinned :
      (policy : VerifierPolicy) (json : Value) (required : Text)
      → policy.required_authority_id ≡ some required
      → check_authority_pin lib policy json ≡ none
      → (pointer json (text "/signing_authority/authority_id") >>= as_str) ≡ some required
  unfolding check_authority_pin
  authority_pinned policy json required e h =
      elim (Option-cases (pointer json (text "/signing_authority/authority_id") >>= as_str)) [
        | inl missing ↦ absurd (ground arith)
        | inr (actual, ea) ↦ elim (Bool-cases (text_eq actual required)) [
          | inl same ↦ rw (← text_eq-eq actual required same) ea
          | inr other ↦ absurd (ground arith)
        ]
      ]

  region_pinned :
      (policy : VerifierPolicy) (region : Option Text) (required : Text)
      → policy.required_region ≡ some required
      → required ≢ []
      → check_region_pin policy region ≡ none
      → region ≡ some required
  unfolding check_region_pin
  region_pinned policy none required e ne h = elim (Bool-cases (text_eq [] required)) [
    | inl same ↦ absurd (ne (sym (text_eq-eq [] required same)))
    | inr other ↦ absurd (ground arith)
  ]
  region_pinned policy (some actual) required e ne h = elim (Bool-cases (text_eq actual required)) [
    | inl same ↦ ground (arith, text_eq-eq actual required same)
    | inr other ↦ absurd (ground arith)
  ]

  none_populated :
      (json : Value) (slots : List Text)
      → first_populated lib json slots ≡ none
      → All (λ slot. is_populated lib json slot ≡ false) slots
  unfolding first_populated
  none_populated json [] h = tt
  none_populated json (slot ∷ slots) h = elim (Bool-cases (is_populated lib json slot)) [
    | inl full ↦ absurd (ground arith)
    | inr empty ↦ (empty, none_populated json slots (ground arith))
  ]

  slots-none :
      (json : Value)
      → check_unsigned_slots lib json ≡ none
      → first_populated lib json unsigned_reserved_slots ≡ none
  unfolding check_unsigned_slots populated_unsigned_slot
  slots-none json h = ground arith

  module _ (json : Value) (trust : List TrustedAuthority) (policy : VerifierPolicy)
      (valid : (verify_auditproof lib json trust policy).valid ≡ true) where
    -- With a required authority and a required region that is not the empty string, a valid
    -- document names exactly that authority, and its first `capsule_started` event bears exactly
    -- that region.
    pub valid_pinned :
        (authority region : Text)
        → policy.required_authority_id ≡ some authority
        → policy.required_region ≡ some region
        → region ≢ []
        → ((pointer json (text "/signing_authority/authority_id") >>= as_str) ≡ some authority)
          × (signed_region lib json ≡ some region)
    valid_pinned authority region ea er ne =
        let a = verify_auditproof-IsAccepted lib json trust policy valid in
        (
          authority_pinned policy json authority ea a.authority_pin,
          region_pinned policy (signed_region lib json) region er ne a.region_pin,
        )

    -- In a valid document every reserved slot outside the signature is absent or null.
    pub valid_slots_empty : All (λ slot. is_populated lib json slot ≡ false) unsigned_reserved_slots
    valid_slots_empty =
        let a = verify_auditproof-IsAccepted lib json trust policy valid in
        none_populated json unsigned_reserved_slots (slots-none json a.slots)

    root_gated :
        (version : Text) (v : Value)
        → declared_value lib json ≡ some v
        → gate_declared_activity_root lib json version ≡ none
        → (root : Text) × (version_signs_activity_root version ≡ true)
          × (as_str v ≡ some root)
          × (well_formed (strip_hash_prefix root) ≡ true)
    unfolding gate_declared_activity_root check_declared_activity_root_shape check_root_text
    root_gated version v e h = elim (Option-cases (as_str v)) [
      | inl other ↦ absurd (ground arith)
      | inr (root, er) ↦ (root, ground arith, er, ground arith)
    ]

    -- A customer-declared activity root that is present in a valid document is a string of 128
    -- lowercase hex digits, prefix aside, in a document of a version that signs it.
    pub valid_root_signed :
        (v : Value)
        → declared_value lib json ≡ some v
        → (version : Text) × (root : Text) × (str_field lib json (text "cdp_version")
            ≡ some version)
          × (version_signs_activity_root version ≡ true)
          × (as_str v ≡ some root)
          × (well_formed (strip_hash_prefix root) ≡ true)
    valid_root_signed v e =
        let a = verify_auditproof-IsAccepted lib json trust policy valid in
        let (root, signs, er, shape) = root_gated a.version v e a.root_gate in
        (a.version, root, a.version_field, signs, er, shape)

  -- The policy's `reject_diagnostic` changes nothing: no check reads it.
  pub reject_diagnostic_unread :
      (json : Value) (trust : List TrustedAuthority) (policy : VerifierPolicy) (b : Bool)
      → verify_auditproof lib json trust (record policy { reject_diagnostic = b })
        ≡ verify_auditproof lib json trust policy
  unfolding verify_auditproof verify_checks check_authority_pin check_region_pin
      check_activity_record signature_stages anchor_to_trust_chain
  reject_diagnostic_unread json trust policy b = refl
