-- ===== src/Boundary/Schema.antt =====
-- boundary.rs: which documents pass stage 1.
use nanorix_verify.Prelude.{
  All, ◌≡◌, ◌≢◌, ◌↔◌, refl, sym, ap, arith, true, Option, none, some, List, [], ◌∷◌, Text, text,
  text_eq, text_eq-eq, Bool-cases, Option-cases, inl, inr, ◌>>=◌,
}
use nanorix_verify.Libs.{Libs}
use nanorix_verify.Receipts.{str_field}
use nanorix_verify.Boundary.{
  boundary_attestation_kind, boundary_continuation_statement, is_observation_method, method_of,
  u64_field, check_kind, check_version, check_present, check_pin, check_continuation, check_methods,
  check_evidence, check_schema,
}
use mathlib.Core.Option

-- The observation vocabulary.
pub data IsObservationMethod : Text → Type 0 where
  procfs : IsObservationMethod (text "procfs_observation")
  mountinfo : IsObservationMethod (text "mountinfo_observation")
  cgroup : IsObservationMethod (text "cgroup_v2_observation")

abbrev IsPresent {ℓ} : {A : Type ℓ} → Option A → Type ℓ
IsPresent {A = A} o = (a : A) × (o ≡ some a)

check_pin-none :
    (field pinned : Text) (found : Option Text)
    → pinned ≢ []
    → check_pin field pinned (Option.get_or found []) ≡ none
    → found ≡ some pinned
unfolding check_pin
check_pin-none field pinned none filled h =
    absurd (filled (let e = text_eq-eq [] pinned (ground arith) in sym e))
check_pin-none field pinned (some t) filled h = ap some (text_eq-eq t pinned (ground arith))

check_kind-none :
    (found : Option Text)
    → check_kind (Option.get_or found []) ≡ none
    → found ≡ some boundary_attestation_kind
unfolding check_kind
check_kind-none none h = absurd (unfold text_eq in ground arith)
check_kind-none (some t) h = ap some (text_eq-eq t boundary_attestation_kind (ground arith))

check_version-none : (v : Option Text) → check_version v ≡ none → v ≡ some (text "1.0")
unfolding check_version
check_version-none none h = absurd (ground arith)
check_version-none (some t) h = ap some (text_eq-eq t (text "1.0") (ground arith))

check_continuation-none :
    (c : Option Text) → check_continuation c ≡ none → c ≡ some boundary_continuation_statement
unfolding check_continuation
check_continuation-none none h = absurd (ground arith)
check_continuation-none (some t) h =
    ap some (text_eq-eq t boundary_continuation_statement (ground arith))

check_present-none {ℓ} :
    {A : Type ℓ} (field : Text) (o : Option A) → check_present field o ≡ none → IsPresent o
unfolding check_present
check_present-none field none h = absurd (ground arith)
check_present-none field (some a) h = (a, refl)

observed : (m : Text) → IsObservationMethod m → is_observation_method m ≡ true
unfolding is_observation_method text_eq
observed _ procfs = refl
observed _ mountinfo = refl
observed _ cgroup = refl

is_observation_method_iff : (m : Text) → (is_observation_method m ≡ true) ↔ IsObservationMethod m
unfolding is_observation_method
is_observation_method_iff m = (
  λ h. elim (Bool-cases (text_eq m (text "procfs_observation"))) [
    | inl p ↦ rw (text_eq-eq m _ p) procfs
    | inr not_procfs ↦ elim (Bool-cases (text_eq m (text "mountinfo_observation"))) [
      | inl p ↦ rw (text_eq-eq m _ p) mountinfo
      | inr not_mountinfo ↦ rw (text_eq-eq m (text "cgroup_v2_observation") (ground arith)) cgroup
    ]
  ],
  λ o. observed m o,
)

module _ (lib : Libs) where
  open lib use {Value, get, as_array}

  check_methods-All :
      (evidence : List Value)
      → check_methods lib evidence ≡ none
      → All (λ o. IsObservationMethod (method_of lib o)) evidence
  unfolding check_methods
  check_methods-All [] h = tt
  check_methods-All (o ∷ os) h = (
    (is_observation_method_iff (method_of lib o)).0 (ground arith),
    check_methods-All os (ground arith),
  )

  All-check_methods :
      (evidence : List Value)
      → All (λ o. IsObservationMethod (method_of lib o)) evidence
      → check_methods lib evidence ≡ none
  unfolding check_methods
  All-check_methods [] h = refl
  All-check_methods (o ∷ os) (m, ms) =
      rw ((is_observation_method_iff (method_of lib o)).1 m) (All-check_methods os ms)

  -- The structure that the specification asks of a document: fixed values, required fields, and
  -- evidence within the observation vocabulary.
  pub record IsWellFormed (doc : Value) : Type 0 where
    pub kind : str_field lib doc (text "kind") ≡ some boundary_attestation_kind
    pub version : str_field lib doc (text "version") ≡ some (text "1.0")
    pub capsule_id : IsPresent (str_field lib doc (text "capsule_id"))
    pub cutoff_ts : IsPresent (str_field lib doc (text "cutoff_ts"))
    pub activity_commitment : IsPresent (str_field lib doc (text "activity_commitment"))
    pub prev_attestation_hash : IsPresent (str_field lib doc (text "prev_attestation_hash"))
    pub canonical_hash : IsPresent (str_field lib doc (text "canonical_hash"))
    pub attestation_index : IsPresent (u64_field lib doc (text "attestation_index"))
    pub activity_event_count : IsPresent (u64_field lib doc (text "activity_event_count"))
    pub hash_algorithm : str_field lib doc (text "hash_algorithm") ≡ some (text "sha512")
    pub signature_algorithm : str_field lib doc (text "signature_algorithm") ≡ some (text "Ed25519")
    pub continuation :
        str_field lib doc (text "continuation") ≡ some boundary_continuation_statement
    pub evidence : List Value
    pub has_evidence : (get doc (text "boundary_evidence") >>= as_array) ≡ some evidence
    pub vocabulary : All (λ o. IsObservationMethod (method_of lib o)) evidence

  schema_sound : (doc : Value) → check_schema lib doc ≡ none → IsWellFormed doc
  unfolding check_schema check_evidence
  schema_sound doc h = elim (Option-cases (get doc (text "boundary_evidence") >>= as_array)) [
    | inl missing ↦ absurd (ground arith)
    | inr (evidence, e) ↦ record {
      kind = check_kind-none _ (ground arith);
      version = check_version-none _ (ground arith);
      capsule_id = check_present-none (text "capsule_id") _ (ground arith);
      cutoff_ts = check_present-none (text "cutoff_ts") _ (ground arith);
      activity_commitment = check_present-none (text "activity_commitment") _ (ground arith);
      prev_attestation_hash = check_present-none (text "prev_attestation_hash") _ (ground arith);
      canonical_hash = check_present-none (text "canonical_hash") _ (ground arith);
      attestation_index = check_present-none (text "attestation_index") _ (ground arith);
      activity_event_count = check_present-none (text "activity_event_count") _ (ground arith);
      hash_algorithm = check_pin-none (text "hash_algorithm") (text "sha512") _ (cc) (ground arith);
      signature_algorithm =
          check_pin-none (text "signature_algorithm") (text "Ed25519") _ (cc) (ground arith);
      continuation = check_continuation-none _ (ground arith);
      evidence = evidence;
      has_evidence = e;
      vocabulary = check_methods-All evidence (ground arith);
    }
  ]

  schema_complete : (doc : Value) → IsWellFormed doc → check_schema lib doc ≡ none
  unfolding check_schema check_evidence check_kind check_version check_present check_continuation
      check_pin text_eq boundary_continuation_statement
  schema_complete doc w =
      rw
        (
          w.kind, w.version, w.capsule_id.1, w.cutoff_ts.1, w.activity_commitment.1,
          w.prev_attestation_hash.1, w.canonical_hash.1, w.attestation_index.1,
          w.activity_event_count.1, w.hash_algorithm, w.signature_algorithm, w.continuation,
          w.has_evidence,
        )
        (All-check_methods w.evidence w.vocabulary)

  -- A document passes stage 1 if and only if it has the fixed kind, version, algorithms and
  -- continuation statement, the required fields, and evidence with methods of the observation
  -- vocabulary only.
  pub check_schema_iff : (doc : Value) → (check_schema lib doc ≡ none) ↔ IsWellFormed doc
  check_schema_iff doc = (schema_sound doc, schema_complete doc)
