-- ===== src/Boundary/Linked.antt =====
-- boundary.rs: which sets of boundary attestations are a valid chain.
use nanorix_verify.Prelude.{
  All, ℕ, suc, ◌+◌, ◌%◌, ◌^◌, ◌≤◌, ◌<◌, ◌≡◌, ◌≢◌, ◌⊎◌, refl, sym, ◌∙◌, arith, Bool, true, false,
  ◌&&◌, Option, none, some, List, [], ◌∷◌, Text, text_eq, text_eq-eq, text_eq_iff, text_eq_refl,
  Bool-cases, Option-cases, inl, inr, ◌==◌, ==_iff, IsAscendingFrom,
}
use nanorix_verify.Libs.{Libs}
use nanorix_verify.Steps.{genesis_hash, strip_hash_prefix}
use nanorix_verify.Pipeline.Verdict.{VerifierPolicy}
use nanorix_verify.Boundary.{recompute_boundary_canonical_hash, verify_boundary_attestation}
use nanorix_verify.Boundary.Failure.{BoundaryVerificationResult}
use nanorix_verify.Boundary.Chain.{
  DocumentResults, checked, stopped, linked, index_of, capsule_of, prev_hash_of, cutoff_of,
  verify_documents, Previous, check_capsule, check_position, check_cutoff, check_link,
  next_previous, anchors, walk_links,
}

pub results-cases :
    (c : DocumentResults)
    → ((all : Bool) × (rs : List BoundaryVerificationResult) × (c ≡ checked all rs))
      ⊎ ((r : BoundaryVerificationResult) × (rs : List BoundaryVerificationResult) × (c
            ≡ stopped r rs))
results-cases (checked all rs) = inl (all, rs, refl)
results-cases (stopped r rs) = inr (r, rs, refl)

module _ (lib : Libs) where
  open lib use {Value, Instant, as_u64, parse_from_rfc3339, instant_le}

  -- One attestation follows another: the same capsule, the next index, the hash of the other as its
  -- previous hash, and a later cutoff.
  pub record IsSuccessor (d e : Value) : Type 0 where
    pub same_capsule : capsule_of lib e ≡ capsule_of lib d
    pub next_index : index_of lib e ≡ suc (index_of lib d)
    pub hash_link : strip_hash_prefix (prev_hash_of lib e) ≡ recompute_boundary_canonical_hash lib d
    pub before : Instant
    pub after : Instant
    pub cutoff_before : parse_from_rfc3339 (cutoff_of lib d) ≡ some before
    pub cutoff_after : parse_from_rfc3339 (cutoff_of lib e) ≡ some after
    pub increasing : instant_le after before ≡ false

  -- The first attestation: a cutoff that parses, and the genesis hash at index 1.
  pub record IsHead (d : Value) : Type 0 where
    pub genesis : (index_of lib d ≢ 1) ⊎ (strip_hash_prefix (prev_hash_of lib d) ≡ genesis_hash)
    pub cutoff : Instant
    pub cutoff_parses : parse_from_rfc3339 (cutoff_of lib d) ≡ some cutoff

  abbrev pub IsLinkedFrom : Value → List Value → Type 0
  IsLinkedFrom d [] = Unit
  IsLinkedFrom d (e ∷ es) = IsSuccessor d e × IsLinkedFrom e es

  abbrev pub IsLinked : List Value → Type 0
  IsLinked [] = Unit
  IsLinked (d ∷ ds) = IsHead d × IsLinkedFrom d ds

  abbrev pub IsValidDocument : VerifierPolicy → Value → Type 0
  IsValidDocument policy d = (verify_boundary_attestation lib d policy).valid ≡ true

  -- Every document is valid, and each follows the one before it.
  abbrev pub IsChain : VerifierPolicy → List Value → Type 0
  IsChain policy ds = All (IsValidDocument policy) ds × IsLinked ds

  abbrev pub previous : Value → Instant → Previous lib
  previous d t = record {
    prev_canonical = recompute_boundary_canonical_hash lib d;
    prev_index = index_of lib d;
    prev_cutoff = t;
    prev_cutoff_raw = cutoff_of lib d;
  }

  pub next_previous-some :
      (d : Value) (t : Instant)
      → parse_from_rfc3339 (cutoff_of lib d) ≡ some t
      → next_previous lib d ≡ some (previous d t)
  unfolding next_previous
  next_previous-some d t h = rw h refl

  wrap : (i j : ℕ) → i ≤ j → j ≡ (i + 1) % 2 ^ 64 → j ≡ suc i
  wrap i j le h = omega arith

  link-IsSuccessor :
      (expected : Text) (d e : Value) (t : Instant)
      → parse_from_rfc3339 (cutoff_of lib d) ≡ some t
      → capsule_of lib d ≡ expected
      → index_of lib d ≤ index_of lib e
      → check_link lib expected (some (previous d t)) e ≡ none
      → IsSuccessor d e
  unfolding check_link check_capsule check_position check_cutoff
  link-IsSuccessor expected d e t h same le c =
      elim (Option-cases (parse_from_rfc3339 (cutoff_of lib e))) [
        | inl bad ↦ absurd (ground arith)
        | inr (u, eu) ↦ record {
          same_capsule = text_eq-eq _ expected (ground arith) ∙ sym same;
          next_index = wrap _ _ le ((==_iff _ _).0 (ground arith));
          hash_link = text_eq-eq _ _ (ground arith);
          before = t;
          after = u;
          cutoff_before = h;
          cutoff_after = eu;
          increasing = ground arith;
        }
      ]

  pub walk_links-IsLinkedFrom :
      (expected : Text) (p : Option (Previous lib)) (d : Value) (t : Instant) (a b : Bool)
      (es : List Value)
      → p ≡ some (previous d t)
      → parse_from_rfc3339 (cutoff_of lib d) ≡ some t
      → capsule_of lib d ≡ expected
      → IsAscendingFrom (index_of lib) d es
      → walk_links lib expected p a es ≡ linked b
      → IsLinkedFrom d es × (b ≡ a)
  unfolding walk_links
  walk_links-IsLinkedFrom expected p d t a b [] ep h same asc w = (tt, ground arith)
  walk_links-IsLinkedFrom expected p d t a b (e ∷ es) ep h same (le, asc) w =
      elim (Option-cases (check_link lib expected p e)) [
        | inr (reason, bad) ↦ absurd (ground arith)
        | inl ok ↦
            let s = link-IsSuccessor expected d e t h same le (rw (← ep) ok) in
            let same_flag : anchors lib p e a ≡ a = rw ep refl in
            let (rest, flag) =
              walk_links-IsLinkedFrom expected (next_previous lib e) e s.after a b es
                (next_previous-some e s.after s.cutoff_after) s.cutoff_after (s.same_capsule ∙ same)
                asc (ground arith) in
            ((s, rest), flag)
      ]

  link-none :
      (expected : Text) (d e : Value) (t : Instant)
      → parse_from_rfc3339 (cutoff_of lib d) ≡ some t
      → capsule_of lib d ≡ expected
      → index_of lib e < 2 ^ 64
      → IsSuccessor d e
      → check_link lib expected (some (previous d t)) e ≡ none
  unfolding check_link check_capsule check_position check_cutoff
  link-none expected d e t h same small s =
      let e₁ : text_eq (capsule_of lib e) expected ≡ true =
        (text_eq_iff _ _).1 (s.same_capsule ∙ same) in
      let e₂ : (index_of lib e == (index_of lib d + 1) % 2 ^ 64) ≡ true =
        (==_iff _ _).1 (let n = s.next_index in omega arith) in
      let e₃ = (text_eq_iff _ _).1 s.hash_link in
      let e₄ : s.before ≡ t = ground (arith, s.cutoff_before) in
      let e₅ : instant_le s.after t ≡ false = rw (← e₄) s.increasing in
      rw (e₁, e₂, e₃, s.cutoff_after, e₅) refl

  pub walk_links-linked :
      (expected : Text) (p : Option (Previous lib)) (d : Value) (t : Instant) (a : Bool)
      (es : List Value)
      → p ≡ some (previous d t)
      → parse_from_rfc3339 (cutoff_of lib d) ≡ some t
      → capsule_of lib d ≡ expected
      → All (λ e. index_of lib e < 2 ^ 64) es
      → IsLinkedFrom d es
      → walk_links lib expected p a es ≡ linked a
  unfolding walk_links
  walk_links-linked expected p d t a [] ep h same small l = refl
  walk_links-linked expected p d t a (e ∷ es) ep h same (n, small) (s, l) =
      let e₁ = link-none expected d e t h same n s in
      let flag : anchors lib p e a ≡ a = rw ep refl in
      let ok : check_link lib expected p e ≡ none = rw ep e₁ in
      let rest =
        walk_links-linked expected (next_previous lib e) e s.after a es
          (next_previous-some e s.after s.cutoff_after) s.cutoff_after (s.same_capsule ∙ same) small
          l in
      ground (arith, ok, flag, rest)

  pub link-IsHead : (d : Value) → check_link lib (capsule_of lib d) none d ≡ none → IsHead d
  unfolding check_link check_capsule check_position check_cutoff
  link-IsHead d c = elim (Option-cases (parse_from_rfc3339 (cutoff_of lib d))) [
    | inl bad ↦ absurd (ground arith)
    | inr (t, et) ↦ record {
      genesis = elim (Bool-cases (text_eq (strip_hash_prefix (prev_hash_of lib d)) genesis_hash)) [
        | inl same ↦ inr (text_eq-eq _ _ same)
        | inr other ↦ inl (λ one. absurd (ground arith))
      ];
      cutoff = t;
      cutoff_parses = et;
    }
  ]

  pub head-none : (d : Value) → IsHead d → check_link lib (capsule_of lib d) none d ≡ none
  unfolding check_link check_capsule check_position check_cutoff
  head-none d h = elim h.genesis [
    | inl other ↦
        let e : (index_of lib d == 1) ≡ false = ground arith in
        rw (text_eq_refl (capsule_of lib d), e, h.cutoff_parses) refl
    | inr same ↦
        let e = (text_eq_iff (strip_hash_prefix (prev_hash_of lib d)) genesis_hash).1 same in
        elim (Bool-cases (index_of lib d == 1)) [
          | inl one ↦ rw (text_eq_refl (capsule_of lib d), one, e, h.cutoff_parses) refl
          | inr other ↦ rw (text_eq_refl (capsule_of lib d), other, h.cutoff_parses) refl
        ]
  ]

  pub documents-All :
      (policy : VerifierPolicy) (ds : List Value) (all : Bool)
      (rs : List BoundaryVerificationResult)
      → verify_documents lib policy ds ≡ checked all rs
      → All (IsValidDocument policy) ds
  unfolding verify_documents
  documents-All policy [] all rs h = tt
  documents-All policy (d ∷ ds) all rs h =
      elim (Bool-cases (verify_boundary_attestation lib d policy).valid) [
        | inr bad ↦ absurd (ground arith)
        | inl ok ↦ elim (results-cases (verify_documents lib policy ds)) [
          | inl (all', rs', e) ↦ (ok, documents-All policy ds all' rs' e)
          | inr (r, rs', e) ↦ absurd (ground arith)
        ]
      ]

  pub All-documents :
      (policy : VerifierPolicy) (ds : List Value)
      → All (IsValidDocument policy) ds
      → (all : Bool) × (rs : List BoundaryVerificationResult) × (verify_documents lib policy ds
          ≡ checked all rs)
  unfolding verify_documents
  All-documents policy [] v = (true, [], refl)
  All-documents policy (d ∷ ds) (v, vs) =
      let (all, rs, e) = All-documents policy ds vs in
      let r = verify_boundary_attestation lib d policy in
      (r.signature_checked && all, r ∷ rs, rw (v, e) refl)
