-- ===== src/Boundary/Valid.antt =====
-- boundary.rs: the verdict of `verify_boundary_chain`.
use nanorix_verify.Prelude.{
  All, ℕ, ◌^◌, ◌<◌, ◌≡◌, ◌↔◌, refl, arith, Bool, true, false, none, some, List, [], ◌∷◌, text, suc,
  ◌∙◌, ap, Option-cases, inl, inr, ◌==◌, sort_by_key, IsAscending, IsAscendingFrom,
  sort-IsAscending,
}
use nanorix_verify.Libs.{Libs}
use nanorix_verify.Steps.{genesis_hash, strip_hash_prefix}
use nanorix_verify.Pipeline.Verdict.{VerifierPolicy}
use nanorix_verify.Boundary.{verify_boundary_attestation}
use nanorix_verify.Boundary.Checked.{documents-checked}
use nanorix_verify.Boundary.Chain.{
  linked, broken, index_of, capsule_of, prev_hash_of, verify_documents, check_link, next_previous,
  anchors, walk_links, expected_capsule, chain_result, verify_ordered, verify_boundary_chain,
}
use nanorix_verify.Boundary.Linked.{
  IsHead, IsLinked, IsLinkedFrom, IsChain, next_previous-some, walk_links-IsLinkedFrom,
  walk_links-linked, link-IsHead, head-none, documents-All, All-documents, results-cases,
}

module _ (lib : Libs) where
  open lib use {Value, get, as_u64}

  head_walk :
      (d : Value) (ds : List Value) (b : Bool)
      → IsAscendingFrom (index_of lib) d ds
      → walk_links lib (capsule_of lib d) none false (d ∷ ds) ≡ linked b
      → IsLinked lib (d ∷ ds) × (b ≡ (index_of lib d == 1))
  unfolding walk_links
  head_walk d ds b asc w = elim (Option-cases (check_link lib (capsule_of lib d) none d)) [
    | inr (reason, bad) ↦ absurd (ground arith)
    | inl ok ↦
        let h = link-IsHead lib d ok in
        let (l, flag) =
          walk_links-IsLinkedFrom lib (capsule_of lib d) (next_previous lib d) d h.cutoff
            (anchors lib none d false) b ds (next_previous-some lib d h.cutoff h.cutoff_parses)
            h.cutoff_parses refl asc (ground arith) in
        ((h, l), ground arith)
  ]

  index-bounded :
      ((v : Value) (n : ℕ) → as_u64 v ≡ some n → n < 2 ^ 64)
      → (ds : List Value) → All (λ d. index_of lib d < 2 ^ 64) ds
  unfolding index_of
  index-bounded law [] = tt
  index-bounded law (d ∷ ds) = (
    elim (Option-cases (get d (text "attestation_index"))) [
      | inl missing ↦ ground arith
      | inr (v, ev) ↦ elim (Option-cases (as_u64 v)) [
        | inl bad ↦ ground arith
        | inr (n, en) ↦ ground (arith, law v n en)
      ]
    ],
    index-bounded law ds,
  )

  ordered_sound :
      (policy : VerifierPolicy) (ds : List Value)
      → IsAscending (index_of lib) ds
      → (verify_ordered lib policy ds).valid ≡ true
      → IsChain lib policy ds
  unfolding verify_ordered chain_result expected_capsule
  ordered_sound policy [] asc h = (tt, tt)
  ordered_sound policy (d ∷ ds) asc h =
      elim (results-cases (verify_documents lib policy (d ∷ ds))) [
        | inr (r, rs, e) ↦ absurd (ground arith)
        | inl (all, rs, e) ↦
            elim (walk_links lib (capsule_of lib d) none false (d ∷ ds))
                as (λ w.
                  walk_links lib (capsule_of lib d) none false (d ∷ ds) ≡ w
                  → IsChain lib policy (d ∷ ds)) [
                    | broken reason index ↦ λ w. absurd (ground arith)
                    | linked b ↦ λ w.
                        (documents-All lib policy (d ∷ ds) all rs e, (head_walk d ds b asc w).0)
                  ]
              refl
      ]

  ordered_complete :
      (policy : VerifierPolicy) (ds : List Value)
      → All (λ d. index_of lib d < 2 ^ 64) ds
      → IsChain lib policy ds
      → (verify_ordered lib policy ds).valid ≡ true
  unfolding verify_ordered chain_result expected_capsule verify_documents walk_links
  ordered_complete policy [] small c = refl
  ordered_complete policy (d ∷ ds) (n, small) (docs, (h, l)) =
      let (all, rs, e) = All-documents lib policy (d ∷ ds) docs in
      let ok = head-none lib d h in
      let w =
        walk_links-linked lib (capsule_of lib d) (next_previous lib d) d h.cutoff
          (anchors lib none d false) ds (next_previous-some lib d h.cutoff h.cutoff_parses)
          h.cutoff_parses refl small l in
      ground (arith, e, ok, w)

  -- On a JSON library whose `as_u64` yields numbers below 2 ^ 64, the verifier accepts a set of
  -- boundary attestations if and only if, in the order of their indices, each is valid on its own,
  -- each names the capsule of the one before, has the next index, carries the recomputed hash of
  -- the one before and a later cutoff, the cutoff of the first one parses, and the first one
  -- carries the genesis hash if its index is 1.
  pub verify_boundary_chain_iff :
      ((v : Value) (n : ℕ) → as_u64 v ≡ some n → n < 2 ^ 64)
      → (docs : List Value) (policy : VerifierPolicy)
      → ((verify_boundary_chain lib docs policy).valid ≡ true)
        ↔ IsChain lib policy (sort_by_key (index_of lib) docs)
  unfolding verify_boundary_chain
  verify_boundary_chain_iff law docs policy =
      let ds = sort_by_key (index_of lib) docs in
      (
        ordered_sound policy ds (sort-IsAscending (index_of lib) docs),
        ordered_complete policy ds (index-bounded law ds),
      )

  -- The indices count up from `n`.
  abbrev pub IsNumbered : ℕ → List Value → Type 0
  IsNumbered n [] = Unit
  IsNumbered n (d ∷ ds) = (index_of lib d ≡ n) × IsNumbered (suc n) ds

  linked-IsNumbered :
      (n : ℕ) (d : Value) (ds : List Value)
      → index_of lib d ≡ n
      → IsLinkedFrom lib d ds
      → IsNumbered (suc n) ds
  linked-IsNumbered n d [] h l = tt
  linked-IsNumbered n d (e ∷ es) h (s, l) =
      let next = s.next_index ∙ ap suc h in (next, linked-IsNumbered (suc n) e es next l)

  -- Documents that reach back to the origin.
  pub record ReachesOrigin (policy : VerifierPolicy) (ds : List Value) : Type 0 where
    pub first : Value
    pub later : List Value
    pub split : ds ≡ first ∷ later
    pub numbered : IsNumbered 1 ds
    pub genesis : strip_hash_prefix (prev_hash_of lib first) ≡ genesis_hash
    pub links : IsLinkedFrom lib first later
    pub signatures :
        All (λ d. (verify_boundary_attestation lib d policy).signature_checked ≡ true) ds

  head_genesis :
      (d : Value)
      → IsHead lib d
      → index_of lib d ≡ 1
      → strip_hash_prefix (prev_hash_of lib d) ≡ genesis_hash
  head_genesis d h one = elim h.genesis [ inl other ↦ absurd (other one) | inr same ↦ same ]

  ordered_anchored :
      (policy : VerifierPolicy) (ds : List Value)
      → IsAscending (index_of lib) ds
      → (verify_ordered lib policy ds).genesis_anchored ≡ true
      → (verify_ordered lib policy ds).all_signatures_checked ≡ true
      → ReachesOrigin policy ds
  unfolding verify_ordered chain_result expected_capsule
  ordered_anchored policy [] asc g sigs =
      absurd (unfold verify_documents walk_links in ground arith)
  ordered_anchored policy (d ∷ ds) asc g sigs =
      elim (results-cases (verify_documents lib policy (d ∷ ds))) [
        | inr (r, rs, e) ↦ absurd (ground arith)
        | inl (all, rs, e) ↦
            elim (walk_links lib (capsule_of lib d) none false (d ∷ ds))
                as (λ w.
                  walk_links lib (capsule_of lib d) none false (d ∷ ds) ≡ w
                  → ReachesOrigin policy (d ∷ ds)) [
                    | broken reason index ↦ λ w. absurd (ground arith)
                    | linked b ↦ λ w.
                        let ((h, l), flag) = head_walk d ds b asc w in
                        let one : index_of lib d ≡ 1 = ground arith in
                        let every : all ≡ true = ground arith in
                        record {
                          first = d;
                          later = ds;
                          split = refl;
                          numbered = (one, linked-IsNumbered 1 d ds one l);
                          genesis = head_genesis d h one;
                          links = l;
                          signatures = documents-checked lib policy (d ∷ ds) rs (ground arith);
                        }
                  ]
              refl
      ]

  -- A chain that is reported as anchored at the genesis with all signatures checked is a complete
  -- history: there is a document, and in the order of the indices these are 1, 2, 3 and so on
  -- without a gap, the first document carries the genesis hash, each later one follows the one
  -- before (the same capsule, the recomputed hash, a later cutoff), and the signature of every
  -- document was checked.
  pub genesis_anchored_complete :
      (docs : List Value) (policy : VerifierPolicy)
      → (verify_boundary_chain lib docs policy).genesis_anchored ≡ true
      → (verify_boundary_chain lib docs policy).all_signatures_checked ≡ true
      → ReachesOrigin policy (sort_by_key (index_of lib) docs)
  unfolding verify_boundary_chain
  genesis_anchored_complete docs policy =
      ordered_anchored policy (sort_by_key (index_of lib) docs)
        (sort-IsAscending (index_of lib) docs)
