-- ===== src/Pipeline/ChainFacts.antt =====
-- lib.rs: the destruction chain of a valid document is the canonical one.
use nanorix_verify.Prelude.{
  ℕ, zero, suc, ◌≡◌, ◌↔◌, refl, sym, ap, ◌∙◌, arith, true, Option, none, some, List, [], ◌∷◌, map,
  Text, text, text_eq, text_eq-eq, text_eq_refl, Bool-cases, inl, inr, length, get_or,
}
use nanorix_verify.Libs.{Libs}
use nanorix_verify.Steps.{genesis_hash, canonical_chain, strip_hash_prefix}
use nanorix_verify.Timestamp.{resolve_chain_timestamp}
use nanorix_verify.Receipts.{str_field, str_or_empty}
use nanorix_verify.Pipeline.Verdict.{VerifierPolicy, TrustedAuthority}
use nanorix_verify.Pipeline.Walk.{
  canonical_step_hash, check_step, walk_chain, check_chain, last_chain_hash, check_final_hash,
  array_field,
}
use nanorix_verify.Pipeline.Verify.{verify_auditproof}
use nanorix_verify.Pipeline.Accepted.{verify_auditproof-IsAccepted}

-- The canonical subsystems of `count` steps from position `idx` on.
abbrev pub labels : ℕ → ℕ → List Text
labels idx zero = []
labels idx (suc count) = (get_or canonical_chain idx ([], [])).0 ∷ labels (suc idx) count

module _ (lib : Libs) where
  open lib use {Value}

  -- The hashes of `count` steps from position `idx` on, as the specification fixes them: each step
  -- hashes the one before it, and no field of the document but the timestamp and the two roots.
  abbrev pub canonical_hashes : Text → Option Text → Option Text → ℕ → Text → ℕ → List Text
  canonical_hashes ts rr pp idx prev zero = []
  canonical_hashes ts rr pp idx prev (suc count) =
      canonical_step_hash lib ts rr pp idx prev
      ∷ canonical_hashes ts rr pp (suc idx) (canonical_step_hash lib ts rr pp idx prev) count

  -- What the steps of a document claim.
  abbrev pub claimed_hash : Value → Text
  claimed_hash step = strip_hash_prefix (str_or_empty lib step (text "chain_hash"))

  abbrev pub claimed_label : Value → Text
  claimed_label step = str_or_empty lib step (text "subsystem")

  check_step-none :
      (h : Text) (idx : ℕ) (step : Value)
      → check_step lib h idx step ≡ none
      → (claimed_hash step ≡ h) × (claimed_label step ≡ (get_or canonical_chain idx ([], [])).0)
  unfolding check_step
  check_step-none h idx step e = elim (Bool-cases (text_eq h (claimed_hash step))) [
    | inl same ↦
        elim (Bool-cases (text_eq (claimed_label step) (get_or canonical_chain idx ([], [])).0)) [
          | inl label ↦ (sym (text_eq-eq _ _ same), text_eq-eq _ _ label)
          | inr label ↦ absurd (ground arith)
        ]
    | inr other ↦ absurd (ground arith)
  ]

  walk_chain-none :
      (ts : Text) (rr pp : Option Text) (idx : ℕ) (prev : Text) (steps : List Value)
      → walk_chain lib ts rr pp idx prev steps ≡ none
      → (map claimed_hash steps ≡ canonical_hashes ts rr pp idx prev (length steps))
        × (map claimed_label steps ≡ labels idx (length steps))
  unfolding walk_chain
  walk_chain-none ts rr pp idx prev [] e = (refl, refl)
  walk_chain-none ts rr pp idx prev (step ∷ steps) e =
      let h = canonical_step_hash lib ts rr pp idx prev in
      let (hash, label) = check_step-none h idx step (ground arith) in
      let (hashes, names) = walk_chain-none ts rr pp (suc idx) h steps (ground arith) in (cc, cc)

  -- The walk accepts a chain exactly when its hashes and labels are the canonical ones.
  walk_chain_complete :
      (ts : Text) (rr pp : Option Text) (idx : ℕ) (prev : Text) (steps : List Value)
      → map claimed_hash steps ≡ canonical_hashes ts rr pp idx prev (length steps)
      → map claimed_label steps ≡ labels idx (length steps)
      → walk_chain lib ts rr pp idx prev steps ≡ none
  unfolding walk_chain check_step
  walk_chain_complete ts rr pp idx prev [] e f = refl
  walk_chain_complete ts rr pp idx prev (step ∷ steps) e f =
      let h = canonical_step_hash lib ts rr pp idx prev in
      let same : claimed_hash step ≡ h = cc in
      let label : claimed_label step ≡ (get_or canonical_chain idx ([], [])).0 = cc in
      let rest = walk_chain_complete ts rr pp (suc idx) h steps (cc) (cc) in
      let t₁ : text_eq h (claimed_hash step) ≡ true = rw same (text_eq_refl h) in
      let t₂ : text_eq (claimed_label step) (get_or canonical_chain idx ([], [])).0 ≡ true =
        rw label (text_eq_refl _) in
      ground arith

  -- `verify_auditproof`'s chain walk passes exactly when the claimed hashes are those of the
  -- canonical steps from the genesis hash, and the claimed subsystems are the canonical names.
  pub check_chain_iff :
      (json : Value) (ts : Text) (chain : List Value)
      → (check_chain lib json ts chain ≡ none) ↔ (
          (map claimed_hash chain
            ≡ canonical_hashes ts
                (str_field lib json (text "record_receipts_merkle_root"))
                (str_field lib json (text "parent_proofs_merkle_root"))
                0
                genesis_hash
                (length chain))
          × (map claimed_label chain ≡ labels 0 (length chain)))
  unfolding check_chain
  check_chain_iff json ts chain = (
    walk_chain-none ts _ _ 0 genesis_hash chain,
    λ h. walk_chain_complete ts _ _ 0 genesis_hash chain h.0 h.1,
  )

  last_claimed :
      (steps : List Value) (k : ℕ)
      → length steps ≡ suc k
      → strip_hash_prefix (last_chain_hash lib steps) ≡ get_or (map claimed_hash steps) k []
  unfolding last_chain_hash
  last_claimed [] k e = absurd (omega arith)
  last_claimed (s ∷ []) zero e = refl
  last_claimed (s ∷ []) (suc k) e = absurd (omega arith)
  last_claimed (s ∷ t ∷ steps) zero e = absurd (omega arith)
  last_claimed (s ∷ t ∷ steps) (suc k) e = last_claimed (t ∷ steps) k (omega arith)

  final_hash-none :
      (json : Value) (chain : List Value)
      → check_final_hash lib json chain ≡ none
      → strip_hash_prefix (str_or_empty lib json (text "final_hash"))
        ≡ strip_hash_prefix (last_chain_hash lib chain)
  unfolding check_final_hash
  final_hash-none json chain h = text_eq-eq _ _ (ground arith)

  -- A valid document has a chain of eight steps with the canonical names in their order, whose
  -- hashes are computed from the genesis hash, the resolved timestamp and the two Merkle roots
  -- alone, and its `final_hash` is the last of those hashes.
  pub valid_chain_canonical :
      (json : Value) (trust : List TrustedAuthority) (policy : VerifierPolicy)
      → (verify_auditproof lib json trust policy).valid ≡ true
      → let hashes =
          canonical_hashes
            (resolve_chain_timestamp lib json).0
            (str_field lib json (text "record_receipts_merkle_root"))
            (str_field lib json (text "parent_proofs_merkle_root"))
            0
            genesis_hash
            8 in
        (chain : List Value) × (array_field lib json (text "chain") ≡ some chain)
        × (map claimed_hash chain ≡ hashes)
        × (map claimed_label chain ≡ map (λ (c : Text × Text). c.0) canonical_chain)
        × (strip_hash_prefix (str_or_empty lib json (text "final_hash")) ≡ get_or hashes 7 [])
  unfolding canonical_chain
  valid_chain_canonical json trust policy valid =
      let a = verify_auditproof-IsAccepted lib json trust policy valid in
      let (hashes, names) =
        (check_chain_iff json (resolve_chain_timestamp lib json).0 a.chain).0 a.chain_walk in
      (
        a.chain,
        a.chain_field,
        rw a.step_count at hashes,
        rw a.step_count at names,
        final_hash-none json a.chain a.final_hash
            ∙ last_claimed a.chain 7 a.step_count
            ∙ ap (λ (l : List Text). get_or l 7 []) (rw a.step_count at hashes),
      )
