-- ===== src/Receipts/Sets.antt =====
-- lib.rs: what the checks of the receipt and parent sets guarantee, and what they do not.
use mathlib.Core.List.{map-append}
use nanorix_verify.Prelude.{
  ℕ, suc, ◌*◌, ◌<◌, ◌≡◌, ◌↔◌, refl, sym, ap, ◌∙◌, arith, none, some, List, [], ◌∷◌, ◌++◌, map, Text,
  text, text_eq, text_eq-eq, text_eq_iff, Bool-cases, inl, inr, length, length-map,
}
use nanorix_verify.Libs.{Libs}
use nanorix_verify.Steps.{strip_hash_prefix}
use nanorix_verify.Merkle.{verifier_merkle_root}
use nanorix_verify.Merkle.Padding.{verifier_merkle_root_pad}
use nanorix_verify.Receipts.{
  str_or_empty, receipt_chain_hash, Recomputed, mismatch, leaves, prepend, recompute_receipts,
  check_root, check_recomputed, verify_record_receipts, verify_parent_proofs, parent_leaf,
}
use mathlib.Core.Option

abbrev kept : Recomputed → List Text
kept (mismatch e) = []
kept (leaves hashes) = hashes

prepend-leaves :
    (h : Text) (r : Recomputed) (hashes : List Text)
    → prepend h r ≡ leaves hashes
    → (rest : List Text) × (r ≡ leaves rest) × (h ∷ rest ≡ hashes)
prepend-leaves h (mismatch e) hashes p = absurd (ground arith)
prepend-leaves h (leaves rest) hashes p = (rest, refl, ap kept p)

module _ (lib : Libs) where
  open lib use {Value}

  check_root-none :
      (claimed : Text) (hashes : List Text)
      → (check_root lib claimed hashes ≡ none)
        ↔ (Option.get_or (verifier_merkle_root lib hashes) [] ≡ strip_hash_prefix claimed)
  unfolding check_root
  check_root-none claimed hashes =
      let r = Option.get_or (verifier_merkle_root lib hashes) [] in
      elim (Bool-cases (text_eq r (strip_hash_prefix claimed))) [
        | inl same ↦ (λ _. text_eq-eq _ _ same, λ _. ground arith)
        | inr other ↦ (
          λ h. absurd (ground arith),
          λ e. absurd (ground (arith, text_eq_iff r (strip_hash_prefix claimed))),
        )
      ]

  -- What a receipt claims as its chain hash, and what its fields give.
  abbrev pub claimed_receipt_hash : Value → Text
  claimed_receipt_hash receipt =
      strip_hash_prefix (str_or_empty lib receipt (text "record_chain_hash"))

  recompute_receipts-leaves :
      (capsule_id : Text) (i : ℕ) (receipts : List Value) (hashes : List Text)
      → recompute_receipts lib capsule_id i receipts ≡ leaves hashes
      → (map (receipt_chain_hash lib capsule_id) receipts ≡ hashes)
        × (map claimed_receipt_hash receipts ≡ hashes)
  unfolding recompute_receipts
  recompute_receipts-leaves capsule_id i [] hashes h = (ap kept h, ap kept h)
  recompute_receipts-leaves capsule_id i (r ∷ receipts) hashes h =
      elim (Bool-cases (text_eq (receipt_chain_hash lib capsule_id r) (claimed_receipt_hash r))) [
        | inl same ↦
            let (rest, e, f) =
              prepend-leaves (receipt_chain_hash lib capsule_id r)
                (recompute_receipts lib capsule_id (suc i) receipts) hashes (ground arith) in
            let (a, b) = recompute_receipts-leaves capsule_id (suc i) receipts rest e in
            let s = text_eq-eq _ _ same in
            (
              ap (λ (t : List Text). receipt_chain_hash lib capsule_id r ∷ t) a ∙ f,
              ap (λ (t : List Text). claimed_receipt_hash r ∷ t) b
                  ∙ ap (λ (x : Text). x ∷ rest) (sym s)
                  ∙ f,
            )
        | inr other ↦ absurd (ground arith)
      ]

  recompute_receipts-claimed :
      (capsule_id : Text) (i : ℕ) (receipts : List Value)
      → map claimed_receipt_hash receipts ≡ map (receipt_chain_hash lib capsule_id) receipts
      → recompute_receipts lib capsule_id i receipts
        ≡ leaves (map (receipt_chain_hash lib capsule_id) receipts)
  unfolding recompute_receipts
  recompute_receipts-claimed capsule_id i [] h = refl
  recompute_receipts-claimed capsule_id i (r ∷ receipts) h =
      elim (Bool-cases (text_eq (receipt_chain_hash lib capsule_id r) (claimed_receipt_hash r))) [
        | inl same ↦
            let rest = recompute_receipts-claimed capsule_id (suc i) receipts (ground arith) in
            ground arith
        | inr other ↦ absurd (
            ground
              (arith, text_eq_iff (receipt_chain_hash lib capsule_id r) (claimed_receipt_hash r)))
      ]

  check_recomputed-none :
      (claimed : Text) (r : Recomputed)
      → check_recomputed lib claimed r ≡ none
      → (hashes : List Text) × (r ≡ leaves hashes) × (check_root lib claimed hashes ≡ none)
  check_recomputed-none claimed (mismatch e) h = absurd (ground arith)
  check_recomputed-none claimed (leaves hashes) h = (hashes, refl, h)

  verify_record_receipts_sound :
      (receipts : List Value) (capsule_id claimed : Text)
      → verify_record_receipts lib receipts capsule_id (some claimed) ≡ none
      → (map claimed_receipt_hash receipts ≡ map (receipt_chain_hash lib capsule_id) receipts)
        × (Option.get_or
              (verifier_merkle_root lib (map (receipt_chain_hash lib capsule_id) receipts))
              []
            ≡ strip_hash_prefix claimed)
  unfolding verify_record_receipts
  verify_record_receipts_sound receipts capsule_id claimed h =
      let (hashes, e, root) =
        check_recomputed-none claimed (recompute_receipts lib capsule_id 0 receipts) h in
      let (given, stated) = recompute_receipts-leaves capsule_id 0 receipts hashes e in
      (stated ∙ sym given, rw given ((check_root-none claimed hashes).0 root))

  -- A receipt set under a claimed root passes exactly when every receipt's claimed chain hash is
  -- the one that its fields give, and the Merkle root of those hashes is the claimed root.
  pub verify_record_receipts_iff :
      (receipts : List Value) (capsule_id claimed : Text)
      → (verify_record_receipts lib receipts capsule_id (some claimed) ≡ none) ↔ (
          (map claimed_receipt_hash receipts ≡ map (receipt_chain_hash lib capsule_id) receipts)
          × (Option.get_or
                (verifier_merkle_root lib (map (receipt_chain_hash lib capsule_id) receipts))
                []
              ≡ strip_hash_prefix claimed))
  unfolding verify_record_receipts
  verify_record_receipts_iff receipts capsule_id claimed = (
    verify_record_receipts_sound receipts capsule_id claimed,
    λ (e, root).
        rw (recompute_receipts-claimed capsule_id 0 receipts e)
          ((check_root-none claimed (map (receipt_chain_hash lib capsule_id) receipts)).1 root),
  )

  -- A set of parent proofs of odd size, three or more, and the set in which the last parent stands
  -- once more get the same verdict under every claimed root.
  pub verify_parent_proofs_pad :
      (half : ℕ) (parents : List Value) (last : Value) (claimed : Text)
      → length parents ≡ 2 * half
      → 0 < half
      → verify_parent_proofs lib (parents ++ last ∷ []) (some claimed)
        ≡ verify_parent_proofs lib (parents ++ last ∷ last ∷ []) (some claimed)
  unfolding verify_parent_proofs check_root
  verify_parent_proofs_pad half parents last claimed e h =
      let leaf = parent_leaf lib in
      rw
        (
          map-append leaf parents (last ∷ []),
          map-append leaf parents (last ∷ last ∷ []),
          verifier_merkle_root_pad lib half (map leaf parents) (leaf last)
              (length-map leaf parents ∙ e) h,
        )
        refl
