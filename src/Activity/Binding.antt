-- ===== src/Activity/Binding.antt =====
-- customer_activity.rs: the declared root binds the lines of the customer's record, on the same
-- behaviour of the `hex` crate as in Merkle/Binding.
use nanorix_verify.Prelude.{
  ◌≡◌, ◌⊎◌, refl, ap, sym, ◌∙◌, arith, Option, some, inl, inr, Option-cases, List, [], ◌∷◌, ◌++◌,
  All, map, Text, Bytes, text, text_eq-eq, length, decimal, decimal_inj, strip_prefix-append,
}
use nanorix_verify.Libs.{Libs}
use nanorix_verify.Steps.{genesis_hash, strip_hash_prefix}
use nanorix_verify.Receipts.{str_field}
use nanorix_verify.Merkle.{verifier_merkle_root}
use nanorix_verify.Merkle.Total.{verifier_merkle_root_total}
use nanorix_verify.Merkle.Binding.{
  IsHash, hashed_inj, verifier_merkle_root-IsHash, verifier_merkle_root_inj,
}
use nanorix_verify.Checkpoint.Binding.{Collision, append_inj}
use nanorix_verify.Activity.{
  ok, split_activity_lines, customer_declared_activity_leaf_hashes,
  compute_customer_declared_activity_root, declared_activity_root, compare_root,
  gate_declared_activity_root, verify_customer_declared_activity,
}
use mathlib.Core.Option

module _ (lib : Libs) where
  open lib use {Value, sha512, hex_encode}

  -- the Merkle root that the declared root is made from
  abbrev merkle : List Text → Text
  merkle leaves = Option.get_or (verifier_merkle_root lib leaves) genesis_hash

  module _
      (hex_inj : (x y : Bytes)
        → hex_encode (sha512 x) ≡ hex_encode (sha512 y)
        → sha512 x ≡ sha512 y)
      (hex_hash : (x : Bytes) → IsHash (hex_encode (sha512 x))) where
    leaves-IsHash : (ls : List Bytes) → All IsHash (map (λ line. hex_encode (sha512 line)) ls)
    leaves-IsHash [] = tt
    leaves-IsHash (l ∷ ls) = (hex_hash l, leaves-IsHash ls)

    leaves_inj :
        (ls ms : List Bytes)
        → map (λ line. hex_encode (sha512 line)) ls ≡ map (λ line. hex_encode (sha512 line)) ms
        → (ls ≡ ms) ⊎ Collision sha512
    leaves_inj [] [] e = inl refl
    leaves_inj [] (m ∷ ms) e = absurd (cc e)
    leaves_inj (l ∷ ls) [] e = absurd (cc e)
    leaves_inj (l ∷ ls) (m ∷ ms) e = elim (hashed_inj lib hex_inj hex_hash l m (cc e)) [
      | inr hit ↦ inr hit
      | inl p ↦ elim (leaves_inj ls ms (cc e)) [ inr hit ↦ inr hit | inl q ↦ inl (cc (p, q)) ]
    ]

    length-merkle : (leaves : List Text) → All IsHash leaves → length (merkle leaves) ≡ 128
    unfolding genesis_hash
    length-merkle leaves h = elim (Option-cases (verifier_merkle_root lib leaves)) [
      | inl none_yet ↦ rw none_yet refl
      | inr (r, e) ↦ rw e (verifier_merkle_root-IsHash lib hex_inj hex_hash leaves r h e).0
    ]

    merkle_inj :
        (l m : List Text)
        → length l ≡ length m
        → All IsHash l
        → All IsHash m
        → merkle l ≡ merkle m
        → (l ≡ m) ⊎ Collision sha512
    merkle_inj [] [] n hl hm e = inl refl
    merkle_inj [] (y ∷ m) n hl hm e = absurd (omega arith)
    merkle_inj (x ∷ l) [] n hl hm e = absurd (omega arith)
    merkle_inj (x ∷ l) (y ∷ m) n hl hm e =
        let (r, er) = verifier_merkle_root_total lib (x ∷ l) (omega arith) in
        let (r', er') = verifier_merkle_root_total lib (y ∷ m) (omega arith) in
        let same : r ≡ r' =
          sym (ap (λ (o : Option Text). Option.get_or o genesis_hash) er)
          ∙ e
          ∙ ap (λ (o : Option Text). Option.get_or o genesis_hash) er' in
        verifier_merkle_root_inj lib hex_inj hex_hash (x ∷ l) (y ∷ m) r n hl hm er
          (er' ∙ ap some (sym same))

    root_binds :
        (a b : Bytes)
        → compute_customer_declared_activity_root lib a
          ≡ compute_customer_declared_activity_root lib b
        → (split_activity_lines a ≡ split_activity_lines b) ⊎ Collision sha512
    unfolding compute_customer_declared_activity_root customer_declared_activity_leaf_hashes
    root_binds a b e =
        let ls = split_activity_lines a in
        let ms = split_activity_lines b in
        let l = map (λ line. hex_encode (sha512 line)) ls in
        let m = map (λ line. hex_encode (sha512 line)) ms in
        let hl = leaves-IsHash ls in
        let hm = leaves-IsHash ms in
        let (prefix, hashes) = append_inj (text "sha512:") _ (text "sha512:") _ refl e in
        elim (hashed_inj lib hex_inj hex_hash (merkle l ++ (0 ∷ decimal (length l)))
          (merkle m ++ (0 ∷ decimal (length m))) hashes) [
            | inr hit ↦ inr hit
            | inl same ↦
                let (roots, counts) =
                  append_inj (merkle l) (0 ∷ decimal (length l)) (merkle m) (0 ∷ decimal (length m))
                    (length-merkle l hl ∙ sym (length-merkle m hm)) same in
                let n : length l ≡ length m = decimal_inj (length l) (length m) (cc counts) in
                elim (merkle_inj l m n hl hm roots) [
                  | inr hit ↦ inr hit
                  | inl equal ↦ leaves_inj ls ms equal
                ]
          ]

    prefixed :
        (a : Bytes)
        → compute_customer_declared_activity_root lib a
          ≡ text "sha512:" ++ strip_hash_prefix (compute_customer_declared_activity_root lib a)
    unfolding compute_customer_declared_activity_root strip_hash_prefix
    prefixed a =
        ap
          (λ (o : Option Text).
            text "sha512:" ++ Option.get_or o (compute_customer_declared_activity_root lib a))
          (sym (strip_prefix-append (text "sha512:") _))

    accepted_root :
        (proof : Value) (a : Bytes) (root : Text)
        → verify_customer_declared_activity lib proof a ≡ ok root
        → (claimed : Text) × (declared_activity_root lib proof ≡ some claimed)
          × (strip_hash_prefix claimed
              ≡ strip_hash_prefix (compute_customer_declared_activity_root lib a))
    unfolding verify_customer_declared_activity compare_root
    accepted_root proof a root h =
        let gate =
          gate_declared_activity_root lib proof
            (Option.get_or (str_field lib proof (text "cdp_version")) []) in
        elim (Option-cases gate) [
          | inr (reason, e) ↦ absurd (ground arith)
          | inl open_gate ↦ elim (Option-cases (declared_activity_root lib proof)) [
            | inl missing ↦ absurd (ground arith)
            | inr (claimed, e) ↦
                (claimed, e, text_eq-eq (strip_hash_prefix claimed) _ (ground arith))
          ]
        ]

    -- Two records that are both accepted against one document have the same lines, or else a
    -- SHA-512 collision is exhibited, if the hex of a digest has 128 characters without the prefix
    -- `sha512:` and differs for different digests.
    pub verify_customer_declared_activity_binds :
        (proof : Value) (a b : Bytes) (root root' : Text)
        → verify_customer_declared_activity lib proof a ≡ ok root
        → verify_customer_declared_activity lib proof b ≡ ok root'
        → (split_activity_lines a ≡ split_activity_lines b) ⊎ Collision sha512
    verify_customer_declared_activity_binds proof a b root root' h k =
        let (claimed, e, same) = accepted_root proof a root h in
        let (claimed', e', same') = accepted_root proof b root' k in
        let one : claimed ≡ claimed' = cc (e, e') in
        root_binds a b (
          prefixed a
          ∙ ap (λ (t : Text). text "sha512:" ++ t) (sym same ∙ ap strip_hash_prefix one ∙ same')
          ∙ sym (prefixed b))
