-- ===== src/Receipts/Tests.antt =====
-- lib.rs: a set of receipts, a set of parents, and the theorems on sets and roots on them.
use nanorix_verify.Prelude.{◌≡◌, ◌↔◌, refl, arith, none, some, List, [], ◌∷◌, ◌++◌, map, Text, text}
use nanorix_verify.Sample.{Json, str, num, object, crates}
use nanorix_verify.Steps.{strip_hash_prefix}
use nanorix_verify.Merkle.{verifier_merkle_root}
use nanorix_verify.Merkle.Total.{verifier_merkle_root_total}
use nanorix_verify.Receipts.{receipt_chain_hash, verify_record_receipts, verify_parent_proofs}
use nanorix_verify.Receipts.Sets.{
  claimed_receipt_hash, verify_record_receipts_iff, verify_parent_proofs_pad,
}
use mathlib.Core.Option

abbrev hashes : List Text
hashes = text "aa" ∷ text "bb" ∷ []

abbrev parent : Text → Json
parent hash = object ((text "parent_chain_hash", str hash) ∷ [])

abbrev receipts : List Json
receipts =
    object ((text "record_index", num 0) ∷ (text "record_chain_hash", str (text "aa")) ∷ [])
    ∷ object ((text "record_index", num 1) ∷ (text "record_chain_hash", str (text "bb")) ∷ [])
    ∷ []

verifier_merkle_root_total_example :
    (root : Text) × (verifier_merkle_root crates (text "cc" ∷ hashes) ≡ some root)
verifier_merkle_root_total_example =
    verifier_merkle_root_total crates (text "cc" ∷ hashes) (omega arith)

verify_parent_proofs_pad_example :
    verify_parent_proofs crates (map parent hashes ++ parent (text "cc") ∷ []) (some (text "dd"))
    ≡ verify_parent_proofs crates
        (map parent hashes ++ parent (text "cc") ∷ parent (text "cc") ∷ [])
        (some (text "dd"))
verify_parent_proofs_pad_example =
    verify_parent_proofs_pad crates 1 (map parent hashes) (parent (text "cc")) (text "dd") refl
      (omega arith)

verify_record_receipts_iff_example :
    (verify_record_receipts crates receipts (text "capsule") (some (text "dd")) ≡ none) ↔ (
      (map (claimed_receipt_hash crates) receipts
        ≡ map (receipt_chain_hash crates (text "capsule")) receipts)
      × (Option.get_or
            (verifier_merkle_root crates
              (map (receipt_chain_hash crates (text "capsule")) receipts))
            []
          ≡ strip_hash_prefix (text "dd")))
verify_record_receipts_iff_example =
    verify_record_receipts_iff crates receipts (text "capsule") (text "dd")
