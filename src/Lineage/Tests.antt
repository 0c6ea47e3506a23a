-- ===== src/Lineage/Tests.antt =====
-- chain.rs: a chain of three documents, and the theorems of this part on it.
use nanorix_verify.Prelude.{
  All, ℕ, ◌+◌, ◌≤◌, ◌≡◌, ◌≢◌, refl, arith, true, Option, none, some, [], ◌∷◌, Text, text, text_eq,
  if◌then◌else◌, length,
}
use nanorix_verify.Lineage.{
  SingleVerification, self_ok, ChainNode, ChainVerification, genesis, linked, Result, ok, err,
  parent_not_found, Walk, contains, lookup, link, check_parent, descend, enter, verify_chain_impl,
  verify_chain, flatten,
}
use nanorix_verify.Lineage.Sound.{Lineage, root, child, verify_chain_sound}
use nanorix_verify.Lineage.Complete.{verify_chain_total, verify_chain_complete}
use nanorix_verify.Lineage.Facts.{AreNew, ids, OwnIds, verify_chain_one_org, verify_chain_distinct}

-- A document with its id and its parent's; all of one organisation.
record Document : Type 0 where
  name : Text
  parent : Option Text

abbrev verification : Document → SingleVerification
verification d = record {
  capsule_id = d.name;
  org_id = text "org";
  signature_verified = true;
  canonical_hash_verified = true;
  signing_key_version = text "1";
}

abbrev documents : ChainNode
documents = record {
  Node = Document;
  capsule_id = λ d. d.name;
  org_id = λ d. text "org";
  parent_audit_proof_id = λ d. d.parent;
  verify_self = λ d. self_ok (verification d);
}

abbrev first : Document
first = record { name = text "a"; parent = none }

abbrev second : Document
second = record { name = text "b"; parent = some (text "a") }

abbrev third : Document
third = record { name = text "c"; parent = some (text "b") }

-- The state of the callback counts its calls.
abbrev fetch : ℕ → Text → ℕ × Result Document
fetch calls id = (
  calls + 1,
  if text_eq id (text "a")
      then ok first
      else if text_eq id (text "b")
      then ok second
      else err (parent_not_found id),
)

abbrev expected : ChainVerification
expected = linked (verification third) (linked (verification second) (genesis (verification first)))

abbrev after : Walk ℕ
after = record {
  fetcher = 2;
  visited = text "a" ∷ text "b" ∷ text "c" ∷ [];
  cache =
      (text "b", linked (verification second) (genesis (verification first)))
      ∷ (text "a", genesis (verification first))
      ∷ [];
}

accepted : verify_chain documents fetch 3 third 0 ≡ some (ok expected, after)
unfolding verify_chain verify_chain_impl enter descend check_parent link contains lookup text_eq
accepted = refl

lineage : Lineage documents fetch 3 0 (text "c" ∷ []) 1 third expected
unfolding contains text_eq
lineage =
    child refl refl (omega arith) refl refl refl refl
      (child refl refl (omega arith) refl refl refl refl (root refl refl))

verify_chain_sound_example : Lineage documents fetch 3 0 (text "c" ∷ []) 1 third expected
verify_chain_sound_example = verify_chain_sound documents fetch 3 third 0 expected after accepted

verify_chain_complete_example :
    (w : Walk ℕ) × (verify_chain documents fetch 3 third 0 ≡ some (ok expected, w))
verify_chain_complete_example = verify_chain_complete documents fetch 3 third 0 expected lineage

verify_chain_total_example : verify_chain documents fetch 3 third 0 ≢ none
verify_chain_total_example = verify_chain_total documents fetch 3 third 0

own_ids : OwnIds documents fetch 3
own_ids d v e = (cc, cc)

verify_chain_one_org_example :
    All (λ (v : SingleVerification). v.org_id ≡ text "org") (flatten expected)
verify_chain_one_org_example =
    verify_chain_one_org documents fetch 3 own_ids third 0 expected after accepted

verify_chain_distinct_example : AreNew [] (ids (flatten expected)) × (length (flatten expected) ≤ 3)
verify_chain_distinct_example =
    verify_chain_distinct documents fetch 3 own_ids third 0 expected after (omega arith) accepted
