-- ===== src/Boundary/Chain.antt =====
-- tools/nanorix-verify/src/boundary.rs: a chain of boundary attestations, `verify_boundary_chain`.
use nanorix_verify.Prelude.{
  ℕ, ◌+◌, ◌%◌, ◌^◌, Bool, true, false, ◌&&◌, ◌||◌, not, Option, none, some, List, [], ◌∷◌, ◌++◌,
  Text, text, text_eq, if◌then◌else◌, ◌then◌, ◌>>=◌, ◌==◌, sort_by_key,
}
use nanorix_verify.Libs.{Libs}
use nanorix_verify.Steps.{genesis_hash, strip_hash_prefix}
use nanorix_verify.Receipts.{str_or_empty}
use nanorix_verify.Pipeline.Verdict.{VerifierPolicy}
use nanorix_verify.Boundary.{
  recompute_boundary_canonical_hash, u64_field, verify_boundary_attestation,
}
use nanorix_verify.Boundary.Failure.{
  BoundaryFailureReason, BoundaryVerificationResult, BoundaryChainResult, capsule_id_mismatch,
  index_not_strictly_incremented, prev_attestation_hash_mismatch, genesis_prev_hash_mismatch,
  cutoff_timestamp_unparseable, cutoff_not_increasing,
}
use mathlib.Core.Option

-- What the loop over the documents collects: the results up to the first invalid one, or all of
-- them with the conjunction of `signature_checked`.
pub data DocumentResults : Type 0 where
  stopped : BoundaryVerificationResult → List BoundaryVerificationResult → DocumentResults
  checked : Bool → List BoundaryVerificationResult → DocumentResults

abbrev pub prepend : BoundaryVerificationResult → DocumentResults → DocumentResults
prepend r (stopped bad rs) = stopped bad (r ∷ rs)
prepend r (checked all rs) = checked (r.signature_checked && all) (r ∷ rs)

-- How the linkage walk ends: at a document, or with `genesis_anchored`.
pub data Linkage : Type 0 where
  broken : BoundaryFailureReason → ℕ → Linkage
  linked : Bool → Linkage

module _ (lib : Libs) where
  open lib use {Value, Instant, parse_from_rfc3339, instant_le}

  unfoldable pub index_of : Value → ℕ
  index_of doc = Option.get_or (u64_field lib doc (text "attestation_index")) 0

  abbrev pub capsule_of : Value → Text
  capsule_of doc = str_or_empty lib doc (text "capsule_id")

  abbrev pub prev_hash_of : Value → Text
  prev_hash_of doc = str_or_empty lib doc (text "prev_attestation_hash")

  abbrev pub cutoff_of : Value → Text
  cutoff_of doc = str_or_empty lib doc (text "cutoff_ts")

  unfoldable pub verify_documents : VerifierPolicy → List Value → DocumentResults
  verify_documents policy [] = checked true []
  verify_documents policy (doc ∷ docs) =
      let r = verify_boundary_attestation lib doc policy in
      let rest = verify_documents policy docs in
      if r.valid then prepend r rest else stopped r (r ∷ [])

  -- The variables of the walk that stand for the preceding document: `prev_canonical`,
  -- `prev_index`, `prev_cutoff` and `prev_cutoff_raw`, which are set together.
  pub record Previous : Type 0 where
    pub prev_canonical : Text
    pub prev_index : ℕ
    pub prev_cutoff : Instant
    pub prev_cutoff_raw : Text

  unfoldable pub check_capsule : Text → Value → Option BoundaryFailureReason
  check_capsule expected doc =
      if text_eq (capsule_of doc) expected
      then none
      else some (capsule_id_mismatch expected (capsule_of doc))

  -- The index and the hash link, or the genesis rule at the head. `pi + 1` is on `u64`.
  unfoldable pub check_position : Option Previous → Value → Option BoundaryFailureReason
  check_position none doc =
      if index_of doc == 1 && not (text_eq (strip_hash_prefix (prev_hash_of doc)) genesis_hash)
      then some (genesis_prev_hash_mismatch (prev_hash_of doc))
      else none
  check_position (some p) doc =
      if index_of doc == (p.prev_index + 1) % 2 ^ 64
      then (if text_eq (strip_hash_prefix (prev_hash_of doc)) p.prev_canonical
          then none
          else some (
              prev_attestation_hash_mismatch (index_of doc) (prev_hash_of doc)
                (text "sha512:" ++ p.prev_canonical)))
      else some (index_not_strictly_incremented p.prev_index (index_of doc))

  unfoldable pub check_cutoff :
      Option Previous → Text → Option Instant → Option BoundaryFailureReason
  check_cutoff p raw none = some (cutoff_timestamp_unparseable raw)
  check_cutoff none raw (some cutoff) = none
  check_cutoff (some p) raw (some cutoff) =
      if instant_le cutoff p.prev_cutoff
      then some (cutoff_not_increasing p.prev_cutoff_raw raw)
      else none

  -- All the checks of one document of the walk.
  unfoldable pub check_link : Text → Option Previous → Value → Option BoundaryFailureReason
  check_link expected p doc =
      check_capsule expected doc
      then check_position p doc
      then check_cutoff p (cutoff_of doc) (parse_from_rfc3339 (cutoff_of doc))

  -- The assignments at the end of the loop's body.
  unfoldable pub next_previous : Value → Option Previous
  next_previous doc = do
    cutoff ← parse_from_rfc3339 (cutoff_of doc)
    some (record {
      prev_canonical = recompute_boundary_canonical_hash lib doc;
      prev_index = index_of doc;
      prev_cutoff = cutoff;
      prev_cutoff_raw = cutoff_of doc;
    })

  abbrev pub anchors : Option Previous → Value → Bool → Bool
  anchors none doc anchored = index_of doc == 1 || anchored
  anchors (some p) doc anchored = anchored

  unfoldable pub walk_links : Text → Option Previous → Bool → List Value → Linkage
  walk_links expected p anchored [] = linked anchored
  walk_links expected p anchored (doc ∷ docs) =
      let rest = walk_links expected (next_previous doc) (anchors p doc anchored) docs in
      elim (check_link expected p doc) [ some reason ↦ broken reason (index_of doc) | none ↦ rest ]

  unfoldable pub expected_capsule : List Value → Text
  expected_capsule [] = []
  expected_capsule (doc ∷ docs) = capsule_of doc

  abbrev last : Value → List Value → Value
  last doc [] = doc
  last doc (d ∷ ds) = last d ds

  abbrev zip : Option ℕ → Option ℕ → Option (ℕ × ℕ)
  zip none b = none
  zip (some a) none = none
  zip (some a) (some b) = some (a, b)

  unfoldable pub chain_span : List Value → Option (ℕ × ℕ)
  chain_span [] = none
  chain_span (doc ∷ docs) =
      zip (u64_field lib doc (text "attestation_index"))
        (u64_field lib (last doc docs) (text "attestation_index"))

  -- the result from the two loops
  unfoldable pub chain_result : List Value → DocumentResults → Linkage → BoundaryChainResult
  chain_result docs (stopped r rs) walk = record {
    valid = false;
    failure_reason = r.failure_reason;
    failed_at_index = r.metadata.attestation_index;
    per_document = rs;
    chain_span = none;
    genesis_anchored = false;
    all_signatures_checked = false;
  }
  chain_result docs (checked all rs) (broken reason index) = record {
    valid = false;
    failure_reason = some reason;
    failed_at_index = some index;
    per_document = rs;
    chain_span = none;
    genesis_anchored = false;
    all_signatures_checked = all;
  }
  chain_result docs (checked all rs) (linked anchored) = record {
    valid = true;
    failure_reason = none;
    failed_at_index = none;
    per_document = rs;
    chain_span = chain_span docs;
    genesis_anchored = anchored;
    all_signatures_checked = all;
  }

  -- the walk over the documents in the order of their indices
  unfoldable pub verify_ordered : VerifierPolicy → List Value → BoundaryChainResult
  verify_ordered policy docs =
      chain_result docs (verify_documents policy docs)
        (walk_links (expected_capsule docs) none false docs)

  unfoldable pub verify_boundary_chain : List Value → VerifierPolicy → BoundaryChainResult
  verify_boundary_chain docs policy = verify_ordered policy (sort_by_key index_of docs)
