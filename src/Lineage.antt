-- ===== src/Lineage.antt =====
-- governance/verify-types/src/chain.rs: the walk from an AuditProof back through its declared
-- parents to a genesis.
pub mod Sound
pub mod Complete
pub mod Facts
pub mod Tests
use nanorix_verify.Prelude.{
  ℕ, zero, suc, ◌+◌, Bool, true, false, ◌||◌, Option, none, some, List, [], ◌∷◌, Text, text_eq, leb,
  if◌then◌else◌,
}
use nanorix_verify.Failure.{FailureReason}

-- `DEFAULT_MAX_CHAIN_DEPTH`
abbrev pub default_max_chain_depth : ℕ
default_max_chain_depth = 100

pub record SingleVerification : Type 0 where
  pub capsule_id : Text
  pub org_id : Text
  pub signature_verified : Bool
  pub canonical_hash_verified : Bool
  pub signing_key_version : Text

pub record SingleVerificationFailure : Type 0 where
  pub capsule_id : Text
  pub reason : FailureReason

pub data SelfCheck : Type 0 where
  self_ok : SingleVerification → SelfCheck
  self_err : SingleVerificationFailure → SelfCheck

-- The `ChainNode` trait.
pub record ChainNode : Type 1 where
  pub Node : Type 0
  pub capsule_id : Node → Text
  pub org_id : Node → Text
  pub parent_audit_proof_id : Node → Option Text
  pub verify_self : Node → SelfCheck

pub data ChainVerification : Type 0 where
  genesis : SingleVerification → ChainVerification
  linked : (this : SingleVerification) (parent : ChainVerification) → ChainVerification

pub data ChainVerificationError : Type 0 where
  single_verification_failed : SingleVerificationFailure → ChainVerificationError
  parent_not_found : Text → ChainVerificationError
  parent_id_mismatch : (declared actual : Text) → ChainVerificationError
  cross_customer_linkage : (child_org parent_org : Text) → ChainVerificationError
  cycle_detected : (capsule_id : Text) → ChainVerificationError
  depth_exceeded : (max : ℕ) → ChainVerificationError

pub data Result (A : Type 0) : Type 0 where
  ok : A → Result A
  err : ChainVerificationError → Result A

pub leaf : ChainVerification → SingleVerification
leaf (genesis v) = v
leaf (linked this parent) = this

pub depth : ChainVerification → ℕ
depth (genesis v) = 1
depth (linked this parent) = 1 + depth parent

-- The loop of `flatten`, leaf first.
pub flatten : ChainVerification → List SingleVerification
flatten (genesis v) = v ∷ []
flatten (linked this parent) = this ∷ flatten parent

-- `HashSet<String>` and `HashMap<String, ChainVerification>` as lists of their insertions.
pub contains : List Text → Text → Bool
contains [] k = false
contains (x ∷ xs) k = text_eq x k || contains xs k

pub lookup : List (Text × ChainVerification) → Text → Option ChainVerification
lookup [] k = none
lookup ((j, v) ∷ rest) k = if text_eq j k then some v else lookup rest k

-- What the descent carries: the state of the fetch callback, `visited` and `cache`.
pub record Walk (S : Type 0) : Type 0 where
  pub fetcher : S
  pub visited : List Text
  pub cache : List (Text × ChainVerification)

-- `none` is a lack of fuel.
abbrev pub Outcome : Type 0 → Type 0
Outcome S = Option (Result ChainVerification × Walk S)

-- steps 5 on a hit: the organisations are compared on every edge
pub use_cached : SingleVerification → ChainVerification → Result ChainVerification
use_cached this cached =
    if text_eq this.org_id (leaf cached).org_id
    then ok (linked this cached)
    else err (cross_customer_linkage this.org_id (leaf cached).org_id)

-- step 11
pub link : {S : Type 0} → SingleVerification → Text → Outcome S → Outcome S
link this pid none = none
link this pid (some (err e, w)) = some (err e, w)
link this pid (some (ok parent, w)) =
    some (ok (linked this parent), record w { cache = (pid, parent) ∷ w.cache })

-- The walk over a `ChainNode` with the stateful callback `fetch_parent_fn`.
module _ (chain : ChainNode) {S : Type 0} (fetch : S → Text → S × Result chain.Node) (max : ℕ) where
  open chain use {Node, capsule_id, org_id, parent_audit_proof_id, verify_self}

  -- steps 7 to 11, `rec` being the recursive call
  pub check_parent :
      (Node → ℕ → Walk S → Outcome S)
      → SingleVerification
      → Text
      → ℕ
      → Walk S
      → Result Node
      → Outcome S
  check_parent rec this pid d w (err e) = some (err e, w)
  check_parent rec this pid d w (ok parent) =
      if text_eq (capsule_id parent) pid
      then (if text_eq this.org_id (org_id parent)
          then link this pid (rec parent (suc d) (record w { visited = pid ∷ w.visited }))
          else some (err (cross_customer_linkage this.org_id (org_id parent)), w))
      else some (err (parent_id_mismatch pid (capsule_id parent)), w)

  -- steps 3 to 6
  pub descend : (Node → ℕ → Walk S → Outcome S) → SingleVerification → Text → ℕ → Walk S → Outcome S
  descend rec this pid d w =
      if leb max d
      then some (err (depth_exceeded max), w)
      else if contains w.visited pid
      then some (err (cycle_detected pid), w)
      else elim (lookup w.cache pid) [
        | some cached ↦ some (use_cached this cached, w)
        | none ↦
            let (s', fetched) = fetch w.fetcher pid in
            check_parent rec this pid d (record w { fetcher = s' }) fetched
      ]

  -- steps 1 and 2
  pub enter : (Node → ℕ → Walk S → Outcome S) → SelfCheck → Option Text → ℕ → Walk S → Outcome S
  enter rec (self_err failure) parent d w = some (err (single_verification_failed failure), w)
  enter rec (self_ok this) none d w = some (ok (genesis this), w)
  enter rec (self_ok this) (some pid) d w = descend rec this pid d w

  pub verify_chain_impl : ℕ → Node → ℕ → Walk S → Outcome S
  verify_chain_impl zero node d w = none
  verify_chain_impl (suc fuel) node d w =
      enter (verify_chain_impl fuel) (verify_self node) (parent_audit_proof_id node) d w

  abbrev pub start : Node → S → Walk S
  start node s = record { fetcher = s; visited = capsule_id node ∷ []; cache = [] }

  -- The depth grows with every descent and stops it at `max`, so `max + 1` is enough fuel.
  pub verify_chain : Node → S → Outcome S
  verify_chain node s = verify_chain_impl (suc max) node 1 (start node s)
