-- ===== src/Lineage/Facts.antt =====
-- chain.rs: what a lineage guarantees: one organisation, distinct capsules, bounded depth.
use nanorix_verify.Prelude.{
  All, All-mono, ℕ, ◌+◌, ◌≤◌, ◌≡◌, refl, sym, ◌∙◌, arith, false, some, List, [], ◌∷◌, map, Text,
  length,
}
use nanorix_verify.Lineage.{
  SingleVerification, self_ok, ChainNode, ChainVerification, genesis, linked, Result, ok, Walk,
  contains, depth, flatten, verify_chain,
}
use nanorix_verify.Lineage.Sound.{Lineage, root, child, verify_chain_sound}

-- No text of the list is among those before it or in `seen`.
abbrev pub AreNew : List Text → List Text → Type 0
AreNew seen [] = Unit
AreNew seen (x ∷ xs) = (contains seen x ≡ false) × AreNew (x ∷ seen) xs

abbrev pub ids : List SingleVerification → List Text
ids = map (λ (v : SingleVerification). v.capsule_id)

-- `leaf` is the first of `flatten`, and `depth` is its length.
pub depth-eq-length : (t : ChainVerification) → depth t ≡ length (flatten t)
unfolding depth flatten
depth-eq-length (genesis v) = refl
depth-eq-length (linked v t) = omega (arith, depth-eq-length t)

module _ (chain : ChainNode) {S : Type 0} (fetch : S → Text → S × Result chain.Node) (max : ℕ) where
  open chain use {Node, capsule_id, org_id, parent_audit_proof_id, verify_self}

  -- The contract of the trait's `verify_self`: its result bears the node's own ids.
  abbrev pub OwnIds : Type 0
  OwnIds =
      (n : Node) (v : SingleVerification)
      → verify_self n ≡ self_ok v
      → (v.capsule_id ≡ capsule_id n) × (v.org_id ≡ org_id n)

  module _ (own : OwnIds) where
    Lineage-org :
        {s : S} {seen : List Text} {d : ℕ} {n : Node} {t : ChainVerification}
        → Lineage chain fetch max s seen d n t
        → All (λ (v : SingleVerification). v.org_id ≡ org_id n) (flatten t)
    unfolding flatten
    Lineage-org {n = n} (root {v = v} es ep) = ((own n v es).1, tt)
    Lineage-org {n = n} (child {v = v} {p = p} {t = t} es ep room new got id org below) = (
      (own n v es).1,
      All-mono (flatten t)
          (λ (u : SingleVerification) (e : u.org_id ≡ org_id p). e ∙ sym org ∙ (own n v es).1)
          (Lineage-org below),
    )

    Lineage-ids :
        {s : S} {seen : List Text} {d : ℕ} {n : Node} {t : ChainVerification} (seen' : List Text)
        → Lineage chain fetch max s seen d n t
        → contains seen' (capsule_id n) ≡ false
        → seen ≡ capsule_id n ∷ seen'
        → AreNew seen' (ids (flatten t))
    unfolding flatten
    Lineage-ids {n = n} seen' (root {v = v} es ep) new e = (rw ((own n v es).0) new, tt)
    Lineage-ids {n = n} seen'
          (child {v = v} {pid = pid} {p = p} {t = t} es ep room fresh got id org below) new e =
        (
          rw ((own n v es).0) new,
          rw ((own n v es).0)
              (Lineage-ids (capsule_id n ∷ seen') below (rw (id, ← e) fresh) (rw (id, e))),
        )

    Lineage-depth :
        {s : S} {seen : List Text} {d : ℕ} {n : Node} {t : ChainVerification}
        → Lineage chain fetch max s seen d n t
        → d ≤ max
        → depth t + d ≤ max + 1
    unfolding depth
    Lineage-depth (root es ep) h = omega arith
    Lineage-depth (child {t = t} es ep room fresh got id org below) h =
        omega (arith, Lineage-depth below)

    -- If the nodes' self-checks bear the nodes' own ids, every verification of an accepted chain is
    -- of the organisation of the node asked about.
    pub verify_chain_one_org :
        (n : Node) (s : S) (t : ChainVerification) (w : Walk S)
        → verify_chain chain fetch max n s ≡ some (ok t, w)
        → All (λ (v : SingleVerification). v.org_id ≡ org_id n) (flatten t)
    verify_chain_one_org n s t w h = Lineage-org (verify_chain_sound chain fetch max n s t w h)

    -- If the nodes' self-checks bear the nodes' own ids and the limit is at least one, an accepted
    -- chain has no capsule twice, and no more links than the limit.
    pub verify_chain_distinct :
        (n : Node) (s : S) (t : ChainVerification) (w : Walk S)
        → 1 ≤ max
        → verify_chain chain fetch max n s ≡ some (ok t, w)
        → AreNew [] (ids (flatten t)) × (length (flatten t) ≤ max)
    verify_chain_distinct n s t w pos h =
        let l = verify_chain_sound chain fetch max n s t w h in
        (
          Lineage-ids [] l (unfold contains in refl) refl,
          omega (arith, Lineage-depth l pos, depth-eq-length t),
        )
