-- ===== src/Lineage/Sound.antt =====
-- chain.rs: `verify_chain` accepts exactly the lineages.
use nanorix_verify.Prelude.{
  ℕ, zero, suc, ◌<◌, ◌≡◌, refl, sym, ap, arith, false, Option, none, some, List, [], ◌∷◌, Text,
  text_eq, text_eq-eq, leb, Bool-cases, inl, inr,
}
use mathlib.Core.Path.{subst}
use nanorix_verify.Lineage.{
  SingleVerification, SelfCheck, self_ok, self_err, ChainNode, ChainVerification, genesis, linked,
  Result, ok, err, Walk, Outcome, contains, lookup, link, check_parent, descend, enter,
  verify_chain_impl, verify_chain,
}

module _ (chain : ChainNode) {S : Type 0} (fetch : S → Text → S × Result chain.Node) (max : ℕ) where
  open chain use {Node, capsule_id, org_id, parent_audit_proof_id, verify_self}

  -- A verified descent from a node at depth `d`, with the ids of `seen` behind it: every node
  -- verifies itself, every declared parent is fetched, bears the declared id and the child's
  -- organisation, is new, and lies within the depth limit; it ends at a node without a parent.
  pub data Lineage : S → List Text → ℕ → Node → ChainVerification → Type 0 where
    root :
        {s : S} {seen : List Text} {d : ℕ} {n : Node} {v : SingleVerification}
        → verify_self n ≡ self_ok v
        → parent_audit_proof_id n ≡ none
        → Lineage s seen d n (genesis v)
    child :
        {s : S} {seen : List Text} {d : ℕ} {n : Node} {v : SingleVerification} {pid : Text} {s' : S}
        {p : Node} {t : ChainVerification}
        → verify_self n ≡ self_ok v
        → parent_audit_proof_id n ≡ some pid
        → d < max
        → contains seen pid ≡ false
        → fetch s pid ≡ (s', ok p)
        → capsule_id p ≡ pid
        → v.org_id ≡ org_id p
        → Lineage s' (pid ∷ seen) (suc d) p t
        → Lineage s seen d n (linked v t)

  abbrev Rec : Type 0
  Rec = Node → ℕ → Walk S → Outcome S

  link-ok :
      (this : SingleVerification) (pid : Text) (o : Outcome S) (t : ChainVerification) (w : Walk S)
      → link this pid o ≡ some (ok t, w)
      → (u : ChainVerification) × (w' : Walk S) × (o ≡ some (ok u, w')) × (t ≡ linked this u)
  unfolding link
  link-ok this pid none t w h = cc
  link-ok this pid (some (err e, w')) t w h = cc
  link-ok this pid (some (ok u, w')) t w h = (u, w', refl, cc)

  -- What a successful descent has passed, given that the cache is empty.
  descend-ok :
      (rec : Rec) (this : SingleVerification) (pid : Text) (d : ℕ) (w : Walk S)
      (t : ChainVerification) (w' : Walk S)
      → w.cache ≡ []
      → descend chain fetch max rec this pid d w ≡ some (ok t, w')
      → (d < max)
        × (contains w.visited pid ≡ false)
        × (check_parent chain fetch max rec this pid d
              (record w { fetcher = (fetch w.fetcher pid).0 })
              (fetch w.fetcher pid).1
            ≡ some (ok t, w'))
  unfolding descend lookup
  descend-ok rec this pid d w t w' empty h = elim (Bool-cases (leb max d)) [
    | inl deep ↦ absurd (ground arith)
    | inr room ↦ elim (Bool-cases (contains w.visited pid)) [
      | inl again ↦ absurd (ground arith)
      | inr new ↦ (ground arith, new, ground arith)
    ]
  ]

  check_parent-ok :
      (rec : Rec) (this : SingleVerification) (pid : Text) (d : ℕ) (w : Walk S) (r : Result Node)
      (t : ChainVerification) (w' : Walk S)
      → check_parent chain fetch max rec this pid d w r ≡ some (ok t, w')
      → (p : Node) × (r ≡ ok p)
        × (capsule_id p ≡ pid)
        × (this.org_id ≡ org_id p)
        × (link this pid (rec p (suc d) (record w { visited = pid ∷ w.visited })) ≡ some (ok t, w'))
  unfolding check_parent
  check_parent-ok rec this pid d w (err e) t w' h = cc
  check_parent-ok rec this pid d w (ok p) t w' h = elim (Bool-cases (text_eq (capsule_id p) pid)) [
    | inl same ↦ elim (Bool-cases (text_eq this.org_id (org_id p))) [
      | inl org ↦ (p, refl, text_eq-eq _ _ same, text_eq-eq _ _ org, rw (same, org) at h)
      | inr org ↦ absurd (cc (rw (same, org) at h))
    ]
    | inr other ↦ absurd (cc (rw other at h))
  ]

  abbrev Sound : Rec → Type 0
  Sound rec =
      (n : Node) (d : ℕ) (w : Walk S) (t : ChainVerification) (w' : Walk S)
      → w.cache ≡ []
      → rec n d w ≡ some (ok t, w')
      → Lineage w.fetcher w.visited d n t

  enter-Sound :
      (rec : Rec)
      → Sound rec
      → (n : Node) (d : ℕ) (w : Walk S) (t : ChainVerification) (w' : Walk S) (self : SelfCheck)
        (parent : Option Text)
      → verify_self n ≡ self
      → parent_audit_proof_id n ≡ parent
      → w.cache ≡ []
      → enter chain fetch max rec self parent d w ≡ some (ok t, w')
      → Lineage w.fetcher w.visited d n t
  unfolding enter
  enter-Sound rec ih n d w t w' (self_err f) parent es ep empty h = cc
  enter-Sound rec ih n d w t w' (self_ok v) none es ep empty h =
      let e : genesis v ≡ t = cc in subst (λ u. Lineage w.fetcher w.visited d n u) e (root es ep)
  enter-Sound rec ih n d w t w' (self_ok v) (some pid) es ep empty h =
      let (room, new, next) = descend-ok rec v pid d w t w' empty h in
      let s' = (fetch w.fetcher pid).0 in
      let (p, got, id, org, linking) =
        check_parent-ok rec v pid d (record w { fetcher = s' }) (fetch w.fetcher pid).1 t w' next in
      let (u, w'', below, e) = link-ok v pid _ t w' linking in
      subst (λ x. Lineage w.fetcher w.visited d n x) (sym e)
        (child es ep room new (ap (λ r. (s', r)) got) id org
          (ih p (suc d) (record w { fetcher = s'; visited = pid ∷ w.visited }) u w'' empty below))

  impl-Sound : (fuel : ℕ) → Sound (verify_chain_impl chain fetch max fuel)
  unfolding verify_chain_impl
  impl-Sound zero n d w t w' empty h = cc
  impl-Sound (suc fuel) n d w t w' empty h =
      enter-Sound (verify_chain_impl chain fetch max fuel) (impl-Sound fuel) n d w t w'
        (verify_self n) (parent_audit_proof_id n) refl refl empty h

  -- If `verify_chain` returns a verification, then it is the record of a lineage of the node that
  -- was asked about, within the depth limit, from a walk that had visited that node alone.
  pub verify_chain_sound :
      (n : Node) (s : S) (t : ChainVerification) (w : Walk S)
      → verify_chain chain fetch max n s ≡ some (ok t, w)
      → Lineage s (capsule_id n ∷ []) 1 n t
  unfolding verify_chain
  verify_chain_sound n s t w h = impl-Sound (suc max) n 1 _ t w refl h
