-- ===== src/Lineage/Complete.antt =====
-- chain.rs: the walk always ends, and it returns every lineage within the depth limit.
use nanorix_verify.Prelude.{
  ℕ, zero, suc, ◌+◌, ◌<◌, ◌≡◌, ◌≢◌, refl, ◌∙◌, arith, true, false, Option, none, some, List, [],
  ◌∷◌, Text, text_eq, text_eq_iff, leb, Bool-cases, inl, inr,
}
use mathlib.Core.Path.{ap₂}
use nanorix_verify.Lineage.{
  SingleVerification, SelfCheck, self_ok, self_err, ChainNode, ChainVerification, linked, Result,
  ok, err, Walk, Outcome, contains, lookup, link, check_parent, descend, enter, verify_chain_impl,
  verify_chain,
}
use nanorix_verify.Lineage.Sound.{Lineage, root, child}

module _ (chain : ChainNode) {S : Type 0} (fetch : S → Text → S × Result chain.Node) (max : ℕ) where
  open chain use {Node, capsule_id, org_id, parent_audit_proof_id, verify_self}

  abbrev Rec : Type 0
  Rec = Node → ℕ → Walk S → Outcome S

  link-ne-none :
      (this : SingleVerification) (pid : Text) (o : Outcome S) → o ≢ none → link this pid o ≢ none
  unfolding link
  link-ne-none this pid none h = absurd (h refl)
  link-ne-none this pid (some (err e, w)) h = cc
  link-ne-none this pid (some (ok t, w)) h = cc

  -- Within the depth limit the recursive call returns.
  abbrev Total : ℕ → Rec → Type 0
  Total fuel rec = (n : Node) (d : ℕ) (w : Walk S) → 0 < fuel → max < fuel + d → rec n d w ≢ none

  check_parent-ne-none :
      (rec : Rec) (fuel : ℕ)
      → Total fuel rec
      → (this : SingleVerification) (pid : Text) (d : ℕ) (w : Walk S) (r : Result Node) → d < max
      → max < suc fuel + d
      → check_parent chain fetch max rec this pid d w r ≢ none
  unfolding check_parent
  check_parent-ne-none rec fuel ih this pid d w (err e) room enough = cc
  check_parent-ne-none rec fuel ih this pid d w (ok p) room enough = ground (
    arith,
    link-ne-none this pid (rec p (suc d) (record w { visited = pid ∷ w.visited }))
        (ih p (suc d) (record w { visited = pid ∷ w.visited }) (omega arith) (omega arith)),
  )

  descend-ne-none :
      (rec : Rec) (fuel : ℕ)
      → Total fuel rec
      → (this : SingleVerification) (pid : Text) (d : ℕ) (w : Walk S) → max < suc fuel + d
      → descend chain fetch max rec this pid d w ≢ none
  unfolding descend
  descend-ne-none rec fuel ih this pid d w enough = elim (Bool-cases (leb max d)) [
    | inl deep ↦ rw deep (cc)
    | inr room ↦ ground (
      arith,
      room,
      check_parent-ne-none rec fuel ih this pid d (record w { fetcher = (fetch w.fetcher pid).0 })
          (fetch w.fetcher pid).1 (ground arith) enough,
    )
  ]

  enter-ne-none :
      (rec : Rec) (fuel : ℕ)
      → Total fuel rec
      → (self : SelfCheck) (parent : Option Text) (d : ℕ) (w : Walk S) → max < suc fuel + d
      → enter chain fetch max rec self parent d w ≢ none
  unfolding enter
  enter-ne-none rec fuel ih (self_err f) parent d w enough = cc
  enter-ne-none rec fuel ih (self_ok v) none d w enough = cc
  enter-ne-none rec fuel ih (self_ok v) (some pid) d w enough =
      descend-ne-none rec fuel ih v pid d w enough

  impl-ne-none : (fuel : ℕ) → Total fuel (verify_chain_impl chain fetch max fuel)
  unfolding verify_chain_impl
  impl-ne-none zero n d w pos enough = elim pos [ ]
  impl-ne-none (suc fuel) n d w pos enough =
      enter-ne-none (verify_chain_impl chain fetch max fuel) fuel (impl-ne-none fuel)
        (verify_self n) (parent_audit_proof_id n) d w enough

  -- Whatever the nodes and the callback are, `verify_chain` returns a verification or an error: its
  -- fuel never runs out.
  pub verify_chain_total : (n : Node) (s : S) → verify_chain chain fetch max n s ≢ none
  unfolding verify_chain
  verify_chain_total n s = impl-ne-none (suc max) n 1 _ (omega arith) (omega arith)

  descend_complete :
      (rec : Rec) (v : SingleVerification) (pid : Text) (d : ℕ) (s s' : S) (seen : List Text)
      (p : Node) (t : ChainVerification) (w : Walk S)
      → d < max
      → contains seen pid ≡ false
      → fetch s pid ≡ (s', ok p)
      → text_eq (capsule_id p) pid ≡ true
      → text_eq v.org_id (org_id p) ≡ true
      → rec p (suc d) (record { fetcher = s'; visited = pid ∷ seen; cache = [] }) ≡ some (ok t, w)
      → descend chain fetch max rec v pid d (record { fetcher = s; visited = seen; cache = [] })
        ≡ some (ok (linked v t), record w { cache = (pid, t) ∷ w.cache })
  unfolding descend lookup check_parent link
  descend_complete rec v pid d s s' seen p t w room new got id org below = ground arith

  impl_complete :
      (fuel : ℕ) {s : S} {seen : List Text} {d : ℕ} {n : Node} {t : ChainVerification}
      → Lineage chain fetch max s seen d n t
      → 0 < fuel
      → max < fuel + d
      → (w : Walk S) × (verify_chain_impl chain fetch max fuel n d
            (record { fetcher = s; visited = seen; cache = [] })
          ≡ some (ok t, w))
  unfolding verify_chain_impl enter
  impl_complete zero l pos enough = elim pos [ ]
  impl_complete (suc fuel) {s} {seen} {d} (root {v = v} es ep) pos enough =
      let w : Walk S = record { fetcher = s; visited = seen; cache = [] } in
      (w, ap₂ (λ a b. enter chain fetch max (verify_chain_impl chain fetch max fuel) a b d w) es ep)
  impl_complete (suc fuel) {s} {seen} {d}
        (child {v = v} {pid = pid} {s' = s'} {p = p} {t = t} es ep room new got id org below) pos
        enough =
      let (w', run) = impl_complete fuel below (omega arith) (omega arith) in
      let w : Walk S = record { fetcher = s; visited = seen; cache = [] } in
      let rec = verify_chain_impl chain fetch max fuel in
      (
        record w' { cache = (pid, t) ∷ w'.cache },
        ap₂ (λ a b. enter chain fetch max rec a b d w) es ep
            ∙ descend_complete rec v pid d s s' seen p t w' room new got ((text_eq_iff _ _).1 id)
                ((text_eq_iff _ _).1 org) run,
      )

  -- Every lineage of a node, from a walk that has visited it alone, is what `verify_chain` returns.
  pub verify_chain_complete :
      (n : Node) (s : S) (t : ChainVerification)
      → Lineage chain fetch max s (capsule_id n ∷ []) 1 n t
      → (w : Walk S) × (verify_chain chain fetch max n s ≡ some (ok t, w))
  unfolding verify_chain
  verify_chain_complete n s t l = impl_complete (suc max) l (omega arith) (omega arith)
