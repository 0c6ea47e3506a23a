-- ===== src/AuthorityWalk/Facts.antt =====
-- chain_walk.rs: exactly what the walk to an authority tests.
use nanorix_verify.Prelude.{
  ◌≡◌, ◌⊎◌, ◌↔◌, refl, arith, false, none, some, Text, text_lt, length, Option-cases, inl, inr,
}
use nanorix_verify.Libs.{Libs}
use nanorix_verify.Manifest.{
  TrustChainManifest, KeyLookupResult, KeyStatus, active, archived, find_key,
}
use nanorix_verify.AuthorityWalk.{
  AuthorityKind, AuthorityWalkResolution, resolved, is_blank, barred, decode_key,
  walk_authority_chain,
}

-- The only test of the key against the time `ts` of a proof: the key is active, or archived at no
-- stated time, or archived no earlier than `ts`. `effective_from` has no part in it.
pub data IsNotArchivedBefore (l : KeyLookupResult) (ts : Text) : Type 0 where
  still_active : l.status ≡ active → IsNotArchivedBefore l ts
  no_end : l.status ≡ archived → l.key.archived_at ≡ none → IsNotArchivedBefore l ts
  before_end :
      (archived_at : Text)
      → l.status ≡ archived
      → l.key.archived_at ≡ some archived_at
      → text_lt archived_at ts ≡ false
      → IsNotArchivedBefore l ts

KeyStatus-cases : (s : KeyStatus) → (s ≡ active) ⊎ (s ≡ archived)
KeyStatus-cases active = inl refl
KeyStatus-cases archived = inr refl

barred-none :
    (l : KeyLookupResult) (ts : Text)
    → barred l ts ≡ none
    → (l.authority_record.revoked ≡ false) × IsNotArchivedBefore l ts
unfolding barred
barred-none l ts h = elim (KeyStatus-cases l.status) [
  | inl live ↦ (ground arith, still_active live)
  | inr old ↦ elim (Option-cases l.key.archived_at) [
    | inl no_time ↦ (ground arith, no_end old no_time)
    | inr (at, e) ↦ (ground arith, before_end at old e (ground arith))
  ]
]

none-barred :
    (l : KeyLookupResult) (ts : Text)
    → l.authority_record.revoked ≡ false
    → IsNotArchivedBefore l ts
    → barred l ts ≡ none
unfolding barred
none-barred l ts live (still_active s) = rw (live, s) refl
none-barred l ts live (no_end s e) = rw (live, s, e) refl
none-barred l ts live (before_end at s e late) = rw (live, s, e, late) refl

module _ (lib : Libs) (decode_error : Text → Text) where
  open lib use {base64_decode}

  walk_authority_chain_sound :
      (id version : Text) (kind : AuthorityKind) (ts : Text) (m : TrustChainManifest)
      (r : AuthorityWalkResolution)
      → walk_authority_chain lib decode_error id version kind ts m ≡ resolved r
      → (l : KeyLookupResult) × (find_key m id version ≡ some l)
        × (is_blank id ≡ false)
        × (l.authority_record.revoked ≡ false)
        × IsNotArchivedBefore l ts
        × (base64_decode l.key.public_key_b64 ≡ some r.public_key)
        × (length r.public_key ≡ 32)
        × (r.authority_id ≡ id)
        × (r.kind ≡ kind)
        × (r.key_status ≡ l.status)
        × (r.signing_key_version ≡ version)
  unfolding walk_authority_chain decode_key
  walk_authority_chain_sound id version kind ts m r h =
      elim (Option-cases (find_key m id version)) [
        | inl unknown ↦ absurd (ground arith)
        | inr (l, e) ↦ elim (Option-cases (barred l ts)) [
          | inr (state, bad) ↦ absurd (ground arith)
          | inl free ↦ elim (Option-cases (base64_decode l.key.public_key_b64)) [
            | inl bad ↦ absurd (ground arith)
            | inr (bytes, d) ↦
                let (live, usable) = barred-none l ts free in
                (
                  l,
                  e,
                  ground arith,
                  live,
                  usable,
                  ground arith,
                  ground arith,
                  ground arith,
                  ground arith,
                  ground arith,
                  ground arith,
                )
          ]
        ]
      ]

  walk_authority_chain_complete :
      (id version : Text) (kind : AuthorityKind) (ts : Text) (m : TrustChainManifest)
      (r : AuthorityWalkResolution) (l : KeyLookupResult)
      → find_key m id version ≡ some l
      → is_blank id ≡ false
      → barred l ts ≡ none
      → base64_decode l.key.public_key_b64 ≡ some r.public_key
      → length r.public_key ≡ 32
      → r.authority_id ≡ id
      → r.kind ≡ kind
      → r.key_status ≡ l.status
      → r.signing_key_version ≡ version
      → walk_authority_chain lib decode_error id version kind ts m ≡ resolved r
  unfolding walk_authority_chain decode_key
  walk_authority_chain_complete id version kind ts m r l e name free d n i k s v =
      ground (arith, e, name, free, d, n, i, k, s, v)

  -- The walk resolves to `r` if and only if the authority id is not blank, the manifest has a key
  -- for that authority and version, the authority is not revoked, the key is active, archived at no
  -- stated time or archived no earlier than the proof's time, its base64 decodes to 32 bytes, and
  -- `r` has those bytes, the ids and the kind asked for and the key's status. When the key became
  -- effective is no condition: a proof from before that time is resolved.
  pub walk_authority_chain_iff :
      (id version : Text) (kind : AuthorityKind) (ts : Text) (m : TrustChainManifest)
      (r : AuthorityWalkResolution)
      → (walk_authority_chain lib decode_error id version kind ts m ≡ resolved r) ↔ (
          (l : KeyLookupResult) × (find_key m id version ≡ some l)
          × (is_blank id ≡ false)
          × (l.authority_record.revoked ≡ false)
          × IsNotArchivedBefore l ts
          × (base64_decode l.key.public_key_b64 ≡ some r.public_key)
          × (length r.public_key ≡ 32)
          × (r.authority_id ≡ id)
          × (r.kind ≡ kind)
          × (r.key_status ≡ l.status)
          × (r.signing_key_version ≡ version))
  walk_authority_chain_iff id version kind ts m r = (
    walk_authority_chain_sound id version kind ts m r,
    λ (l, e, name, live, open_window, d, n, i, k, s, v).
        walk_authority_chain_complete id version kind ts m r l e name
          (none-barred l ts live open_window) d n i k s v,
  )
