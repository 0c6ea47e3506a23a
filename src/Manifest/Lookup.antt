-- ===== src/Manifest/Lookup.antt =====
-- trust_chain.rs: which key `find_key` finds.
use mathlib.Core.Path.{subst}
use nanorix_verify.Prelude.{
  ℕ, zero, suc, ◌≡◌, sym, arith, false, none, some, List, [], ◌∷◌, Text, text_eq, text_eq-eq,
  get_elem?, Bool-cases, Option-cases, inl, inr,
}
use nanorix_verify.Manifest.{
  TrustChainManifest, AuthorityRecord, KeyVersionRecord, KeyLookupResult, active, archived,
  get_authority, find_version, find_in_authority, find_key,
}

find_version-none :
    (version : Text) (keys : List KeyVersionRecord) (i : ℕ) (key : KeyVersionRecord)
    → find_version version keys ≡ none
    → get_elem? keys i ≡ some key
    → text_eq key.signing_key_version version ≡ false
unfolding find_version
find_version-none version [] i key h e = absurd (ground arith)
find_version-none version (r ∷ rs) zero key h e = ground arith
find_version-none version (r ∷ rs) (suc i) key h e =
    find_version-none version rs i key (ground arith) e

find_version-some :
    (version : Text) (keys : List KeyVersionRecord) (key : KeyVersionRecord)
    → find_version version keys ≡ some key
    → (key.signing_key_version ≡ version) × (i : ℕ) × (get_elem? keys i ≡ some key)
unfolding find_version
find_version-some version [] key h = absurd (ground arith)
find_version-some version (r ∷ rs) key h =
    elim (Bool-cases (text_eq r.signing_key_version version)) [
      | inl same ↦
          let e : r ≡ key = ground arith in
          (rw (← e) (text_eq-eq r.signing_key_version version same), 0, rw e)
      | inr other ↦
          let (named, i, at) = find_version-some version rs key (ground arith) in (named, suc i, at)
    ]

-- Where a lookup comes from: the active keys, or the archived keys when no active key has the
-- version.
pub data IsFoundIn (a : AuthorityRecord) (version : Text) (l : KeyLookupResult) : Type 0 where
  from_active :
      (i : ℕ)
      → l.status ≡ active
      → get_elem? a.active_versions i ≡ some l.key
      → IsFoundIn a version l
  from_archived :
      (i : ℕ)
      → l.status ≡ archived
      → get_elem? a.archived_versions i ≡ some l.key
      → find_version version a.active_versions ≡ none
      → IsFoundIn a version l

find_in_authority_sound :
    (a : AuthorityRecord) (version : Text) (l : KeyLookupResult)
    → find_in_authority a version ≡ some l
    → (l.authority_record ≡ a) × (l.key.signing_key_version ≡ version) × IsFoundIn a version l
unfolding find_in_authority
find_in_authority_sound a version l h =
    elim (Option-cases (find_version version a.active_versions)) [
      | inr (key, e) ↦
          let (named, i, at) = find_version-some version a.active_versions key e in
          let k : key ≡ l.key = ground arith in
          (ground arith, rw (← k) named, from_active i (ground arith) (rw (← k) at))
      | inl no_active ↦ elim (Option-cases (find_version version a.archived_versions)) [
        | inl nothing ↦ absurd (ground arith)
        | inr (key, e) ↦
            let (named, i, at) = find_version-some version a.archived_versions key e in
            let k : key ≡ l.key = ground arith in
            (ground arith, rw (← k) named, from_archived i (ground arith) (rw (← k) at) no_active)
      ]
    ]

-- A key that `find_key` finds has the version asked for and stands in the record of the authority
-- asked for, among the active keys, or among the archived ones if no active key has that version;
-- its status says which.
pub find_key_sound :
    (m : TrustChainManifest) (id version : Text) (l : KeyLookupResult)
    → find_key m id version ≡ some l
    → (get_authority id m.authorities ≡ some l.authority_record)
      × (l.key.signing_key_version ≡ version)
      × IsFoundIn l.authority_record version l
unfolding find_key
find_key_sound m id version l h = elim (Option-cases (get_authority id m.authorities)) [
  | inl unknown ↦ absurd (ground arith)
  | inr (a, e) ↦
      let (same, named, where_from) = find_in_authority_sound a version l (ground arith) in
      (
        rw same e,
        named,
        subst (λ (b : AuthorityRecord). IsFoundIn b version l) (sym same) where_from,
      )
]
