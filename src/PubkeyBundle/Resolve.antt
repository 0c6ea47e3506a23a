-- ===== src/PubkeyBundle/Resolve.antt =====
-- pubkey_bundle.rs: which key a lookup by key id and time finds.
use nanorix_verify.Prelude.{
  All, ℕ, suc, ◌≡◌, ◌⊎◌, refl, arith, true, false, none, some, List, [], ◌∷◌, Text, text_eq,
  text_eq-eq, text_eq_refl, Option-cases, Bool-cases, inl, inr, ◌>>=◌, get_elem?, take,
}
use nanorix_verify.Libs.{Libs}
use nanorix_verify.PubkeyBundle.{
  PubKeyEntry, PortablePubkeyBundle, resolves, find_entry, resolve_parent_key,
}

module _ (lib : Libs) (decode_error : Text → Text) (jcs_error : Text) where
  open lib use {Instant, parse_from_rfc3339, instant_le}

  -- The end of an entry's window: absent or not a time, or not before a time.
  pub data IsOpenUntil (e : PubKeyEntry) (at : Instant) : Type 0 where
    unbounded : (e.valid_until >>= parse_from_rfc3339) ≡ none → IsOpenUntil e at
    bounded :
        (until : Instant)
        → (e.valid_until >>= parse_from_rfc3339) ≡ some until
        → instant_le at until ≡ true
        → IsOpenUntil e at

  -- An entry for a key id at a time.
  pub record IsMatch (key_id : Text) (at : Instant) (e : PubKeyEntry) : Type 0 where
    pub named : e.key_id ≡ key_id
    pub from : Instant
    pub from_time : parse_from_rfc3339 e.valid_from ≡ some from
    pub started : instant_le from at ≡ true
    pub open_until : IsOpenUntil e at

  resolves-IsMatch :
      (key_id : Text) (at : Instant) (e : PubKeyEntry)
      → resolves lib decode_error jcs_error key_id at e ≡ true
      → IsMatch key_id at e
  unfolding resolves
  resolves-IsMatch key_id at e h = elim (Option-cases (parse_from_rfc3339 e.valid_from)) [
    | inl bad ↦ absurd (ground arith)
    | inr (from, ef) ↦ elim (Option-cases (e.valid_until >>= parse_from_rfc3339)) [
      | inl no_end ↦ record {
        named = text_eq-eq _ _ (ground arith);
        from = from;
        from_time = ef;
        started = ground arith;
        open_until = unbounded no_end;
      }
      | inr (until, eu) ↦ record {
        named = text_eq-eq _ _ (ground arith);
        from = from;
        from_time = ef;
        started = ground arith;
        open_until = bounded until eu (ground arith);
      }
    ]
  ]

  window_open :
      (key_id : Text) (at : Instant) (e : PubKeyEntry)
      → IsMatch key_id at e
      → resolves lib decode_error jcs_error key_id at e ≡ true
  unfolding resolves
  window_open key_id at e m =
      let same : text_eq e.key_id key_id ≡ true = rw m.named (text_eq_refl key_id) in
      elim m.open_until [
        | unbounded no_end ↦ rw (same, m.from_time, no_end) m.started
        | bounded until eu le ↦ rw (same, m.from_time, eu, m.started, le) refl
      ]

  -- The first entry of a list that matches.
  pub record IsFirst (key_id : Text) (at : Instant) (es : List PubKeyEntry) (e : PubKeyEntry)
      : Type 0 where
    pub position : ℕ
    pub here : get_elem? es position ≡ some e
    pub matches : IsMatch key_id at e
    pub earlier : All (λ d. ¬ IsMatch key_id at d) (take position es)

  no-IsMatch :
      (key_id : Text) (at : Instant) (e : PubKeyEntry)
      → resolves lib decode_error jcs_error key_id at e ≡ false
      → ¬ IsMatch key_id at e
  no-IsMatch key_id at e h m = absurd (ground (arith, window_open key_id at e m))

  found-IsFirst :
      (key_id : Text) (at : Instant) (es : List PubKeyEntry) (e : PubKeyEntry)
      → find_entry lib decode_error jcs_error (resolves lib decode_error jcs_error key_id at) es
        ≡ some e
      → IsFirst key_id at es e
  unfolding find_entry
  found-IsFirst key_id at [] e h = absurd (ground arith)
  found-IsFirst key_id at (d ∷ ds) e h =
      elim (Bool-cases (resolves lib decode_error jcs_error key_id at d)) [
        | inl matched ↦
            let same : d ≡ e = ground arith in
            record {
              position = 0;
              here = rw same refl;
              matches = rw (← same) (resolves-IsMatch key_id at d matched);
              earlier = tt;
            }
        | inr other ↦
            let f = found-IsFirst key_id at ds e (ground arith) in
            record {
              position = suc f.position;
              here = f.here;
              matches = f.matches;
              earlier = (no-IsMatch key_id at d other, f.earlier);
            }
      ]

  not_found :
      (key_id : Text) (at : Instant) (es : List PubKeyEntry)
      → find_entry lib decode_error jcs_error (resolves lib decode_error jcs_error key_id at) es
        ≡ none
      → All (λ d. ¬ IsMatch key_id at d) es
  unfolding find_entry
  not_found key_id at [] h = tt
  not_found key_id at (d ∷ ds) h =
      (no-IsMatch key_id at d (ground arith), not_found key_id at ds (ground arith))

  -- The lookup finds the first entry that has the key id, has started at the time asked for and has
  -- not ended by then, an entry whose end is absent or not an RFC 3339 time never ending; it finds
  -- nothing only if no entry is such.
  pub resolve_parent_key-IsFirst :
      (b : PortablePubkeyBundle) (key_id : Text) (at : Instant)
      → ((e : PubKeyEntry) × (resolve_parent_key lib decode_error jcs_error b key_id at ≡ some e)
          × IsFirst key_id at b.pubkeys e)
        ⊎ ((resolve_parent_key lib decode_error jcs_error b key_id at ≡ none)
            × All (λ d. ¬ IsMatch key_id at d) b.pubkeys)
  unfolding resolve_parent_key
  resolve_parent_key-IsFirst b key_id at =
      elim (Option-cases (resolve_parent_key lib decode_error jcs_error b key_id at)) [
        | inr (e, found) ↦ inl (e, found, found-IsFirst key_id at b.pubkeys e found)
        | inl none_found ↦ inr (none_found, not_found key_id at b.pubkeys none_found)
      ]
