-- ===== src/Timestamp/Recovery.antt =====
-- lib.rs: the recovery of a timestamp from a key id inverts the encoding.
use nanorix_verify.Prelude.{
  ℕ, ◌≡◌, ◌≢◌, refl, sym, ap, arith, true, false, none, some, [], ◌∷◌, ◌++◌, Text, text,
  strip_prefix-append, ◌==◌, Bool-cases, inl, inr,
}
use nanorix_verify.Timestamp.{
  split_once, rsplit_once, replace, is_iso8601_shaped, recover_timestamp_from_key_id,
}

-- No byte of the text is `c`.
abbrev pub Lacks : ℕ → Text → Type 0
Lacks c [] = Unit
Lacks c (x ∷ xs) = (x ≢ c) × Lacks c xs

ne→false : (x c : ℕ) → x ≢ c → (x == c) ≡ false
ne→false x c h = ground arith

rsplit_once-none : (c : ℕ) (s : Text) → Lacks c s → rsplit_once c s ≡ none
unfolding rsplit_once
rsplit_once-none c [] h = refl
rsplit_once-none c (x ∷ xs) h = rw (rsplit_once-none c xs h.1, ne→false x c h.0) refl

rsplit_once-append : (c : ℕ) (a b : Text) → Lacks c b → rsplit_once c (a ++ c ∷ b) ≡ some (a, b)
unfolding rsplit_once
rsplit_once-append c [] b h =
    let e : (c == c) ≡ true = ground arith in rw (rsplit_once-none c b h, e) refl
rsplit_once-append c (x ∷ a) b h = rw (rsplit_once-append c a b h) refl

split_once-append : (c : ℕ) (a b : Text) → Lacks c a → split_once c (a ++ c ∷ b) ≡ some (a, b)
unfolding split_once
split_once-append c [] b h = let e : (c == c) ≡ true = ground arith in rw e refl
split_once-append c (x ∷ a) b h = rw (ne→false x c h.0, split_once-append c a b h.1) refl

-- Replacing back restores a text that had no target byte.
replace-replace : (a b : ℕ) (s : Text) → Lacks b s → replace b a (replace a b s) ≡ s
unfolding replace
replace-replace a b [] h = refl
replace-replace a b (x ∷ s) h = elim (Bool-cases (x == a)) [
  | inl same ↦
      let e : x ≡ a = ground arith in
      let t : (b == b) ≡ true = ground arith in
      rw (same, t, replace-replace a b s h.1) (ap (λ (y : ℕ). y ∷ s) (sym e))
  | inr other ↦ rw (other, ne→false x b h.0, replace-replace a b s h.1) refl
]

-- A timestamp of the expected shape, written into a key id with dashes for the colons of its time,
-- is recovered, if its date has no `T`, its time no dash, and the key's fragment is not empty and
-- has no dash.
pub recover_timestamp_from_key_id-encoded :
    (date time : Text) (c : ℕ) (fragment : Text)
    → is_iso8601_shaped date time ≡ true
    → Lacks b'T' date
    → Lacks b'-' time
    → Lacks b'-' (c ∷ fragment)
    → recover_timestamp_from_key_id
        (text "nrx-verify-" ++ ((date ++ b'T' ∷ replace b':' b'-' time) ++ b'-' ∷ c ∷ fragment))
      ≡ some (date ++ b'T' ∷ time)
unfolding recover_timestamp_from_key_id
recover_timestamp_from_key_id-encoded date time c fragment shaped hd ht hf =
    rw
      (
        strip_prefix-append (text "nrx-verify-")
            ((date ++ b'T' ∷ replace b':' b'-' time) ++ b'-' ∷ c ∷ fragment),
        rsplit_once-append b'-' (date ++ b'T' ∷ replace b':' b'-' time) (c ∷ fragment) hf,
        split_once-append b'T' date (replace b':' b'-' time) hd,
        replace-replace b':' b'-' time ht,
        shaped,
      )
      refl
