-- ===== src/Timestamp.antt =====
-- tools/nanorix-verify/src/lib.rs: the timestamp that every chain step hashes, and its recovery
-- from the attestation's `key_id`.
pub mod Recovery
pub mod Tests
use nanorix_verify.Prelude.{
  ℕ, Bool, true, ◌&&◌, Option, none, some, List, [], ◌∷◌, ◌++◌, map, Text, text, strip_prefix,
  is_empty, is_digit, ◌==◌, leb, if◌then◌else◌, length, get_or, ◌>>=◌,
}
use nanorix_verify.Libs.{Libs}
use mathlib.Core.Option

-- `s.split_once(c)`, at the first `c`
unfoldable pub split_once : ℕ → Text → Option (Text × Text)
split_once c [] = none
split_once c (x ∷ xs) =
    let later = Option.map (λ (r : Text × Text). (x ∷ r.0, r.1)) (split_once c xs) in
    if x == c then some ([], xs) else later

abbrev keep_last : ℕ → ℕ → Text → Option (Text × Text) → Option (Text × Text)
keep_last c x xs none = if x == c then some ([], xs) else none
keep_last c x xs (some (a, b)) = some (x ∷ a, b)

-- `s.rsplit_once(c)`, at the last `c`
unfoldable pub rsplit_once : ℕ → Text → Option (Text × Text)
rsplit_once c [] = none
rsplit_once c (x ∷ xs) = keep_last c x xs (rsplit_once c xs)

-- `s.replace(a, b)` for two characters
unfoldable pub replace : ℕ → ℕ → Text → Text
replace a b = map (λ c. if c == a then b else c)

unfoldable pub all_digits : Text → List ℕ → Bool
all_digits s [] = true
all_digits s (i ∷ is) = is_digit (get_or s i 0) && all_digits s is

-- The tests of length come first, so no index is out of bounds.
unfoldable pub is_iso8601_shaped : Text → Text → Bool
unfolding all_digits
is_iso8601_shaped d t =
    length d == 10
    && leb 8 (length t)
    && get_or d 4 0 == b'-'
    && get_or d 7 0 == b'-'
    && all_digits d (0 ∷ 1 ∷ 2 ∷ 3 ∷ 5 ∷ 6 ∷ 8 ∷ 9 ∷ [])
    && get_or t 2 0 == b':'
    && get_or t 5 0 == b':'
    && all_digits t (0 ∷ 1 ∷ 3 ∷ 4 ∷ 6 ∷ 7 ∷ [])

unfoldable pub recover_timestamp_from_key_id : Text → Option Text
recover_timestamp_from_key_id key_id = do
  rest ← strip_prefix (text "nrx-verify-") key_id
  (encoded, fragment) ← rsplit_once b'-' rest
  let dated = split_once b'T' encoded
  if is_empty fragment then none else do
    (date, encoded_time) ← dated
    let time = replace b'-' b':' encoded_time
    if is_iso8601_shaped date time then some (date ++ (b'T' ∷ time)) else none

module _ (lib : Libs) where
  open lib use {Value, get, pointer, as_str}

  abbrev recovered_or_declared : Text → Option Text → Text × Option Text
  recovered_or_declared declared none = (declared, none)
  recovered_or_declared declared (some ts) = (ts, some ts)

  -- The timestamp, and the recovered one if it was recovered.
  unfoldable pub resolve_chain_timestamp : Value → Text × Option Text
  resolve_chain_timestamp json =
      let declared = Option.get_or (get json (text "destroyed_at") >>= as_str) [] in
      let recovered =
        recovered_or_declared declared (
          pointer json (text "/attestation/key_id") >>= as_str >>= recover_timestamp_from_key_id) in
      if is_empty declared then recovered else (declared, none)
