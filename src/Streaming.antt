-- ===== src/Streaming.antt =====
-- tools/nanorix-verify/src/streaming_merkle.rs: the streaming-egress Merkle roots of an activity
-- trail.
pub mod Rfc6962
pub mod Tests
use nanorix_verify.Prelude.{
  ℕ, zero, suc, Bool, true, false, Option, none, some, List, [], ◌∷◌, ◌++◌, map, Text, Bytes, text,
  text_eq, leb, ◌==◌, if◌then◌else◌, ◌>>=◌, length, is_some, sort_by_key,
}
use nanorix_verify.Libs.{Libs}
use nanorix_verify.Failure.{FailureReason, required_field_missing, streaming_merkle_root_mismatch}
use nanorix_verify.Steps.{genesis_hash, strip_hash_prefix}
use nanorix_verify.Receipts.{str_field}
use mathlib.Core.Option
use mathlib.Core.List.{filter_map}

-- `StreamAccumulator`
pub record StreamAccumulator : Type 0 where
  pub chunks : List (ℕ × Text)
  pub malformed : Bool

abbrev pub fresh : StreamAccumulator
fresh = record { chunks = []; malformed = false }

pub data EventKind : Type 0 where
  started chunk completed other : EventKind

-- the string patterns of the `match` on `event`
unfoldable pub event_kind : Option Text → EventKind
event_kind none = other
event_kind (some e) =
    if text_eq e (text "streaming_egress_started")
    then started
    else if text_eq e (text "streaming_egress_chunk")
    then chunk
    else if text_eq e (text "streaming_egress_completed")
    then completed
    else other

module _ (lib : Libs) where
  open lib use {Value, get, as_str, as_u64, sha512, hex_encode, hex_decode}

  unfoldable pub leaf_hash : Bytes → Bytes
  leaf_hash leaf = sha512 (0 ∷ leaf)

  unfoldable pub inner_hash : Bytes → Bytes → Bytes
  inner_hash left right = sha512 (1 ∷ left ++ right)

  -- one round of the `while level.len() > 1` loop: an odd tail node is promoted
  unfoldable pub promote_level : List Bytes → List Bytes
  promote_level [] = []
  promote_level (x ∷ []) = x ∷ []
  promote_level (x ∷ y ∷ rest) = inner_hash x y ∷ promote_level rest

  -- The loop and `level[0]`; `none` is an empty level or a lack of fuel.
  unfoldable pub root_level : ℕ → List Bytes → Option Bytes
  root_level fuel [] = none
  root_level fuel (x ∷ []) = some x
  root_level zero (x ∷ y ∷ rest) = none
  root_level (suc fuel) (x ∷ y ∷ rest) = root_level fuel (promote_level (x ∷ y ∷ rest))

  abbrev pub encode_root : Option Bytes → Option Text
  encode_root none = none
  encode_root (some root) = some (hex_encode root)

  unfoldable pub merkle_root_from_leaves : List Bytes → Option Text
  -- `EMPTY_SHA512_HEX` is the string of `NANORIX_GENESIS_HASH`.
  merkle_root_from_leaves [] = some genesis_hash
  merkle_root_from_leaves (x ∷ xs) =
      encode_root (root_level (length (x ∷ xs)) (map leaf_hash (x ∷ xs)))

  -- 64 decoded bytes, or `none`
  unfoldable pub leaf_bytes : Text → Option Bytes
  leaf_bytes chunk_hash = do
    raw ← hex_decode (strip_hash_prefix chunk_hash)
    if length raw == 64 then some raw else none

  unfoldable pub check_stream_root : Text → List (ℕ × Text) → Option FailureReason
  check_stream_root claimed chunks =
      let leaves =
        filter_map (λ (c : ℕ × Text). leaf_bytes c.1)
          (sort_by_key (λ (c : ℕ × Text). c.0) chunks) in
      let computed = Option.get_or (merkle_root_from_leaves leaves) [] in
      if text_eq (strip_hash_prefix claimed) computed
      then none
      else some (streaming_merkle_root_mismatch claimed (text "sha512:" ++ computed))

  -- `StreamAccumulator::close`
  unfoldable pub close : StreamAccumulator → Value → Option FailureReason
  close acc event = do
    claimed ← str_field lib event (text "streaming_merkle_root")
    let disclosed = length acc.chunks
    let total = Option.get_or (get event (text "total_chunks") >>= as_u64) disclosed
    if acc.malformed
        then some (required_field_missing (text "activity_trail.streaming_egress_chunk.chunk_hash"))
        else if disclosed == total
        then check_stream_root claimed acc.chunks
        else none

  -- the arm for a `streaming_egress_chunk` event
  unfoldable pub push_chunk : StreamAccumulator → Option ℕ → Option Text → StreamAccumulator
  push_chunk acc (some seq) (some hash) =
      if is_some (leaf_bytes hash)
      then record acc { chunks = acc.chunks ++ (seq, hash) ∷ [] }
      else record acc { malformed = true }
  push_chunk acc (some seq) none = record acc { malformed = true }
  push_chunk acc none hash = record acc { malformed = true }

  unfoldable pub add_chunk : StreamAccumulator → Value → StreamAccumulator
  unfolding push_chunk
  add_chunk acc event =
      push_chunk acc (get event (text "seq") >>= as_u64) (str_field lib event (text "chunk_hash"))

  -- the loop of `verify_streaming_merkle_roots`
  unfoldable pub walk_streams : StreamAccumulator → List Value → Option FailureReason
  walk_streams acc [] = none
  walk_streams acc (event ∷ events) =
      let restart = walk_streams fresh events in
      let with_chunk = walk_streams (add_chunk acc event) events in
      let same = walk_streams acc events in
      elim (event_kind (str_field lib event (text "event"))) [
        | started ↦ restart
        | chunk ↦ with_chunk
        | completed ↦ elim (close acc event) [ some failure ↦ some failure | none ↦ restart ]
        | other ↦ same
      ]

  unfoldable pub verify_streaming_merkle_roots : List Value → Option FailureReason
  verify_streaming_merkle_roots activity = walk_streams fresh activity
