-- ===== src/Checkpoint/Document.antt =====
-- checkpoint.rs: the leaf and envelope digests, hex, and the published checkpoint.
use nanorix_verify.Prelude.{
  ℕ, ◌+◌, ◌-◌, ◌*◌, ◌/◌, ◌%◌, ◌&&◌, Option, none, some, List, [], ◌∷◌, ◌++◌, Text, Bytes, text, leb,
  ltb, ◌==◌, if◌then◌else◌, ◌>>=◌, length, strip_prefix, decimal,
}
use nanorix_verify.Checkpoint.{Digest64, AttestationEnvelope, join_nul, merkle_root}
use mathlib.Core.Option

-- one digit of `{b:02x}`
unfoldable pub hex_digit : ℕ → ℕ
hex_digit n = if ltb n 10 then b'0' + n else b'a' + (n - 10)

unfoldable pub hex : Digest64 → Text
hex [] = []
hex (b ∷ bs) = hex_digit (b / 16) ∷ hex_digit (b % 16) ∷ hex bs

-- `to_digit(16)`
unfoldable pub to_digit : ℕ → Option ℕ
to_digit c =
    if leb b'0' c && leb c b'9'
    then some (c - b'0')
    else if leb b'a' c && leb c b'f'
    then some (c - b'a' + 10)
    else if leb b'A' c && leb c b'F'
    then some (c - b'A' + 10)
    else none

-- the loop over `chunks(2)`; after the test of the length no chunk has one byte
unfoldable pub parse_pairs : Text → Option Bytes
parse_pairs [] = some []
parse_pairs (c ∷ []) = none
parse_pairs (c ∷ d ∷ cs) = do
  hi ← to_digit c
  lo ← to_digit d
  rest ← parse_pairs cs
  some ((hi * 16 + lo) ∷ rest)

unfoldable pub parse_digest : Text → Option Digest64
parse_digest s =
    let bare = Option.get_or (strip_prefix (text "sha512:") s) s in
    if length bare == 128 then parse_pairs bare else none

-- `Checkpoint`
pub record Checkpoint : Type 0 where
  pub checkpoint_version : Text
  pub hash_algorithm : Text
  pub tree_size : ℕ
  pub root_hash : Text
  pub prev_root_hash : Text
  pub issued_at : Text
  pub signature : Text
  pub pqc_signature : Option Text

unfoldable pub signed_payload : Checkpoint → Bytes
signed_payload c = join_nul (
    c.checkpoint_version
    ∷ c.hash_algorithm
    ∷ decimal c.tree_size
    ∷ c.root_hash
    ∷ c.prev_root_hash
    ∷ c.issued_at
    ∷ [])

abbrev pub envelope_parts : AttestationEnvelope → List Text
envelope_parts e =
    e.algorithm ∷ e.key_id ∷ e.public_key ∷ e.signature ∷ Option.get_or e.pqc_signature [] ∷ []

module _ (sha512 : Bytes → Bytes) where
  unfoldable pub digest_hex : AttestationEnvelope → Text
  digest_hex e = hex (sha512 (join_nul (envelope_parts e)))

  unfoldable pub leaf_hash : Text → AttestationEnvelope → Digest64
  leaf_hash final_hash_raw envelope = sha512 (0 ∷ final_hash_raw ++ 0 ∷ digest_hex envelope)

  unfoldable pub assemble : List Digest64 → Text → Text → Checkpoint
  assemble leaves prev_root_hash issued_at = record {
    checkpoint_version = text "1";
    hash_algorithm = text "sha512";
    tree_size = length leaves;
    root_hash = text "sha512:" ++ hex (merkle_root sha512 leaves);
    prev_root_hash = prev_root_hash;
    issued_at = issued_at;
    signature = [];
    pqc_signature = none;
  }
