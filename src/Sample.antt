-- ===== src/Sample.antt =====
-- A concrete stand-in for the third-party crates, on a small JSON type, with which the tests of the
-- other modules run the model: the digest is the length and the sum of its input, modulo 256, in 64
-- bytes, hex changes nothing, base64 puts a mark in front, and a signature is the key followed by
-- the length of the message.
use nanorix_verify.Prelude.{
  ℕ, zero, suc, ◌+◌, ◌%◌, ◌≡◌, refl, Bool, true, false, Option, none, some, List, [], ◌∷◌, ◌++◌,
  Text, Bytes, text_eq, text_eq_refl, strip_prefix, ==_iff, length-append, if◌then◌else◌, ◌==◌, leb,
  ltb, arith, ◌<◌, ◌^◌, length, take, ℤ, ◌>>=◌,
}
use nanorix_verify.Libs.{Libs}
use nanorix_verify.Signature.Laws.{SigningLaws}

mutual
  pub data Json : Type 0 where
    null : Json
    str : Text → Json
    num : ℕ → Json
    int : ℤ → Json
    arr : Items → Json
    obj : Fields → Json

  pub data Items : Type 0 where
    nil : Items
    cons : Json → Items → Items

  pub data Fields : Type 0 where
    end : Fields
    field : Text → Json → Fields → Fields

abbrev pub items : List Json → Items
items [] = nil
items (x ∷ xs) = cons x (items xs)

abbrev pub fields : List (Text × Json) → Fields
fields [] = end
fields ((k, v) ∷ rest) = field k v (fields rest)

abbrev pub object : List (Text × Json) → Json
object entries = obj (fields entries)

abbrev pub array : List Json → Json
array xs = arr (items xs)

abbrev elements : Items → List Json
elements nil = []
elements (cons x xs) = x ∷ elements xs

unfoldable pub find_field : Fields → Text → Option Json
find_field end k = none
find_field (field j v rest) k =
    let later = find_field rest k in if text_eq j k then some v else later

unfoldable pub get_field : Json → Text → Option Json
get_field (obj fs) k = find_field fs k
get_field _ k = none

-- `pointer` from inside a segment
unfoldable pub follow : Json → Text → Text → Option Json
follow v key [] = get_field v key
follow v key (c ∷ cs) =
    let longer = follow v (key ++ c ∷ []) cs in
    let below = get_field v key >>= λ u. follow u [] cs in if c == b'/' then below else longer

unfoldable pub find_pointer : Json → Text → Option Json
find_pointer v [] = some v
find_pointer v (c ∷ cs) = follow v [] cs

unfoldable mutual
  pub print : Json → Bytes
  print null = b'n' ∷ []
  print (str s) = b'"' ∷ s ++ b'"' ∷ []
  print (num n) = b'#' ∷ n ∷ []
  print (int (ℤ.pos n)) = b'+' ∷ n ∷ []
  print (int (ℤ.negsuc n)) = b'-' ∷ n ∷ []
  print (arr xs) = b'[' ∷ print_items xs
  print (obj fs) = b'{' ∷ print_fields fs

  pub print_items : Items → Bytes
  print_items nil = b']' ∷ []
  print_items (cons x xs) = print x ++ print_items xs

  pub print_fields : Fields → Bytes
  print_fields end = b'}' ∷ []
  print_fields (field k v fs) = k ++ b':' ∷ print v ++ print_fields fs

unfoldable pub sum_bytes : Bytes → ℕ
sum_bytes [] = 0
sum_bytes (b ∷ bs) = b + sum_bytes bs

unfoldable pub zeros : ℕ → Bytes
zeros zero = []
zeros (suc n) = 0 ∷ zeros n

unfoldable pub digest : Bytes → Bytes
digest b = length b % 256 ∷ sum_bytes b % 256 ∷ zeros 62

unfoldable pub verify_sample : Bytes → Bytes → Bytes → Bool
verify_sample key message sig = text_eq sig (key ++ take 32 (length message ∷ zeros 31))

abbrev as_str : Json → Option Text
as_str (str s) = some s
as_str _ = none

abbrev as_array : Json → Option (List Json)
as_array (arr xs) = some (elements xs)
as_array _ = none

abbrev entries : Fields → List (Text × Json)
entries end = []
entries (field k v fs) = (k, v) ∷ entries fs

abbrev as_object : Json → Option (List (Text × Json))
as_object (obj fs) = some (entries fs)
as_object _ = none

abbrev bool_value : Bool → Json
bool_value false = num 0
bool_value true = num 1

abbrev as_u64 : Json → Option ℕ
as_u64 (num n) = if ltb n (2 ^ 64) then some n else none
as_u64 _ = none

abbrev is_null : Json → Bool
is_null null = true
is_null _ = false

abbrev sign : Bytes → Bytes → Bytes
sign seed message = seed ++ take 32 (length message ∷ zeros 31)

-- An encoded text has a mark in front, which a text to decode may lack.
abbrev decode : Text → Option Bytes
decode [] = some []
decode (c ∷ cs) = if c == b'=' then some cs else some (c ∷ cs)

abbrev pub crates : Libs
crates = record {
  Value = Json;
  get = get_field;
  pointer = find_pointer;
  as_str = as_str;
  as_array = as_array;
  as_object = as_object;
  as_u64 = as_u64;
  is_null = is_null;
  null_value = null;
  string_value = str;
  int_value = int;
  bool_value = bool_value;
  array_value = array;
  object_value = object;
  json_to_vec = λ v. some (print v);
  jcs_to_vec = λ v. some (print v);
  from_slice = λ b. some (str b);
  sha512 = digest;
  sha256 = λ b. take 32 (digest b);
  hex_encode = λ b. b;
  hex_decode = λ t. some t;
  base64_decode = decode;
  base64_encode = λ b. b'=' ∷ b;
  ed25519_key_valid = λ k. length k == 32;
  ed25519_verify = verify_sample;
  ed25519_public = λ seed. seed;
  ed25519_sign = sign;
  Instant = ℕ;
  parse_from_rfc3339 = λ t. some (sum_bytes t);
  instant_le = leb;
}

-- The digest has the 64 bytes of SHA-512.
pub digest_size : (b : Bytes) → length (digest b) ≡ 64
unfolding digest zeros
digest_size b = refl

pub as_u64-bounded : (v : Json) (n : ℕ) → as_u64 v ≡ some n → n < 2 ^ 64
as_u64-bounded null n h = absurd (ground arith)
as_u64-bounded (str s) n h = absurd (ground arith)
as_u64-bounded (num k) n h = ground arith
as_u64-bounded (int i) n h = absurd (ground arith)
as_u64-bounded (arr xs) n h = absurd (ground arith)
as_u64-bounded (obj fs) n h = absurd (ground arith)

signature_size : (seed message : Bytes) → length seed ≡ 32 → length (sign seed message) ≡ 64
unfolding zeros
signature_size seed message h =
    let n = length-append seed (take 32 (length message ∷ zeros 31)) in ground (arith, n, h)

-- The stand-in signs as the crates do.
pub crates-SigningLaws : SigningLaws crates
unfolding verify_sample strip_prefix
crates-SigningLaws = record {
  decode_encode = λ b. refl;
  encode_unprefixed = λ b. refl;
  public_size = λ seed h. h;
  public_valid = λ seed h. (==_iff _ _).1 h;
  signature_size = signature_size;
  verify_sign = λ seed message h. text_eq_refl (sign seed message);
}
