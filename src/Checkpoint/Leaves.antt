-- ===== src/Checkpoint/Leaves.antt =====
-- checkpoint.rs: hex round trips, and a leaf hash binds the final hash and the envelope.
use nanorix_verify.Prelude.{
  ℕ, ◌+◌, ◌*◌, ◌/◌, ◌%◌, ◌<◌, ◌≡◌, ◌≢◌, ◌⊎◌, refl, sym, ap, ◌∙◌, arith, none, some, List, [], ◌∷◌,
  ◌++◌, Text, Bytes, text, length, strip_prefix, strip_prefix-append, inl, inr,
}
use nanorix_verify.Checkpoint.{Digest64, AttestationEnvelope, join_nul}
use nanorix_verify.Checkpoint.Binding.{Collision, equal_or_Collision}
use nanorix_verify.Checkpoint.Document.{
  hex_digit, hex, to_digit, parse_pairs, parse_digest, digest_hex, leaf_hash, envelope_parts,
}

abbrev pub AreBytes : Bytes → Type 0
AreBytes [] = Unit
AreBytes (b ∷ bs) = (b < 256) × AreBytes bs

to_digit-hex_digit : (n : ℕ) → n < 16 → to_digit (hex_digit n) ≡ some n
unfolding to_digit hex_digit
to_digit-hex_digit n h = ground arith

parse_pairs-hex : (d : Bytes) → AreBytes d → parse_pairs (hex d) ≡ some d
unfolding parse_pairs hex
parse_pairs-hex [] h = refl
parse_pairs-hex (b ∷ d) h =
    let p = to_digit-hex_digit (b / 16) (omega (arith, h.0)) in
    let q = to_digit-hex_digit (b % 16) (omega arith) in
    let e : b / 16 * 16 + b % 16 ≡ b = omega arith in rw (p, q, parse_pairs-hex d h.1, e) refl

pub length-hex : (d : Bytes) → length (hex d) ≡ 2 * length d
unfolding hex
length-hex [] = omega arith
length-hex (b ∷ d) = omega (arith, length-hex d)

hex_digit-ne-s : (n : ℕ) → n < 16 → hex_digit n ≢ b's'
unfolding hex_digit
hex_digit-ne-s n h = ground arith

pub hex-bare : (d : Bytes) → AreBytes d → strip_prefix (text "sha512:") (hex d) ≡ none
unfolding hex strip_prefix
hex-bare [] h = refl
hex-bare (b ∷ d) h = ground (arith, hex_digit-ne-s (b / 16) (omega (arith, h.0)))

-- `parse_digest` reads back what `hex` prints of a digest, bare and with the `sha512:` prefix.
pub parse_digest-hex :
    (d : Digest64)
    → length d ≡ 64
    → AreBytes d
    → (parse_digest (hex d) ≡ some d) × (parse_digest (text "sha512:" ++ hex d) ≡ some d)
unfolding parse_digest
parse_digest-hex d n h =
    let p = parse_pairs-hex d h in
    let m = length-hex d in
    let size : length (hex d) ≡ 128 = omega arith in
    (rw (hex-bare d h, size) p, rw (strip_prefix-append (text "sha512:") (hex d), size) p)

-- A text without the NUL byte, which the separators rely on.
abbrev pub HasNoNul : Text → Type 0
HasNoNul [] = Unit
HasNoNul (b ∷ bs) = (0 < b) × HasNoNul bs

abbrev pub HaveNoNul : List Text → Type 0
HaveNoNul [] = Unit
HaveNoNul (p ∷ ps) = HasNoNul p × HaveNoNul ps

nul_inj : (a b c d : Text) → HasNoNul a → HasNoNul c → a ++ 0 ∷ b ≡ c ++ 0 ∷ d → (a ≡ c) × (b ≡ d)
nul_inj [] b [] d p q e = (refl, cc)
nul_inj [] b (y ∷ c) d p q e = let z : 0 ≡ y = cc in absurd (omega (arith, q.0))
nul_inj (x ∷ a) b [] d p q e = let z : x ≡ 0 = cc in absurd (omega (arith, p.0))
nul_inj (x ∷ a) b (y ∷ c) d p q e = let (s, t) = nul_inj a b c d p.1 q.1 (cc) in (cc, t)

join_nul_inj :
    (ps qs : List Text)
    → length ps ≡ length qs
    → HaveNoNul ps
    → HaveNoNul qs
    → join_nul ps ≡ join_nul qs
    → ps ≡ qs
unfolding join_nul
join_nul_inj [] [] n p q e = refl
join_nul_inj [] (y ∷ qs) n p q e = absurd (omega arith)
join_nul_inj (x ∷ ps) [] n p q e = absurd (omega arith)
join_nul_inj (x ∷ []) (y ∷ []) n p q e = ap (λ (t : Text). t ∷ []) e
join_nul_inj (x ∷ []) (y ∷ z ∷ qs) n p q e = absurd (omega arith)
join_nul_inj (x ∷ z ∷ ps) (y ∷ []) n p q e = absurd (omega arith)
join_nul_inj (x ∷ u ∷ ps) (y ∷ v ∷ qs) n p q e =
    let (s, t) = nul_inj x (join_nul (u ∷ ps)) y (join_nul (v ∷ qs)) p.0 q.0 e in
    let rest = join_nul_inj (u ∷ ps) (v ∷ qs) (omega arith) p.1 q.1 t in cc

pub hex_inj : (c d : Bytes) → AreBytes c → AreBytes d → hex c ≡ hex d → c ≡ d
hex_inj c d p q e =
    let s : some c ≡ some d = sym (parse_pairs-hex c p) ∙ ap parse_pairs e ∙ parse_pairs-hex d q in
    cc

module _ (sha512 : Bytes → Bytes) (bytes : (b : Bytes) → AreBytes (sha512 b)) where
  digest_hex_inj :
      (e e' : AttestationEnvelope)
      → HaveNoNul (envelope_parts e)
      → HaveNoNul (envelope_parts e')
      → digest_hex sha512 e ≡ digest_hex sha512 e'
      → (envelope_parts e ≡ envelope_parts e') ⊎ Collision sha512
  unfolding digest_hex
  digest_hex_inj e e' p q h =
      let a = join_nul (envelope_parts e) in
      let b = join_nul (envelope_parts e') in
      elim (equal_or_Collision sha512 a b (hex_inj (sha512 a) (sha512 b) (bytes a) (bytes b) h)) [
        | inl same ↦ inl (join_nul_inj (envelope_parts e) (envelope_parts e') refl p q same)
        | inr hit ↦ inr hit
      ]

  -- Two leaves with one hash have one final hash and one envelope, a missing post-quantum signature
  -- counting as the empty one, or else a SHA-512 collision is exhibited. No text has a NUL byte,
  -- and SHA-512 puts out bytes.
  pub leaf_hash_binds :
      (final_hash final_hash' : Text) (e e' : AttestationEnvelope)
      → HasNoNul final_hash
      → HasNoNul final_hash'
      → HaveNoNul (envelope_parts e)
      → HaveNoNul (envelope_parts e')
      → leaf_hash sha512 final_hash e ≡ leaf_hash sha512 final_hash' e'
      → ((final_hash ≡ final_hash') × (envelope_parts e ≡ envelope_parts e')) ⊎ Collision sha512
  unfolding leaf_hash
  leaf_hash_binds f f' e e' pf pf' pe pe' h =
      elim (equal_or_Collision sha512 (0 ∷ f ++ 0 ∷ digest_hex sha512 e)
        (0 ∷ f' ++ 0 ∷ digest_hex sha512 e') h) [
          | inr hit ↦ inr hit
          | inl same ↦
              let (s, t) = nul_inj f (digest_hex sha512 e) f' (digest_hex sha512 e') pf pf' (cc) in
              elim (digest_hex_inj e e' pe pe' t) [ inl parts ↦ inl (s, parts) | inr hit ↦ inr hit ]
        ]
