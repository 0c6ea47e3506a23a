-- ===== src/Checkpoint/Split.antt =====
-- checkpoint.rs: `split_point` is the largest power of two below its argument.
use native.Mathlib.Nat.{pow-suc}
use nanorix_verify.Prelude.{
  ℕ, zero, suc, ◌+◌, ◌*◌, ◌^◌, ◌≤◌, ◌<◌, ◌≡◌, refl, ap, ◌∙◌, arith, inl, inr, Bool-cases, ltb,
  ltb→lt,
}
use nanorix_verify.Checkpoint.{split_loop, split_point}

pub pow_double : (e : ℕ) → 2 ^ suc e ≡ 2 * 2 ^ e
pow_double e = pow-suc 2 e ∙ omega arith

pub mul_pow_double : (a e : ℕ) → a * 2 ^ suc e ≡ 2 * a * 2 ^ e
mul_pow_double a e = ap (λ (t : ℕ). a * t) (pow_double e) ∙ omega arith

pub pow_pos : (e : ℕ) → 0 < 2 ^ e
pow_pos zero = omega arith
pow_pos (suc e) = omega (arith, pow_pos e, pow_double e)

pub pow_add : (a b : ℕ) → 2 ^ (a + b) ≡ 2 ^ a * 2 ^ b
pow_add zero b = let e : zero + b ≡ b = omega arith in rw e (omega arith)
pow_add (suc a) b =
    let e : suc a + b ≡ suc (a + b) = omega arith in
    rw e (pow_double (a + b) ∙ grind (arith, pow_add a b, pow_double a))

pub lt_pow : (n : ℕ) → n < 2 ^ n
lt_pow zero = omega arith
lt_pow (suc n) = omega (arith, lt_pow n, pow_double n)

split_loop_lem :
    (fuel n k e : ℕ)
    → k ≡ 2 ^ e
    → k < n
    → n ≤ k + fuel
    → (d : ℕ) × (split_loop fuel n k ≡ 2 ^ d) × (2 ^ d < n) × (n ≤ 2 * 2 ^ d)
unfolding split_loop
split_loop_lem zero n k e p h fits = absurd (omega arith)
split_loop_lem (suc fuel) n k e p h fits = elim (Bool-cases (ltb (k * 2) n)) [
  | inl more ↦ rw more (
      split_loop_lem fuel n (k * 2) (suc e) (omega (arith, pow_double e)) (ltb→lt (k * 2) n more)
        (omega (arith, pow_pos e)))
  | inr done ↦ rw done (e, p, omega arith, ground arith)
]

-- For two leaves or more the split is the power of two with `2 ^ e < n ≤ 2 ^ (e + 1)`.
pub split_point_lem :
    (n : ℕ) → 2 ≤ n → (e : ℕ) × (split_point n ≡ 2 ^ e) × (2 ^ e < n) × (n ≤ 2 * 2 ^ e)
unfolding split_point
split_point_lem n h = split_loop_lem n n 1 0 refl (omega arith) (omega arith)
