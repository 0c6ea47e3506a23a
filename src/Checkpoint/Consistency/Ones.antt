-- ===== src/Checkpoint/Consistency/Ones.antt =====
-- checkpoint.rs: the bit tests of `verify_consistency` on the old tree's size.
use nanorix_verify.Prelude.{
  ℕ, zero, suc, ◌+◌, ◌-◌, ◌*◌, ◌/◌, ◌%◌, ◌^◌, ◌≤◌, ◌<◌, ◌≡◌, refl, arith, Bool-cases, inl, inr,
  true, false, ◌==◌,
}
use nanorix_verify.Checkpoint.Split.{pow_double, mul_pow_double, pow_pos}
use nanorix_verify.Checkpoint.Consistency.{count_ones, is_power_of_two, strip_ones}

count_ones-zero : (fuel : ℕ) → count_ones fuel 0 ≡ 0
unfolding count_ones
count_ones-zero zero = refl
count_ones-zero (suc fuel) = omega (arith, count_ones-zero fuel)

count_ones-pow : (d fuel : ℕ) → 2 ^ d ≤ fuel → count_ones fuel (2 ^ d) ≡ 1
unfolding count_ones
count_ones-pow d zero h = absurd (omega (arith, pow_pos d))
count_ones-pow zero (suc fuel) h = omega (arith, count_ones-zero fuel)
count_ones-pow (suc d) (suc fuel) h =
    let half : 2 ^ suc d / 2 ≡ 2 ^ d = omega (arith, pow_double d) in
    rw half (omega (arith, pow_double d, pow_pos d, count_ones-pow d fuel))

pub is_power_of_two-pow : (d : ℕ) → is_power_of_two (2 ^ d) ≡ true
unfolding is_power_of_two
is_power_of_two-pow d = rw (count_ones-pow d (2 ^ d) (omega arith)) refl

-- Strictly between two powers of two a number has a second one.
count_ones-between : (d fuel n : ℕ) → n ≤ fuel → 2 ^ d < n → n < 2 * 2 ^ d → 2 ≤ count_ones fuel n
unfolding count_ones
count_ones-between d zero n fits lo hi = absurd (omega (arith, pow_pos d))
count_ones-between zero (suc fuel) n fits lo hi = absurd (omega arith)
count_ones-between (suc d) (suc fuel) n fits lo hi = elim (Bool-cases (n / 2 == 2 ^ d)) [
  | inl same ↦
      let e : n / 2 ≡ 2 ^ d = ground arith in
      rw e (omega (arith, pow_double d, count_ones-pow d fuel))
  | inr other ↦
      let e : 2 ^ d < n / 2 = ground (arith, pow_double d) in
      omega (arith, pow_double d, count_ones-between d fuel (n / 2))
]

pub is_power_of_two-between : (d n : ℕ) → 2 ^ d < n → n < 2 * 2 ^ d → is_power_of_two n ≡ false
unfolding is_power_of_two
is_power_of_two-between d n lo hi =
    let two = count_ones-between d n n (omega arith) lo hi in ground arith

-- The trailing ones of an index whose next bit is a zero are shifted out of both numbers.
pub strip_ones_lem :
    (j fuel a b t : ℕ)
    → j ≤ fuel
    → t < 2 ^ j
    → strip_ones fuel (2 * a * 2 ^ j + (2 ^ j - 1)) (b * 2 ^ j + t) ≡ (2 * a, b)
unfolding strip_ones
strip_ones_lem zero zero a b t h ht =
    let f : 2 * a * 1 + 0 ≡ 2 * a = omega arith in
    let s : b * 1 + t ≡ b = omega arith in rw f (rw s)
strip_ones_lem zero (suc fuel) a b t h ht =
    let f : 2 * a * 1 + 0 ≡ 2 * a = omega arith in
    let s : b * 1 + t ≡ b = omega arith in rw f (rw s (ground arith))
strip_ones_lem (suc j) zero a b t h ht = absurd (omega arith)
strip_ones_lem (suc j) (suc fuel) a b t h ht =
    let odd : (2 * a * 2 ^ suc j + (2 ^ suc j - 1)) % 2 ≡ 1 =
      omega (arith, pow_pos j, pow_double j, mul_pow_double (2 * a) j) in
    let f : (2 * a * 2 ^ suc j + (2 ^ suc j - 1)) / 2 ≡ 2 * a * 2 ^ j + (2 ^ j - 1) =
      omega (arith, pow_pos j, pow_double j, mul_pow_double (2 * a) j) in
    let s : (b * 2 ^ suc j + t) / 2 ≡ b * 2 ^ j + t / 2 =
      omega (arith, pow_double j, mul_pow_double b j) in
    rw odd
      (rw f (rw s (strip_ones_lem j fuel a b (t / 2) (omega arith) (omega (arith, pow_double j)))))
