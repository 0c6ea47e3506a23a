-- ===== src/Checkpoint/Walk.antt =====
-- checkpoint.rs: one round of the loop of `verify_inclusion`, in the three cases that an audit path
-- meets: below a left node, below a right node, and at the right edge of the tree.
use nanorix_verify.Prelude.{
  ℕ, zero, suc, ◌+◌, ◌*◌, ◌/◌, ◌%◌, ◌^◌, ◌≤◌, ◌<◌, ◌≡◌, refl, ◌∙◌, arith, Bytes,
}
use nanorix_verify.Checkpoint.{Digest64, strip, node_hash, inclusion_step}
use nanorix_verify.Checkpoint.Split.{pow_double, pow_pos, lt_pow}

strip_odd : (fuel c : ℕ) → strip fuel (2 * c + 1) (2 * c + 1) ≡ (2 * c + 1, 2 * c + 1)
unfolding strip
strip_odd zero c = refl
strip_odd (suc fuel) c = ground arith

strip_even : (fuel y : ℕ) → 0 < y → strip (suc fuel) (2 * y) (2 * y) ≡ strip fuel y y
unfolding strip
strip_even fuel y h = let half : 2 * y / 2 ≡ y = omega arith in rw half (ground arith)

-- `strip` shifts out exactly the trailing zeros, given one unit of fuel for each.
pub strip_lem :
    (fuel j c : ℕ)
    → j ≤ fuel
    → strip fuel ((2 * c + 1) * 2 ^ j) ((2 * c + 1) * 2 ^ j) ≡ (2 * c + 1, 2 * c + 1)
unfolding strip
strip_lem zero (suc j) c h = elim h [ ]
strip_lem fuel zero c h =
    let one : (2 * c + 1) * 2 ^ 0 ≡ 2 * c + 1 = omega arith in rw one (strip_odd fuel c)
strip_lem (suc fuel) (suc j) c h =
    let y = (2 * c + 1) * 2 ^ j in
    let twice : (2 * c + 1) * 2 ^ suc j ≡ 2 * y = grind (arith, pow_double j) in
    let pos : 0 < y = grind (arith, pow_pos j) in
    rw twice (strip_even fuel y pos ∙ strip_lem fuel j c (omega arith))

pub even_edge : (c j : ℕ) → ((2 * c + 1) * 2 ^ suc j) % 2 ≡ 0
even_edge c j =
    let twice : (2 * c + 1) * 2 ^ suc j ≡ 2 * ((2 * c + 1) * 2 ^ j) = grind (arith, pow_double j) in
    omega arith

module _ (sha512 : Bytes → Bytes) (p r : Digest64) where
  pub step_left :
      (a s : ℕ) → 2 * a < s → inclusion_step sha512 p (2 * a) s r ≡ (a, s / 2, node_hash sha512 r p)
  unfolding inclusion_step
  step_left a s h = ground arith

  pub step_right :
      (a s : ℕ) → inclusion_step sha512 p (2 * a + 1) s r ≡ (a, s / 2, node_hash sha512 p r)
  unfolding inclusion_step
  step_right a s = ground arith

  pub step_edge :
      (c j : ℕ)
      → inclusion_step sha512 p ((2 * c + 1) * 2 ^ j) ((2 * c + 1) * 2 ^ j) r
        ≡ (c, c, node_hash sha512 p r)
  unfolding inclusion_step
  step_edge c zero =
      let one : (2 * c + 1) * 2 ^ 0 ≡ 2 * c + 1 = omega arith in rw one (ground arith)
  step_edge c (suc j) =
      let x = (2 * c + 1) * 2 ^ suc j in
      let even : x % 2 ≡ 0 = even_edge c j in
      let fuel : suc j ≤ x = grind (arith, lt_pow (suc j)) in
      ground (arith, even, strip_lem x (suc j) c fuel)
