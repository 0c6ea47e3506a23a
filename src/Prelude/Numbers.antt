-- ===== src/Prelude/Numbers.antt =====
-- What the source uses of the standard library on numbers: decimal printing of unsigned integers,
-- and `str::parse::<i64>`.
use Prim.Native.Nat.{ℕ, zero, suc, ◌+◌, ◌-◌, ◌*◌, ◌/◌, ◌%◌, ◌^◌, ◌<◌}
use mathlib.Core.Path.{◌≡◌, refl, sym, ap, ◌∙◌}
use mathlib.Core.Bool.{Bool, ◌&&◌}
use mathlib.Core.List.{[], ◌∷◌}
use mathlib.Core.Option.{Option, none, some}
use mathlib.Core.Logic.{inl, inr}
use native.Mathlib.Omega.{arith}
use nanorix_verify.Prelude.Tests.{leb, ltb, ltb→lt, ◌==◌, if◌then◌else◌, Bool-cases}
use nanorix_verify.Prelude.Strings.{Text, text}

decimal_digits : ℕ → ℕ → Text → Text
decimal_digits zero n out = out
decimal_digits (suc fuel) n out =
    let digit = b'0' + n % 10 in
    let more = decimal_digits fuel (n / 10) (digit ∷ out) in if ltb n 10 then digit ∷ out else more

-- `n.to_string()`; a number has no more than `n + 1` digits.
unfoldable pub decimal : ℕ → Text
unfolding decimal_digits
decimal n = decimal_digits (suc n) n []

-- the number that a text of digits stands for, after those with value `acc`
value : Text → ℕ → ℕ
value [] acc = acc
value (c ∷ cs) acc = value cs (acc * 10 + (c - b'0'))

value-decimal_digits :
    (fuel n : ℕ) (out : Text) → n < fuel → value (decimal_digits fuel n out) 0 ≡ value out n
unfolding decimal_digits value
value-decimal_digits zero n out h = elim h [ ]
value-decimal_digits (suc fuel) n out h =
    let digit = b'0' + n % 10 in
    let e : n / 10 * 10 + (digit - b'0') ≡ n = omega arith in
    elim (Bool-cases (ltb n 10)) [
      | inl one ↦ rw one (ap (value out) (omega (arith, ltb→lt n 10 one)))
      | inr more ↦
          rw more
            (value-decimal_digits fuel (n / 10) (digit ∷ out) (ground arith) ∙ ap (value out) e)
    ]

pub decimal_inj : (m n : ℕ) → decimal m ≡ decimal n → m ≡ n
unfolding decimal value
decimal_inj m n e =
    sym (value-decimal_digits (suc m) m [] (omega arith))
    ∙ ap (λ (t : Text). value t 0) e
    ∙ value-decimal_digits (suc n) n [] (omega arith)

pub data ℤ : Type 0 where
  pos : ℕ → ℤ
  negsuc : ℕ → ℤ

unfoldable pub is_digit : ℕ → Bool
is_digit c = leb b'0' c && leb c b'9'

parse_digits : ℕ → Text → Option ℕ
unfolding is_digit
parse_digits n [] = some n
parse_digits n (c ∷ cs) =
    let rest = parse_digits (n * 10 + (c - b'0')) cs in if is_digit c then rest else none

digits_of : Text → Option ℕ
unfolding parse_digits
digits_of [] = none
digits_of (c ∷ cs) = parse_digits 0 (c ∷ cs)

positive : Option ℕ → Option ℤ
positive none = none
positive (some n) = if ltb n (2 ^ 63) then some (ℤ.pos n) else none

negative : Option ℕ → Option ℤ
negative none = none
negative (some zero) = some (ℤ.pos 0)
negative (some (suc n)) = if ltb n (2 ^ 63) then some (ℤ.negsuc n) else none

-- `s.parse::<i64>().ok()`: an optional sign, at least one digit, and the range of `i64`.
unfoldable pub parse_i64 : Text → Option ℤ
unfolding digits_of positive negative
parse_i64 [] = none
parse_i64 (c ∷ cs) =
    if c == b'-'
    then negative (digits_of cs)
    else if c == b'+'
    then positive (digits_of cs)
    else positive (digits_of (c ∷ cs))

decimal_runs : decimal 1207 ≡ text "1207"
unfolding decimal
decimal_runs = refl

parse_runs : parse_i64 (text "-12") ≡ some (ℤ.negsuc 11)
unfolding parse_i64
parse_runs = refl
