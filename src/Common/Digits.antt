-- ===== src/Common/Digits.antt =====
-- The digits of a printed number: what they are, how many, and their value.
use Prim.Native.Nat.{ℕ, zero, suc, ◌+◌, ◌-◌, ◌*◌, ◌/◌, ◌%◌, ◌^◌, ◌≤◌, ◌<◌}
use mathlib.Core.List.{[], ◌∷◌}
use vector_clock_good.Common.Tests.{pos, ltb, ◌==◌, Bool-cases}
use mathlib.Core.Path.{◌≡◌, refl, sym, ap, ◌∙◌}
use mathlib.Core.Bool.{true, false}
use mathlib.Core.Logic.{inl, inr}
use vector_clock_good.Common.Arrays.{length}
use vector_clock_good.Common.Perms.{All, All-map}
use native.Mathlib.Omega.{arith}
use vector_clock_good.Common.Strings.{Bytes}
use vector_clock_good.Common.Decimal.{
  print_fuel, print_nat, print_fuel_step, print_fuel-head, IsPlain, digits_value, skip_spaces,
  signed, atoi,
}

-- A decimal digit.
pub record IsDigit (c : ℕ) : Type 0 where
  pub low : b'0' ≤ c
  pub high : c ≤ b'9'

print_fuel-IsDigit : (f n : ℕ) (acc : Bytes) → All IsDigit acc → All IsDigit (print_fuel f n acc)
unfolding print_fuel
print_fuel-IsDigit zero n acc h = h
print_fuel-IsDigit (suc f) n acc h = elim (Bool-cases (ltb n 10)) [
  | inl b ↦ rw (print_fuel_step, b) (ground arith, h)
  | inr b ↦
      rw (print_fuel_step, b)
        (print_fuel-IsDigit f (n / 10) ((b'0' + n % 10) ∷ acc) (omega arith, h))
]

-- What is printed are digits.
pub print-IsDigit : (n : ℕ) → All IsDigit (print_nat n)
unfolding print_nat
print-IsDigit n = print_fuel-IsDigit (suc n) n [] tt

digit-IsPlain : (c : ℕ) → IsDigit c → IsPlain c
digit-IsPlain c h = omega (arith, h.low, h.high)

-- No digit is a quote or a backslash.
pub print-IsPlain : (n : ℕ) → All IsPlain (print_nat n)
print-IsPlain n = All-map digit-IsPlain (print_nat n) (print-IsDigit n)

print_fuel-length : (f n : ℕ) (acc : Bytes) → length (print_fuel f n acc) ≤ f + length acc
unfolding print_fuel
print_fuel-length zero n acc = omega arith
print_fuel-length (suc f) n acc = elim (Bool-cases (ltb n 10)) [
  | inl b ↦ rw (print_fuel_step, b) (omega arith)
  | inr b ↦
      rw (print_fuel_step, b) (omega (arith, print_fuel-length f (n / 10) ((b'0' + n % 10) ∷ acc)))
]

pub print-length : (n : ℕ) → length (print_nat n) ≤ n + 1
unfolding print_nat
print-length n = omega (arith, print_fuel-length (suc n) n [])

-- The first number that takes more than k + 1 digits.
abbrev tens : ℕ → ℕ
tens zero = 10
tens (suc k) = 10 * tens k

print_fuel-digits :
    (k f n : ℕ) (acc : Bytes)
    → n < f
    → n < tens k
    → length (print_fuel f n acc) ≤ k + 1 + length acc
unfolding print_fuel
print_fuel-digits k zero n acc h w = absurd (omega arith)
print_fuel-digits zero (suc f) n acc h w =
    let b : ltb n 10 ≡ true = ground arith in rw (print_fuel_step, b) (omega arith)
print_fuel-digits (suc k) (suc f) n acc h w = elim (Bool-cases (ltb n 10)) [
  | inl b ↦ rw (print_fuel_step, b) (omega arith)
  | inr b ↦
      rw (print_fuel_step, b)
        (omega (
          arith,
          print_fuel-digits k f (n / 10) ((b'0' + n % 10) ∷ acc) (ground arith) (omega arith),
        ))
]

-- A 64-bit number has at most 20 digits.
pub print-digits : (n : ℕ) → n < 2 ^ 64 → length (print_nat n) ≤ 20
unfolding print_nat
print-digits n h = omega (arith, print_fuel-digits 19 (suc n) n [] (omega arith) (omega arith))

-- A number below 100 has at most two.
pub print-small : (n : ℕ) → n < 100 → length (print_nat n) ≤ 2
unfolding print_nat
print-small n h = omega (arith, print_fuel-digits 1 (suc n) n [] (omega arith) (omega arith))

digits_value-digit :
    (v d : ℕ) (s : Bytes) → d < 10 → digits_value v ((b'0' + d) ∷ s) ≡ digits_value (v * 10 + d) s
unfolding digits_value
digits_value-digit v d s h = let e : b'0' + d - b'0' ≡ d = omega arith in ground (arith, e)

value-print_fuel :
    (f n : ℕ) (acc : Bytes) → n < f → digits_value 0 (print_fuel f n acc) ≡ digits_value n acc
unfolding print_fuel
value-print_fuel zero n acc h = absurd (omega arith)
value-print_fuel (suc f) n acc h =
    let one : 0 * 10 + n ≡ n = omega arith in
    let more : n / 10 * 10 + n % 10 ≡ n = omega arith in
    ground (
      arith,
      one,
      more,
      value-print_fuel f (n / 10) ((b'0' + n % 10) ∷ acc),
      digits_value-digit 0 n acc,
      digits_value-digit (n / 10) (n % 10) acc,
    )

signed-digit :
    (d : ℕ) (s : Bytes) → d < 10 → signed ((b'0' + d) ∷ s) ≡ pos (digits_value 0 ((b'0' + d) ∷ s))
signed-digit d s h =
    let minus : (b'0' + d == b'-') ≡ false = ground arith in
    let plus : (b'0' + d == b'+') ≡ false = ground arith in rw (minus, plus) refl

skip_spaces-digit : (d : ℕ) (s : Bytes) → d < 10 → skip_spaces ((b'0' + d) ∷ s) ≡ (b'0' + d) ∷ s
unfolding skip_spaces
skip_spaces-digit d s h = ground arith

-- A number that was printed is read back.
pub atoi-print : (n : ℕ) → atoi (print_nat n) ≡ pos n
unfolding atoi print_nat
atoi-print n =
    let (d, s, h, e) = print_fuel-head (suc n) n [] (omega arith) in
    ap (λ t. signed (skip_spaces t)) e
    ∙ ap signed (skip_spaces-digit d s h)
    ∙ signed-digit d s h
    ∙ ap (λ t. pos (digits_value 0 t)) (sym e)
    ∙ ap pos (value-print_fuel (suc n) n [] (omega arith))
