-- ===== src/Common/Decimal.antt =====
-- `%d` of a number that is not negative, `PRIu64`, `atoi`, and reading decimal digits into a uint64_t.
use Prim.Native.Nat.{ℕ, zero, suc, ◌+◌, ◌-◌, ◌*◌, ◌/◌, ◌%◌, ◌^◌, ◌<◌}
use mathlib.Core.List.{[], ◌∷◌, ◌++◌}
use vector_clock_good.Common.Tests.{ℤ, pos, negsuc, ltb, ◌==◌, if◌then◌else◌, Bool-cases}
use mathlib.Core.Path.{◌≡◌, refl}
use mathlib.Core.Bool.{Bool, true, false}
use mathlib.Core.Logic.{◌≢◌, inl, inr}
use native.Mathlib.Omega.{arith}
use vector_clock_good.Common.Strings.{Bytes, is_digit, is_space}

-- The digits of `n`, before `acc`. A round leaves a tenth, so `n` rounds and one more are enough.
unfoldable pub print_fuel : ℕ → ℕ → Bytes → Bytes
print_fuel zero n acc = acc
print_fuel (suc f) n acc = elim (ltb n 10) [
  | true ↦ (b'0' + n) ∷ acc
  | false ↦ print_fuel f (n / 10) ((b'0' + n % 10) ∷ acc)
]

unfoldable pub print_nat : ℕ → Bytes
unfolding print_fuel
print_nat n = print_fuel (suc n) n []

-- The loop over digits, which wraps at 64 bits: the value, and the text from the first byte that
-- is no digit.
unfoldable pub read_digits : ℕ → Bytes → ℕ × Bytes
unfolding is_digit
read_digits v [] = (v, [])
read_digits v (c ∷ s) = elim (is_digit c) [
  | true ↦ read_digits ((v * 10 + (c - b'0')) % 2 ^ 64) s
  | false ↦ (v, c ∷ s)
]

-- A byte that a JSON string holds as it is.
pub record IsPlain (c : ℕ) : Type 0 where
  pub no_quote : c ≢ b'"'
  pub no_escape : c ≢ b'\\'

-- The value of leading digits, unbounded.
unfoldable pub digits_value : ℕ → Bytes → ℕ
unfolding is_digit
digits_value v [] = v
digits_value v (c ∷ s) = elim (is_digit c) [
  | true ↦ digits_value (v * 10 + (c - b'0')) s
  | false ↦ v
]

abbrev pub negate : ℕ → ℤ
negate zero = pos 0
negate (suc n) = negsuc n

unfoldable pub skip_spaces : Bytes → Bytes
unfolding is_space
skip_spaces [] = []
skip_spaces (c ∷ s) = elim (is_space c) [ true ↦ skip_spaces s | false ↦ c ∷ s ]

abbrev pub signed : Bytes → ℤ
signed [] = pos 0
signed (c ∷ s) =
    if c == b'-'
    then negate (digits_value 0 s)
    else if c == b'+'
    then pos (digits_value 0 s)
    else pos (digits_value 0 (c ∷ s))

-- On text whose value an int can hold.
unfoldable pub atoi : Bytes → ℤ
unfolding digits_value skip_spaces
atoi s = signed (skip_spaces s)

-- What follows a number does not go on with a digit.
unfoldable pub starts_with_digit : Bytes → Bool
unfolding is_digit
starts_with_digit [] = false
starts_with_digit (c ∷ s) = is_digit c

pub read_stops :
    (v : ℕ) (rest : Bytes) → starts_with_digit rest ≡ false → read_digits v rest ≡ (v, rest)
unfolding read_digits starts_with_digit
read_stops v [] h = refl
read_stops v (c ∷ rest) h = ground arith

read_digits-digit :
    (v d : ℕ) (s : Bytes)
    → d < 10
    → read_digits v ((b'0' + d) ∷ s) ≡ read_digits ((v * 10 + d) % 2 ^ 64) s
unfolding read_digits
read_digits-digit v d s h = let e : b'0' + d - b'0' ≡ d = omega arith in ground (arith, e)

read-print_fuel :
    (f n : ℕ) (acc : Bytes)
    → n < f
    → n < 2 ^ 64
    → read_digits 0 (print_fuel f n acc) ≡ read_digits n acc
unfolding print_fuel
read-print_fuel zero n acc h k = absurd (omega arith)
read-print_fuel (suc f) n acc h k =
    let one : (0 * 10 + n) % 2 ^ 64 ≡ n = omega arith in
    let more : (n / 10 * 10 + n % 10) % 2 ^ 64 ≡ n = omega arith in
    ground (
      arith,
      one,
      more,
      read-print_fuel f (n / 10) ((b'0' + n % 10) ∷ acc),
      read_digits-digit 0 n acc,
      read_digits-digit (n / 10) (n % 10) acc,
    )

print_fuel-append :
    (f n : ℕ) (acc rest : Bytes) → print_fuel f n acc ++ rest ≡ print_fuel f n (acc ++ rest)
unfolding print_fuel
print_fuel-append zero n acc rest = refl
print_fuel-append (suc f) n acc rest =
    ground (arith, print_fuel-append f (n / 10) ((b'0' + n % 10) ∷ acc) rest)

-- Reading back what was printed gives the number and leaves the text that follows.
pub read-print :
    (n : ℕ) (rest : Bytes)
    → n < 2 ^ 64
    → starts_with_digit rest ≡ false
    → read_digits 0 (print_nat n ++ rest) ≡ (n, rest)
unfolding print_nat
read-print n rest h k =
    rw (print_fuel-append (suc n) n [] rest, read-print_fuel (suc n) n rest (omega arith) h)
      (read_stops n rest k)

pub print_fuel_step :
    (f n : ℕ) (acc : Bytes)
    → print_fuel (suc f) n acc
      ≡ (if ltb n 10 then (b'0' + n) ∷ acc else print_fuel f (n / 10) ((b'0' + n % 10) ∷ acc))
unfolding print_fuel
print_fuel_step f n acc = ground arith

-- What is printed begins with a digit.
pub print_fuel-head :
    (f n : ℕ) (acc : Bytes)
    → n < f
    → (d : ℕ) × (s : Bytes) × (d < 10) × (print_fuel f n acc ≡ (b'0' + d) ∷ s)
unfolding print_fuel
print_fuel-head zero n acc h = absurd (omega arith)
print_fuel-head (suc f) n acc h = elim (Bool-cases (ltb n 10)) [
  | inl b ↦ (n, acc, ground arith, rw (print_fuel_step, b) refl)
  | inr b ↦
      rw (print_fuel_step, b) (print_fuel-head f (n / 10) ((b'0' + n % 10) ∷ acc) (ground arith))
]

pub print-starts :
    (n : ℕ) (rest : Bytes)
    → (starts_with_digit (print_nat n ++ rest) ≡ true)
      × (skip_spaces (print_nat n ++ rest) ≡ print_nat n ++ rest)
unfolding print_nat starts_with_digit skip_spaces
print-starts n rest =
    let (d, s, h, e) = print_fuel-head (suc n) n [] (omega arith) in
    rw e (ground arith, ground arith)
