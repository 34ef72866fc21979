-- ===== src/Common/Scan.antt =====
-- The directives of `sscanf` formats that src/agent.c uses, and the lines that `fgets` gives.
use Prim.Native.Nat.{ℕ, zero, suc, ◌+◌, ◌-◌, ◌≤◌}
use mathlib.Core.Logic.{inl, inr}
use native.Mathlib.Omega.{arith}
use mathlib.Core.List.{List, [], ◌∷◌, ◌++◌}
use mathlib.Core.Bool.{Bool, true, false, not, ◌||◌}
use mathlib.Core.Option.{Option, none, some}
use vector_clock_good.Common.Tests.{ℤ, pos, ◌==◌, if◌then◌else◌, Bool-cases}
use vector_clock_good.Common.Arrays.{length, length-append}
use vector_clock_good.Common.Strings.{Bytes, is_space}
use vector_clock_good.Common.Decimal.{skip_spaces, starts_with_digit, read_digits, negate}

-- A byte of the format that stands for itself.
unfoldable pub scan_byte : ℕ → Bytes → Option Bytes
scan_byte c [] = none
scan_byte c (d ∷ s) = if d == c then some s else none

abbrev signed_if : Bool → ℕ → ℤ
signed_if true n = negate n
signed_if false n = pos n

abbrev scan_digits : Bool → Bytes → Option (ℤ × Bytes)
scan_digits negative s =
    let read = read_digits 0 s in
    if starts_with_digit s then some (signed_if negative read.0, read.1) else none

abbrev scan_sign : Bytes → Option (ℤ × Bytes)
scan_sign [] = none
scan_sign (c ∷ s) =
    if c == b'-'
    then scan_digits true s
    else if c == b'+'
    then scan_digits false s
    else scan_digits false (c ∷ s)

-- `%d`, on a number that an int can hold.
unfoldable pub scan_int : Bytes → Option (ℤ × Bytes)
unfolding skip_spaces starts_with_digit read_digits
scan_int s = scan_sign (skip_spaces s)

-- At most `n` bytes that pass the test, and the rest.
abbrev run_of : (ℕ → Bool) → ℕ → Bytes → Bytes × Bytes
run_of test zero s = ([], s)
run_of test (suc n) [] = ([], [])
run_of test (suc n) (c ∷ s) =
    let rest = run_of test n s in if test c then (c ∷ rest.0, rest.1) else ([], c ∷ s)

abbrev unless_empty : Bytes × Bytes → Option (Bytes × Bytes)
unless_empty ([], rest) = none
unless_empty (c ∷ s, rest) = some (c ∷ s, rest)

-- `%[^c]` with a width
unfoldable pub scan_until : ℕ → ℕ → Bytes → Option (Bytes × Bytes)
scan_until n c s = unless_empty (run_of (λ d. not (d == c)) n s)

-- `%s` with a width
unfoldable pub scan_word : ℕ → Bytes → Option (Bytes × Bytes)
unfolding skip_spaces is_space
scan_word n s = unless_empty (run_of (λ d. not (is_space d)) n (skip_spaces s))

-- ` %[^\n]`
unfoldable pub scan_line : Bytes → Option (Bytes × Bytes)
unfolding scan_until skip_spaces
scan_line s = scan_until (length s) b'\n' (skip_spaces s)

abbrev last_line : Bytes → List Bytes
last_line [] = []
last_line (c ∷ line) = (c ∷ line) ∷ []

abbrev lines_loop : ℕ → ℕ → Bytes → Bytes → List Bytes
lines_loop size room line [] = last_line line
lines_loop size room line (c ∷ s) =
    let full = c == b'\n' || room == 1 in
    let rest =
      lines_loop size (if full then size else room - 1) (if full then [] else line ++ c ∷ []) s in
    if full then (line ++ c ∷ []) ∷ rest else rest

-- The strings that `fgets` into a buffer of `size + 1` bytes gives one after the other: each ends
-- behind a newline, when the buffer is full, or at the end of the file.
unfoldable pub fgets_lines : ℕ → Bytes → List Bytes
fgets_lines size s = lines_loop size size [] s

length-lines_loop :
    (size room : ℕ) (line s : Bytes) → length (lines_loop size room line s) ≤ length line + length s
length-lines_loop size room [] [] = omega arith
length-lines_loop size room (c ∷ line) [] = omega arith
length-lines_loop size room line (c ∷ s) = elim (Bool-cases (c == b'\n' || room == 1)) [
  | inl b ↦ rw b (omega (arith, length-lines_loop size size [] s))
  | inr b ↦ rw b (
      omega
        (arith, length-lines_loop size (room - 1) (line ++ c ∷ []) s, length-append line (c ∷ [])))
]

-- There are at most as many lines as bytes.
pub length-fgets_lines : (size : ℕ) (s : Bytes) → length (fgets_lines size s) ≤ length s
unfolding fgets_lines
length-fgets_lines size s = omega (arith, length-lines_loop size size [] s)
