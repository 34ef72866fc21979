-- ===== src/Entry/Json/Shorter.antt =====
-- Each reader of `log_entry_from_json` leaves no more of the text than it was given.
use vector_clock_good.Common.{
  ℕ, ◌+◌, ◌-◌, ◌*◌, ◌%◌, ◌^◌, ◌≤◌, arith, Bool, true, false, Option, none, some, [], ◌∷◌, ◌++◌, ltb,
  ◌==◌, if◌then◌else◌, length, length-drop, Bytes, codes, str_eq, is_space, is_digit, skip_spaces,
  read_digits, ◌>>=◌, Bool-cases, inl, inr,
}
use vector_clock_good.Clock.Json.{comma, skip_comma}
use vector_clock_good.Entry.{LogEntry, log_level_from_str, node_id_max_len, log_message_max_len}
use vector_clock_good.Entry.Json.{
  unescape, str_loop, open_str, parse_str, parse_num, bracket_loop, skip_object, find_byte,
  find_end, skip_unknown, starts_with, read_node_id, read_vector_clock, read_timestamp, read_level,
  read_message, read_value,
}

-- At most `n` bytes are left.
abbrev pub Leaves {ℓ} : {A : Type ℓ} → ℕ → Option (A × Bytes) → Type 0
Leaves n none = Unit {0}
Leaves n (some (a, rest)) = length rest ≤ n

pub skip_spaces-shorter : (s : Bytes) → length (skip_spaces s) ≤ length s
unfolding skip_spaces is_space
skip_spaces-shorter [] = omega arith
skip_spaces-shorter (c ∷ s) = ground (arith, skip_spaces-shorter s)

comma-shorter : (s : Bytes) → length (comma s) ≤ length s
comma-shorter [] = omega arith
comma-shorter (c ∷ s) = ground (arith, skip_spaces-shorter s)

pub skip_comma-shorter : (s : Bytes) → length (skip_comma s) ≤ length s
unfolding skip_comma
skip_comma-shorter s = omega (arith, comma-shorter (skip_spaces s), skip_spaces-shorter s)

read_digits-shorter : (v : ℕ) (s : Bytes) → length (read_digits v s).1 ≤ length s
unfolding read_digits is_digit
read_digits-shorter v [] = omega arith
read_digits-shorter v (c ∷ s) =
    ground (arith, read_digits-shorter ((v * 10 + (c - b'0')) % 2 ^ 64) s)

module _ {ℓ} {A : Type ℓ} where
  Leaves-if :
      (n : ℕ) (b : Bool) (x y : Option (A × Bytes))
      → Leaves n x
      → Leaves n y
      → Leaves n (if b then x else y)
  Leaves-if n true x y h k = h
  Leaves-if n false x y h k = k

  Leaves-mono : (m n : ℕ) (x : Option (A × Bytes)) → m ≤ n → Leaves m x → Leaves n x
  Leaves-mono m n none h k = tt
  Leaves-mono m n (some (a, rest)) h k = omega (arith, k)

str_loop-Leaves : (room : ℕ) (s buf : Bytes) → Leaves (length s) (str_loop room s buf)
unfolding str_loop
str_loop-Leaves room [] buf = tt
str_loop-Leaves room (c ∷ []) buf = Leaves-if 1 (c == b'"') (some (buf, [])) none (omega arith) tt
str_loop-Leaves room (c ∷ (d ∷ s)) buf =
    let n = length (c ∷ (d ∷ s)) in
    let plain = str_loop (room - 1) (d ∷ s) (buf ++ c ∷ []) in
    let escaped = str_loop (room - 1) s (buf ++ unescape d ∷ []) in
    Leaves-if n (c == b'"') (some (buf, d ∷ s)) _ (omega arith) (
      Leaves-if n (room == 0) none _ tt (
        Leaves-if n (c == b'\\') escaped plain
          (Leaves-mono (length s) n escaped (omega arith)
            (str_loop-Leaves (room - 1) s (buf ++ unescape d ∷ [])))
          (Leaves-mono (length (d ∷ s)) n plain (omega arith)
            (str_loop-Leaves (room - 1) (d ∷ s) (buf ++ c ∷ [])))))

open_str-Leaves : (room : ℕ) (s : Bytes) → Leaves (length s - 1) (open_str room s)
unfolding open_str
open_str-Leaves room [] = tt
open_str-Leaves room (c ∷ s) =
    Leaves-mono (length s) (length (c ∷ s) - 1) (if c == b'"' then str_loop room s [] else none)
      (omega arith)
      (Leaves-if (length s) (c == b'"') (str_loop room s []) none (str_loop-Leaves room s []) tt)

-- A string takes its quote at least.
pub parse_str-Leaves : (s : Bytes) (n : ℕ) → Leaves (length s - 1) (parse_str s n)
unfolding parse_str
parse_str-Leaves s n =
    Leaves-mono (length (skip_spaces s) - 1) (length s - 1) (open_str (n - 1) (skip_spaces s))
      (omega (arith, skip_spaces-shorter s)) (open_str-Leaves (n - 1) (skip_spaces s))

bracket_loop-shorter :
    (left right depth : ℕ) (s read : Bytes)
    → length (bracket_loop left right depth s read).1 ≤ length s
unfolding bracket_loop
bracket_loop-shorter left right depth [] read = omega arith
bracket_loop-shorter left right depth (c ∷ s) read =
    let depth' = (if c == left then depth + 1 else if c == right then depth - 1 else depth) in
    elim (Bool-cases (ltb 0 depth')) [
      | inl b ↦
          rw (bracket_loop, b)
            (omega (arith, bracket_loop-shorter left right depth' s (read ++ c ∷ [])))
      | inr b ↦ rw (bracket_loop, b) (omega arith)
    ]

skip_object-shorter : (s : Bytes) → length (skip_object s).1 ≤ length s
unfolding skip_object
skip_object-shorter s = elim (Bool-cases (starts_with b'{' s)) [
  | inl b ↦ rw b (bracket_loop-shorter b'{' b'}' 0 s [])
  | inr b ↦ rw b (omega arith)
]

find_byte-shorter : (c : ℕ) (s : Bytes) → length (find_byte c s) ≤ length s
unfolding find_byte
find_byte-shorter c [] = omega arith
find_byte-shorter c (d ∷ s) = ground (arith, find_byte-shorter c s)

find_end-shorter : (s : Bytes) → length (find_end s) ≤ length s
unfolding find_end
find_end-shorter [] = omega arith
find_end-shorter (d ∷ s) = ground (arith, find_end-shorter s)

skip_unknown-shorter : (s : Bytes) → length (skip_unknown s) ≤ length s
unfolding skip_unknown
skip_unknown-shorter s = ground (
  arith,
  length-drop 1 (find_byte b'"' s),
  find_byte-shorter b'"' s,
  bracket_loop-shorter b'{' b'}' 0 s [],
  bracket_loop-shorter b'[' b']' 0 s [],
  find_end-shorter s,
)

-- A string, and what is made of it.
string-Leaves :
    (s : Bytes) (n : ℕ) (f : Bytes → LogEntry)
    → Leaves (length s) (parse_str s n >>= λ p. some (f p.0, p.1))
string-Leaves s n f = go (parse_str s n) (parse_str-Leaves s n)
  where
    go :
        (m : Option (Bytes × Bytes))
        → Leaves (length s - 1) m
        → Leaves (length s) (m >>= λ p. some (f p.0, p.1))
    go none h = tt
    go (some (t, rest)) h = omega (arith, h)

pub read_value-Leaves : (e : LogEntry) (key s : Bytes) → Leaves (length s) (read_value e key s)
unfolding read_value read_node_id read_vector_clock read_timestamp read_level read_message parse_num
read_value-Leaves e key s =
    let n = length s in
    Leaves-if n (str_eq key (codes "node_id")) _ _
      (string-Leaves s (node_id_max_len + 1) (λ t. record e { node_id = t }))
      (Leaves-if n (str_eq key (codes "vector_clock")) _ _ (skip_object-shorter s) (
        Leaves-if n (str_eq key (codes "timestamp")) _ _
          (omega (arith, read_digits-shorter 0 (skip_spaces s), skip_spaces-shorter s))
          (Leaves-if n (str_eq key (codes "level")) _ _
            (string-Leaves s (log_message_max_len * 2)
              (λ t. record e { level = log_level_from_str (some t) }))
            (Leaves-if n (str_eq key (codes "message")) _ _
              (string-Leaves s (log_message_max_len + 1) (λ t. record e { message = t }))
              (Leaves-if n (str_eq key (codes "metadata")) _ _ (skip_object-shorter s)
                (skip_unknown-shorter s))))))
