-- ===== src/Entry/Json/Escape.antt =====
-- `json_escape` and `parse_str` undo each other on the bytes that an escape keeps.
use mathlib.Core.List.{append_assoc, append-nil}
use vector_clock_good.Common.{
  ℕ, zero, suc, ◌+◌, ◌-◌, ◌*◌, ◌≤◌, ◌≡◌, refl, sym, ap, ◌∙◌, true, ◌||◌, some, [], ◌∷◌, ◌++◌, arith,
  ltb, ◌==◌, if◌then◌else◌, length, length-append, Bytes, is_print,
}
use vector_clock_good.Entry.{log_message_max_len}
use vector_clock_good.Entry.Json.{
  escape_byte, escape_loop, escaped_size, json_escape, unescape, str_loop, open_str, parse_str,
}

-- What is left of a byte that is escaped and read again.
unfoldable pub kept_byte : ℕ → Bytes
unfolding is_print
kept_byte c = if is_print c || c == b'\n' || c == b'\t' then c ∷ [] else []

-- The bytes of a text that an escape keeps: the printable ones, newlines and tabs.
unfoldable pub kept : Bytes → Bytes
unfolding kept_byte
kept [] = []
kept (c ∷ s) = kept_byte c ++ kept s

unfoldable pub escaped : Bytes → Bytes
unfolding escape_byte
escaped [] = []
escaped (c ∷ s) = escape_byte c ++ escaped s

escape_byte-length : (c : ℕ) → length (escape_byte c) ≤ 2
unfolding escape_byte
escape_byte-length c = ground arith

escape_loop_lem :
    (size : ℕ) (src dst : Bytes)
    → length dst + 2 * length src + 1 ≤ size
    → escape_loop size src dst ≡ dst ++ escaped src
unfolding escape_loop escaped
escape_loop_lem size [] dst h = sym (append-nil dst)
escape_loop_lem size (c ∷ src) dst h =
    let room : ltb (length dst) (size - 2) ≡ true = ground arith in
    rw (escape_loop, room)
      (escape_loop_lem size src (dst ++ escape_byte c)
          (omega (arith, length-append dst (escape_byte c), escape_byte-length c))
        ∙ append_assoc dst (escape_byte c) (escaped src))

pub escaped-length : (s : Bytes) → length (escaped s) ≤ 2 * length s
unfolding escaped
escaped-length [] = omega arith
escaped-length (c ∷ s) =
    omega (arith, length-append (escape_byte c) (escaped s), escape_byte-length c, escaped-length s)

-- A text that fits a message is escaped whole.
pub json_escape-escaped : (s : Bytes) → length s ≤ log_message_max_len → json_escape s ≡ escaped s
unfolding json_escape
json_escape-escaped s h = escape_loop_lem escaped_size s [] (omega arith)

-- One byte, escaped in front of a text that goes on, is read by a round of the loop.
str_loop_byte :
    (room c d : ℕ) (t buf : Bytes)
    → str_loop (suc room) (escape_byte c ++ d ∷ t) buf
      ≡ str_loop (suc room - length (kept_byte c)) (d ∷ t) (buf ++ kept_byte c)
unfolding str_loop escape_byte kept_byte unescape is_print
str_loop_byte room c d t buf = ground (arith, append-nil buf)

kept_byte-length : (c : ℕ) → length (kept_byte c) ≤ 1
unfolding kept_byte is_print
kept_byte-length c = ground arith

pub kept-length : (s : Bytes) → length (kept s) ≤ length s
unfolding kept
kept-length [] = omega arith
kept-length (c ∷ s) =
    omega (arith, length-append (kept_byte c) (kept s), kept_byte-length c, kept-length s)

str_loop_end : (room : ℕ) (rest buf : Bytes) → str_loop room (b'"' ∷ rest) buf ≡ some (buf, rest)
unfolding str_loop
str_loop_end room [] buf = refl
str_loop_end room (d ∷ rest) buf = refl

goes_on : (s : Bytes) (c : ℕ) (rest : Bytes) → (d : ℕ) × (t : Bytes) × (s ++ c ∷ rest ≡ d ∷ t)
goes_on [] c rest = (c, rest, refl)
goes_on (d ∷ s) c rest = (d, s ++ c ∷ rest, refl)

-- An escaped text is read up to the quote behind it.
pub str_loop-escaped :
    (room : ℕ) (s rest buf : Bytes)
    → length s ≤ room
    → str_loop room (escaped s ++ b'"' ∷ rest) buf ≡ some (buf ++ kept s, rest)
unfolding escaped kept
str_loop-escaped room [] rest buf h =
    str_loop_end room rest buf ∙ ap (λ b. some (b, rest)) (sym (append-nil buf))
str_loop-escaped zero (c ∷ s) rest buf h = absurd (omega arith)
str_loop-escaped (suc room) (c ∷ s) rest buf h =
    let (d, t, e) = goes_on (escaped s) b'"' rest in
    ap (λ x. str_loop (suc room) x buf) (append_assoc (escape_byte c) (escaped s) (b'"' ∷ rest))
    ∙ ap (λ x. str_loop (suc room) (escape_byte c ++ x) buf) e
    ∙ str_loop_byte room c d t buf
    ∙ ap (λ x. str_loop (suc room - length (kept_byte c)) x (buf ++ kept_byte c)) (sym e)
    ∙ str_loop-escaped (suc room - length (kept_byte c)) s rest (buf ++ kept_byte c)
        (omega (arith, kept_byte-length c))
    ∙ ap (λ b. some (b, rest)) (append_assoc buf (kept_byte c) (kept s))

-- A string that was escaped into a JSON text is read back as what an escape keeps of it.
pub parse_str-escaped :
    (s rest : Bytes) (room : ℕ)
    → length s ≤ room
    → parse_str (b'"' ∷ (escaped s ++ b'"' ∷ rest)) (room + 1) ≡ some (kept s, rest)
unfolding parse_str open_str
parse_str-escaped s rest room h =
    let less : room + 1 - 1 ≡ room = omega arith in rw less (str_loop-escaped room s rest [] h)
