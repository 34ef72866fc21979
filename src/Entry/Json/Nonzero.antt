-- ===== src/Entry/Json/Nonzero.antt =====
-- The text of an entry without metadata has no byte 0, so it is a C string as it stands.
use vector_clock_good.Common.{
  ℕ, zero, suc, ◌+◌, ◌-◌, ◌<◌, ◌≡◌, none, [], ◌∷◌, ◌++◌, arith, ltb, Bytes, codes, length,
  print_nat, print-IsDigit, All, All-append, All-map, is_print, Bool-cases, inl, inr,
}
use vector_clock_good.Clock.{VectorClock, cell}
use vector_clock_good.Clock.Json.{node_label, member}
use vector_clock_good.Clock.Json.Printed.{listing, separator}
use vector_clock_good.Entry.{LogEntry, LogLevel, debug, info, warn, error, fatal, log_level_str}
use vector_clock_good.Entry.Json.{escape_byte, escape_loop, escaped_size, json_escape}
use vector_clock_good.Entry.Json.Printed.{
  node_text, clock_text, time_text, level_text, message_text, from_message, from_level,
  from_timestamp, from_clock, entry_text,
}

-- No byte is 0.
abbrev pub IsNonzero : Bytes → Type 0
IsNonzero = All (λ c. 0 < c)

append-IsNonzero : (s t : Bytes) → IsNonzero s → IsNonzero t → IsNonzero (s ++ t)
append-IsNonzero = All-append (λ c. 0 < c)

print-IsNonzero : (n : ℕ) → IsNonzero (print_nat n)
print-IsNonzero n = All-map (λ c d. omega (arith, d.low)) (print_nat n) (print-IsDigit n)

escape_byte-IsNonzero : (c : ℕ) → IsNonzero (escape_byte c)
unfolding escape_byte is_print
escape_byte-IsNonzero c = ground arith

escape_loop-IsNonzero :
    (size : ℕ) (src dst : Bytes) → IsNonzero dst → IsNonzero (escape_loop size src dst)
unfolding escape_loop
escape_loop-IsNonzero size [] dst h = h
escape_loop-IsNonzero size (c ∷ src) dst h = elim (Bool-cases (ltb (length dst) (size - 2))) [
  | inl b ↦
      rw (escape_loop, b)
        (escape_loop-IsNonzero size src (dst ++ escape_byte c)
          (append-IsNonzero dst (escape_byte c) h (escape_byte-IsNonzero c)))
  | inr b ↦ rw (escape_loop, b) h
]

string-IsNonzero :
    (start s : Bytes) → IsNonzero start → IsNonzero (start ++ (json_escape s ++ codes "\""))
unfolding json_escape
string-IsNonzero start s h = append-IsNonzero start (json_escape s ++ codes "\"") h (
    append-IsNonzero (json_escape s) (codes "\"") (escape_loop-IsNonzero escaped_size s [] tt)
      (omega arith))

member-IsNonzero : (vc : VectorClock) (i : ℕ) → IsNonzero (member none vc i)
unfolding member node_label
member-IsNonzero vc i = (
  omega arith,
  append-IsNonzero (codes "node-" ++ print_nat i) (codes "\":" ++ print_nat (cell vc i))
      (append-IsNonzero (codes "node-") (print_nat i) (omega arith) (print-IsNonzero i))
      (append-IsNonzero (codes "\":") (print_nat (cell vc i)) (omega arith)
        (print-IsNonzero (cell vc i))),
)

separator-IsNonzero : (n : ℕ) → IsNonzero (separator n)
separator-IsNonzero zero = tt
separator-IsNonzero (suc n) = omega arith

listing-IsNonzero : (vc : VectorClock) (n i : ℕ) → IsNonzero (listing none vc n i)
listing-IsNonzero vc zero i = omega arith
listing-IsNonzero vc (suc n) i =
    append-IsNonzero (member none vc i) (separator n ++ listing none vc n (i + 1))
      (member-IsNonzero vc i)
      (append-IsNonzero (separator n) (listing none vc n (i + 1)) (separator-IsNonzero n)
        (listing-IsNonzero vc n (i + 1)))

level_name-IsNonzero : (l : LogLevel) → IsNonzero (log_level_str l)
unfolding log_level_str
level_name-IsNonzero debug = omega arith
level_name-IsNonzero info = omega arith
level_name-IsNonzero warn = omega arith
level_name-IsNonzero error = omega arith
level_name-IsNonzero fatal = omega arith

level-IsNonzero : (e : LogEntry) → IsNonzero (level_text e)
level-IsNonzero e =
    append-IsNonzero (codes ",\"level\":\"") (log_level_str e.level ++ codes "\"") (omega arith) (
      append-IsNonzero (log_level_str e.level) (codes "\"") (level_name-IsNonzero e.level)
        (omega arith))

time-IsNonzero : (e : LogEntry) → IsNonzero (time_text e)
time-IsNonzero e =
    append-IsNonzero (codes ",\"timestamp\":") (print_nat e.timestamp) (omega arith)
      (print-IsNonzero e.timestamp)

pub entry_text-IsNonzero : (e : LogEntry) → e.metadata ≡ [] → IsNonzero (entry_text e)
entry_text-IsNonzero e m =
    let node = string-IsNonzero (codes "\"node_id\":\"") e.node_id (omega arith) in
    let message = string-IsNonzero (codes ",\"message\":\"") e.message (omega arith) in
    let listed = listing-IsNonzero e.vc e.vc.node_count 0 in
    append-IsNonzero (codes "{") (node_text e ++ from_clock e) (omega arith) (
      append-IsNonzero (node_text e) (from_clock e) node (
        append-IsNonzero (codes ",\"vector_clock\":") (clock_text e ++ from_timestamp e)
          (omega arith)
          (append-IsNonzero (clock_text e) (from_timestamp e) (omega arith, listed)
            (append-IsNonzero (time_text e) (from_level e) (time-IsNonzero e) (
              append-IsNonzero (level_text e) (from_message e) (level-IsNonzero e)
                (append-IsNonzero (message_text e) _ message (rw m (omega arith))))))))
