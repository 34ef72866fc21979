-- ===== src/Entry/Json.antt =====
-- `json_escape`, `log_entry_to_json` and `log_entry_from_json` of src/log_entry.c.
pub mod Escape
pub mod Printed
pub mod Braces
pub mod Fields
pub mod RoundTrip
pub mod Fits
pub mod Nonzero
pub mod Reprint
pub mod Shorter
pub mod Rounds
use vector_clock_good.Common.{
  ℕ, zero, suc, ◌+◌, ◌-◌, ◌*◌, Bool, true, false, not, ◌||◌, Option, none, some, List, [], ◌∷◌,
  ◌++◌, ltb, ◌==◌, if◌then◌else◌, length, drop, Bytes, codes, str_eq, strcmp, is_print, skip_spaces,
  print_nat, read_digits, emit, ◌>>=◌, ◌>>◌, guard,
}
use vector_clock_good.Clock.{VectorClock}
use vector_clock_good.Clock.Json.{expect, skip_comma}
use vector_clock_good.Clock.Json as ClockJson
use vector_clock_good.Entry.{
  LogEntry, MetadataPair, blank, log_level_str, log_level_from_str, log_message_max_len,
  node_id_max_len,
}

-- What a byte becomes in a JSON text: two bytes, itself, or nothing.
unfoldable pub escape_byte : ℕ → Bytes
unfolding is_print
escape_byte c =
    if c == b'"'
    then codes "\\\""
    else if c == b'\\'
    then codes "\\\\"
    else if c == b'\n'
    then codes "\\n"
    else if c == b'\t'
    then codes "\\t"
    else if is_print c
    then c ∷ []
    else []

-- The loop of `json_escape`. It stops at two bytes before the end of the buffer, where an escape
-- of two bytes still fits.
unfoldable pub escape_loop : ℕ → Bytes → Bytes → Bytes
unfolding escape_byte
escape_loop dstlen [] dst = dst
escape_loop dstlen (c ∷ src) dst = elim (ltb (length dst) (dstlen - 2)) [
  | true ↦ escape_loop dstlen src (dst ++ escape_byte c)
  | false ↦ dst
]

-- The buffer `escaped` of `log_entry_to_json`.
abbrev pub escaped_size : ℕ
escaped_size = log_message_max_len * 2 + 1

unfoldable pub json_escape : Bytes → Bytes
unfolding escape_loop
json_escape src = escape_loop escaped_size src []

unfoldable pub emit_metadata : ℕ → List MetadataPair → ℕ → Bytes → Option Bytes
unfolding emit json_escape
emit_metadata i [] size out = some out
emit_metadata i (p ∷ ps) size out = do
  out ← (if ltb 0 i then emit size (codes ",") out else some out)
  out ← emit size (b'"' ∷ (json_escape p.key ++ codes "\":")) out
  out ← emit size (b'"' ∷ (json_escape p.value ++ codes "\"")) out
  emit_metadata (i + 1) ps size out

abbrev pub metadata_part : List MetadataPair → ℕ → Bytes → Option Bytes
metadata_part [] size out = some out
metadata_part (p ∷ ps) size out = do
  out ← emit size (codes ",\"metadata\":{") out
  out ← emit_metadata 0 (p ∷ ps) size out
  emit size (codes "}") out

-- The text of the buffer, whose length is returned; none where the source returns -1.
unfoldable pub to_json : LogEntry → ℕ → Option Bytes
unfolding emit_metadata log_level_str
to_json e size = do
  guard (not (size == 0))
  out ← emit size (codes "{") []
  out ← emit size (codes "\"node_id\":\"" ++ (json_escape e.node_id ++ codes "\"")) out
  out ← emit size (codes ",\"vector_clock\":") out
  vc ← ClockJson.to_json e.vc none (size - length out)
  let out = out ++ vc
  out ← emit size (codes ",\"timestamp\":" ++ print_nat e.timestamp) out
  out ← emit size (codes ",\"level\":\"" ++ (log_level_str e.level ++ codes "\"")) out
  out ← emit size (codes ",\"message\":\"" ++ (json_escape e.message ++ codes "\"")) out
  out ← metadata_part e.metadata size out
  emit size (codes "}") out

-- The byte that an escape stands for in `parse_str`, which passes on any byte that it does not know.
unfoldable pub unescape : ℕ → ℕ
unescape c =
    if c == b'n' then b'\n' else if c == b't' then b'\t' else if c == b'r' then b'\r' else c

-- The loop of `parse_str`: `room` is what `buflen - 1 - i` leaves.
unfoldable pub str_loop : ℕ → Bytes → Bytes → Option (Bytes × Bytes)
unfolding unescape
str_loop room [] buf = none
str_loop room (c ∷ []) buf = if c == b'"' then some (buf, []) else none
str_loop room (c ∷ d ∷ s) buf =
    let plain = str_loop (room - 1) (d ∷ s) (buf ++ c ∷ []) in
    let escaped = str_loop (room - 1) s (buf ++ unescape d ∷ []) in
    if c == b'"'
    then some (buf, d ∷ s)
    else if room == 0
    then none
    else if c == b'\\'
    then escaped
    else plain

unfoldable pub open_str : ℕ → Bytes → Option (Bytes × Bytes)
unfolding str_loop
open_str room [] = none
open_str room (c ∷ s) = if c == b'"' then str_loop room s [] else none

unfoldable pub parse_str : Bytes → ℕ → Option (Bytes × Bytes)
unfolding open_str skip_spaces
parse_str s buflen = open_str (buflen - 1) (skip_spaces s)

unfoldable pub parse_num : Bytes → ℕ × Bytes
unfolding read_digits skip_spaces
parse_num s = read_digits 0 (skip_spaces s)

-- `do … while (*s && depth > 0)` over a text in brackets: what was read, and the rest.
unfoldable pub bracket_loop : ℕ → ℕ → ℕ → Bytes → Bytes → Bytes × Bytes
bracket_loop left right depth [] read = (read, [])
bracket_loop left right depth (c ∷ s) read =
    let depth' = (if c == left then depth + 1 else if c == right then depth - 1 else depth) in
    elim (ltb 0 depth') [
      | true ↦ bracket_loop left right depth' s (read ++ c ∷ [])
      | false ↦ (read ++ c ∷ [], s)
    ]

abbrev pub starts_with : ℕ → Bytes → Bool
starts_with c [] = false
starts_with c (d ∷ s) = d == c

unfoldable pub skip_object : Bytes → Bytes × Bytes
unfolding bracket_loop
skip_object s = if starts_with b'{' s then bracket_loop b'{' b'}' 0 s [] else ([], s)

-- `while (*s && *s != c) s++`
unfoldable pub find_byte : ℕ → Bytes → Bytes
find_byte c [] = []
find_byte c (d ∷ s) = elim (d == c) [ true ↦ d ∷ s | false ↦ find_byte c s ]

unfoldable pub find_end : Bytes → Bytes
find_end [] = []
find_end (d ∷ s) = elim (d == b',' || d == b'}') [ true ↦ d ∷ s | false ↦ find_end s ]

-- The branch for a field that is not known.
unfoldable pub skip_unknown : Bytes → Bytes
unfolding find_byte bracket_loop find_end
skip_unknown s =
    if starts_with b'"' s
    then drop 1 (find_byte b'"' s)
    else if starts_with b'{' s
    then (bracket_loop b'{' b'}' 0 s []).1
    else if starts_with b'[' s
    then (bracket_loop b'[' b']' 0 s []).1
    else find_end s

abbrev keep_or : VectorClock → Option VectorClock → VectorClock
keep_or vc none = vc
keep_or vc (some new) = new

abbrev pub Read : Type 0
Read = Option (LogEntry × Bytes)

unfoldable pub read_node_id : LogEntry → Bytes → Read
unfolding parse_str
read_node_id e s = do (t, s) ← parse_str s (node_id_max_len + 1); some (record e { node_id = t }, s)

-- The allocation of `vc_str` is taken to succeed. What `vc_from_json` returns is not looked at.
unfoldable pub read_vector_clock : LogEntry → Bytes → Read
unfolding skip_object ClockJson.from_json
read_vector_clock e s =
    let (text, s') = skip_object s in
    some (record e { vc = keep_or e.vc (ClockJson.from_json e.vc text none) }, s')

unfoldable pub read_timestamp : LogEntry → Bytes → Read
unfolding parse_num
read_timestamp e s = let (t, s') = parse_num s in some (record e { timestamp = t }, s')

unfoldable pub read_level : LogEntry → Bytes → Read
unfolding parse_str log_level_from_str
read_level e s = do
  (t, s) ← parse_str s (log_message_max_len * 2)
  some (record e { level = log_level_from_str (some t) }, s)

unfoldable pub read_message : LogEntry → Bytes → Read
unfolding parse_str
read_message e s = do
  (t, s) ← parse_str s (log_message_max_len + 1)
  some (record e { message = t }, s)

-- The branches on the key, at the value; none where the source returns -1.
unfoldable pub read_value : LogEntry → Bytes → Bytes → Read
unfolding read_node_id read_vector_clock read_timestamp read_level read_message skip_object
    skip_unknown strcmp
read_value e key s =
    if str_eq key (codes "node_id")
    then read_node_id e s
    else if str_eq key (codes "vector_clock")
    then read_vector_clock e s
    else if str_eq key (codes "timestamp")
    then read_timestamp e s
    else if str_eq key (codes "level")
    then read_level e s
    else if str_eq key (codes "message")
    then read_message e s
    else if str_eq key (codes "metadata")
    then some (e, (skip_object s).1)
    else some (e, skip_unknown s)

-- The loop over fields. Each round reads at least the quotes of a key.
unfoldable pub fields : ℕ → LogEntry → Bytes → Option LogEntry
unfolding read_value parse_str expect skip_comma
fields fuel e [] = some e
fields zero e (c ∷ s) = none
fields (suc fuel) e (c ∷ s) =
    let next = (do
      (key, s) ← parse_str (c ∷ s) 64
      s ← expect b':' (skip_spaces s)
      (e, s) ← read_value e key (skip_spaces s)
      fields fuel e (skip_comma s)) in
    if c == b'}' then some e else next

unfoldable pub from_json : Bytes → Option LogEntry
unfolding fields expect
from_json json = do s ← expect b'{' (skip_spaces json); fields (length s) blank (skip_spaces s)
