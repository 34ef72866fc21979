-- ===== src/Clock/Json.antt =====
-- `vc_to_json`, `vc_from_json` and `vc_to_string` of src/vector_clock.c. A pointer into a text is
-- the rest of the text. What is printed is the buffer's contents, and the returned int its length.
pub mod Printed
pub mod Read
pub mod RoundTrip
pub mod Fits
use vector_clock_good.Common.{
  ℕ, zero, suc, ◌+◌, ◌-◌, ℤ, pos, negsuc, not, Option, none, some, List, [], ◌∷◌, ◌++◌, ltb, ◌==◌,
  if◌then◌else◌, length, get_or, set, take, drop, Bytes, codes, str_eq, strcmp, skip_spaces,
  starts_with_digit, print_nat, read_digits, atoi, emit, ◌>>=◌, ◌>>◌, guard,
}
use vector_clock_good.Clock.{VectorClock, max_nodes, cell}

-- The argument `node_names`: NULL, or an array whose entries may be NULL.
abbrev pub Names : Type 0
Names = Option (List (Option Bytes))

unfoldable pub node_label : ℕ → Bytes
unfolding print_nat
node_label i = codes "node-" ++ print_nat i

abbrev pub name_at : Names → ℕ → Option Bytes
name_at none j = none
name_at (some names) j = get_or names j none

abbrev label_or : Option Bytes → ℕ → Bytes
label_or none i = node_label i
label_or (some name) i = name

-- `"name":count`
unfoldable pub member : Names → VectorClock → ℕ → Bytes
unfolding node_label
member names vc i = b'"' ∷ (label_or (name_at names i) i ++ (codes "\":" ++ print_nat (cell vc i)))

unfoldable pub to_json_loop : ℕ → ℕ → Names → VectorClock → ℕ → Bytes → Option Bytes
unfolding emit
to_json_loop zero i names vc size out = some out
to_json_loop (suc n) i names vc size out = do
  out ← (if ltb 0 i then emit size (codes ",") out else some out)
  out ← emit size (member names vc i) out
  to_json_loop n (i + 1) names vc size out

unfoldable pub to_json : VectorClock → Names → ℕ → Option Bytes
unfolding to_json_loop member
to_json vc names size = do
  guard (not (size == 0))
  out ← emit size (codes "{") []
  out ← to_json_loop vc.node_count 0 names vc size out
  emit size (codes "}") out

unfoldable pub to_string_loop : ℕ → ℕ → VectorClock → ℕ → Bytes → Option Bytes
unfolding emit
to_string_loop zero i vc size out = some out
to_string_loop (suc n) i vc size out = do
  out ← (if ltb 0 i then emit size (codes ", ") out else some out)
  out ← emit size (print_nat (cell vc i)) out
  to_string_loop n (i + 1) vc size out

unfoldable pub to_string : VectorClock → ℕ → Option Bytes
unfolding to_string_loop
to_string vc size = do
  guard (not (size == 0))
  out ← emit size (codes "[") []
  out ← to_string_loop vc.node_count 0 vc size out
  emit size (codes "]") out

-- The byte that an escape stands for; none where `parse_json_string` returns NULL.
unfoldable pub unescape : ℕ → Option ℕ
unescape c =
    if c == b'"'
    then some b'"'
    else if c == b'\\'
    then some b'\\'
    else if c == b'n'
    then some b'\n'
    else if c == b't'
    then some b'\t'
    else none

-- The loop of `parse_json_string`: `room` is what `buflen - 1 - i` leaves. The contents of `buf`
-- and the rest behind the closing quote.
unfoldable pub string_loop : ℕ → Bytes → Bytes → Option (Bytes × Bytes)
unfolding unescape
string_loop room [] buf = none
string_loop room (c ∷ []) buf = if c == b'"' then some (buf, []) else none
string_loop room (c ∷ d ∷ s) buf =
    let plain = string_loop (room - 1) (d ∷ s) (buf ++ c ∷ []) in
    let escaped = (unescape d >>= λ e. string_loop (room - 1) s (buf ++ e ∷ [])) in
    if c == b'"'
    then some (buf, d ∷ s)
    else if room == 0
    then none
    else if c == b'\\'
    then escaped
    else plain

unfoldable pub open_quote : ℕ → Bytes → Option (Bytes × Bytes)
unfolding string_loop
open_quote room [] = none
open_quote room (c ∷ s) = if c == b'"' then string_loop room s [] else none

unfoldable pub parse_json_string : Bytes → ℕ → Option (Bytes × Bytes)
unfolding open_quote skip_spaces
parse_json_string s buflen = open_quote (buflen - 1) (skip_spaces s)

unfoldable pub parse_json_number : Bytes → Option (ℕ × Bytes)
unfolding starts_with_digit read_digits skip_spaces
parse_json_number s =
    let t = skip_spaces s in if starts_with_digit t then some (read_digits 0 t) else none

-- `if (*s != c) return -1`, and the rest behind it.
unfoldable pub expect : ℕ → Bytes → Option Bytes
expect c [] = none
expect c (d ∷ s) = if d == c then some s else none

abbrev pub comma : Bytes → Bytes
comma [] = []
comma (c ∷ t) = if c == b',' then skip_spaces t else c ∷ t

-- The blanks behind a value, and a comma with its blanks if one stands there.
unfoldable pub skip_comma : Bytes → Bytes
unfolding skip_spaces
skip_comma s = comma (skip_spaces s)

-- One member, with the comma behind it: its key and value, and the rest.
unfoldable pub read_member : Bytes → Option ((Bytes × ℕ) × Bytes)
read_member s = do
  (key, s) ← parse_json_string s 64
  s ← expect b':' (skip_spaces s)
  (value, s) ← parse_json_number (skip_spaces s)
  some ((key, value), skip_comma s)

-- The loop over members: the keys and values in order, and the rest. Each round reads at least the
-- quotes of a key, so as many rounds as there are bytes are enough.
unfoldable pub members : ℕ → Bytes → List (Bytes × ℕ) → Option (List (Bytes × ℕ) × Bytes)
unfolding read_member parse_json_string parse_json_number expect skip_comma
members fuel [] read = some (read, [])
members zero (c ∷ s) read = none
members (suc fuel) (c ∷ s) read =
    let next = (do
      guard (ltb (length read) max_nodes)
      (m, s) ← read_member (c ∷ s)
      members fuel s (read ++ m ∷ [])) in
    if c == b'}' then some (read, c ∷ s) else next

-- The inner loop of the branch with names: the first `j` that has the key's name.
unfoldable pub find_name : ℕ → ℕ → List (Option Bytes) → Bytes → Option ℕ
find_name zero j names key = none
find_name (suc n) j names key =
    let next = find_name n (j + 1) names key in
    elim (get_or names j none) [
      | none ↦ next
      | some name ↦ if str_eq key name then some j else next
    ]

abbrev set_found : List ℕ → Option ℕ → ℕ → List ℕ
set_found clocks none v = clocks
set_found clocks (some j) v = set clocks j v

unfoldable pub place_named : ℕ → List (Option Bytes) → ℕ → Bytes × ℕ → List ℕ → List ℕ
unfolding find_name strcmp
place_named count names i (key, value) clocks =
    set_found (set clocks i 0) (find_name count 0 names key) value

abbrev set_index : ℕ → List ℕ → ℤ → ℕ → List ℕ
set_index count clocks (pos idx) v = if ltb idx count then set clocks idx v else clocks
set_index count clocks (negsuc idx) v = clocks

unfoldable pub place_numbered : ℕ → ℕ → Bytes × ℕ → List ℕ → List ℕ
unfolding node_label strcmp atoi
place_numbered count i (key, value) clocks =
    if str_eq key (node_label i)
    then set clocks i value
    else if str_eq (take 5 key) (codes "node-")
    then set_index count clocks (atoi (drop 5 key)) value
    else clocks

abbrev pub place : Names → ℕ → ℕ → Bytes × ℕ → List ℕ → List ℕ
place none count = place_numbered count
place (some names) count = place_named count names

unfoldable pub place_all : Names → ℕ → ℕ → List (Bytes × ℕ) → List ℕ → List ℕ
unfolding place_named place_numbered
place_all names count i [] clocks = clocks
place_all names count i (m ∷ ms) clocks =
    place_all names count (i + 1) ms (place names count i m clocks)

unfoldable pub parse_members : VectorClock → Bytes → Names → Option VectorClock
unfolding members place_all
parse_members vc s names = do
  (read, rest) ← members (length s) s []
  _ ← expect b'}' rest
  some
      (record { node_count = length read; clocks = place_all names (length read) 0 read vc.clocks })

-- The clock that is written over, or none where the source returns -1 and leaves it alone.
unfoldable pub from_json : VectorClock → Bytes → Names → Option VectorClock
unfolding parse_members expect strcmp skip_spaces
from_json vc json names = do
  s ← expect b'{' (skip_spaces json)
  (if str_eq (take 1 (skip_spaces s)) (codes "}")
      then some (record vc { node_count = 0 })
      else parse_members vc (skip_spaces s) names)
