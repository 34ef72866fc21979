-- ===== src/Agent/Line.antt =====
-- `agent_parse_line`, whose `sscanf` formats are followed directive by directive.
use vector_clock_good.Common.{
  ℕ, ◌+◌, ◌-◌, ◌*◌, ◌%◌, ◌^◌, ℤ, pos, negsuc, Bool, true, Option, none, some, List, [], ◌∷◌, ◌==◌,
  if◌then◌else◌, take, drop, Bytes, codes, str_eq, strcmp, scan_byte, scan_int, scan_until,
  scan_word, scan_line, ◌>>=◌, ◌>>◌, guard,
}
use vector_clock_good.Entry.{LogEntry, info, log_level_from_str, log_message_max_len}
use vector_clock_good.Entry

-- The numbers of a timestamp as they are read.
pub record Stamp : Type 0 where
  pub year : ℤ
  pub month : ℤ
  pub day : ℤ
  pub hour : ℤ
  pub min : ℤ
  pub sec : ℤ
  pub ms : ℤ

-- An int as a uint64_t.
abbrev pub to_uint64 : ℤ → ℕ
to_uint64 (pos n) = n % 2 ^ 64
to_uint64 (negsuc k) = 2 ^ 64 - 1 - k

-- The numbers of a prefix "[VC:x,y,z".
unfoldable pub parse_vc : Bytes → Option (ℤ × (ℤ × ℤ))
unfolding scan_int scan_byte strcmp
parse_vc content = do
  guard (str_eq (take 4 content) (codes "[VC:"))
  (a, s) ← scan_int (drop 4 content)
  s ← scan_byte b',' s
  (b, s) ← scan_int s
  s ← scan_byte b',' s
  (c, s) ← scan_int s
  some (a, (b, c))

abbrev skip_blanks : Bytes → Bytes
skip_blanks [] = []
skip_blanks (c ∷ s) = let rest = skip_blanks s in if c == b' ' then rest else c ∷ s

abbrev behind_bracket : Bytes → Option Bytes
behind_bracket [] = none
behind_bracket (c ∷ s) =
    let rest = behind_bracket s in if c == b']' then some (skip_blanks s) else rest

abbrev or_else : Option Bytes → Bytes → Bytes
or_else none s = s
or_else (some t) s = t

-- What stands behind the prefix, if its numbers were read.
abbrev strip_vc : Option (ℤ × (ℤ × ℤ)) → Bytes → Bytes
strip_vc none content = content
strip_vc (some vc) content = or_else (behind_bracket content) content

-- The array `parsed_vc` on return.
abbrev pub vc_numbers : Option (ℤ × (ℤ × ℤ)) → List ℤ
vc_numbers none = negsuc 0 ∷ negsuc 0 ∷ negsuc 0 ∷ []
vc_numbers (some (a, (b, c))) = a ∷ (b ∷ (c ∷ []))

-- The level, the message and, if one was read, the timestamp of a line.
pub record Parts : Type 0 where
  pub level : Bytes
  pub message : Bytes
  pub stamp : Option Stamp

abbrev message_or_nil : Option (Bytes × Bytes) → Bytes
message_or_nil none = []
message_or_nil (some m) = m.0

-- "%d-%d-%d %d:%d:%d.%d %15s %[^\n]", with at least eight conversions: the message may be missing.
unfoldable pub scan_stamped : Bytes → Option Parts
unfolding scan_int scan_byte scan_word scan_line
scan_stamped s = do
  (year, s) ← scan_int s
  s ← scan_byte b'-' s
  (month, s) ← scan_int s
  s ← scan_byte b'-' s
  (day, s) ← scan_int s
  (hour, s) ← scan_int s
  s ← scan_byte b':' s
  (min, s) ← scan_int s
  s ← scan_byte b':' s
  (sec, s) ← scan_int s
  s ← scan_byte b'.' s
  (ms, s) ← scan_int s
  (level, s) ← scan_word 15 s
  some (record {
    level = level;
    message = message_or_nil (scan_line s);
    stamp = some (record {
      year = year;
      month = month;
      day = day;
      hour = hour;
      min = min;
      sec = sec;
      ms = ms;
    });
  })

-- "[%15[^]]] %[^\n]"
unfoldable pub scan_bracketed : Bytes → Option Parts
unfolding scan_byte scan_until scan_line
scan_bracketed s = do
  s ← scan_byte b'[' s
  (level, s) ← scan_until 15 b']' s
  s ← scan_byte b']' s
  (message, s) ← scan_line s
  some (record { level = level; message = message; stamp = none })

-- "%15[^:]: %[^\n]"
unfoldable pub scan_colon : Bytes → Option Parts
unfolding scan_byte scan_until scan_line
scan_colon s = do
  (level, s) ← scan_until 15 b':' s
  s ← scan_byte b':' s
  (message, s) ← scan_line s
  some (record { level = level; message = message; stamp = none })

abbrev drop_newline : Bytes → Bytes
drop_newline [] = []
drop_newline (c ∷ []) = if c == b'\n' then [] else c ∷ []
drop_newline (c ∷ (d ∷ s)) = c ∷ drop_newline (d ∷ s)

-- The formats in the order in which they are tried.
unfoldable pub parse_content : Bytes → Parts
unfolding scan_stamped scan_bracketed scan_colon
parse_content content = elim (scan_stamped content) [
  | some p ↦ p
  | none ↦ elim (scan_bracketed content) [
    | some p ↦ p
    | none ↦ elim (scan_colon content) [
      | some p ↦ p
      | none ↦ record {
        level = codes "INFO";
        message = drop_newline (take log_message_max_len content);
        stamp = none;
      }
    ]
  ]
]

-- `mktime` is what the C library answers for a timestamp in local time.
abbrev pub time_or : (Stamp → ℤ) → ℕ → Option Stamp → ℕ
time_or mktime now none = now
time_or mktime now (some t) = (to_uint64 (mktime t) * 1000 + to_uint64 t.ms) % 2 ^ 64

abbrev pub is_blank_line : Bytes → Bool
is_blank_line [] = true
is_blank_line (c ∷ s) = c == b'\n'

abbrev pub entry_of : (Stamp → ℤ) → ℕ → Parts → LogEntry
entry_of mktime now p = record (Entry.init now none none info (some p.message)) {
  timestamp = time_or mktime now p.stamp;
  level = log_level_from_str (some p.level);
}

-- None where the source returns -1.
unfoldable pub parse_line : (Stamp → ℤ) → ℕ → Bytes → Option (LogEntry × List ℤ)
unfolding parse_vc parse_content Entry.init log_level_from_str
parse_line mktime now line =
    if is_blank_line line
    then none
    else some (
      entry_of mktime now (parse_content (strip_vc (parse_vc line) line)),
      vc_numbers (parse_vc line),
    )
