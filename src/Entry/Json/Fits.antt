-- ===== src/Entry/Json/Fits.antt =====
-- The printed entry fits the buffers of the agent and the server.
use vector_clock_good.Common.{
  ℕ, ◌+◌, ◌-◌, ◌*◌, ◌^◌, ◌≤◌, ◌<◌, ◌≡◌, ap, true, not, Option, none, [], ◌++◌, arith, ◌==◌, Bytes,
  codes, length, length-append, print_nat, print-digits, emit, Prints, emit-Prints, bind-Prints,
  ◌>>=◌,
}
use vector_clock_good.Clock.{max_nodes}
use vector_clock_good.Clock.Json as ClockJson
use vector_clock_good.Clock.Json.Read.{Fits64}
use vector_clock_good.Clock.Json.Fits.{to_json-Prints}
use vector_clock_good.Entry.{
  LogEntry, LogLevel, debug, info, warn, error, fatal, log_level_str, log_message_max_len,
}
use vector_clock_good.Entry.Json.{json_escape, to_json}
use vector_clock_good.Entry.Json.Escape.{json_escape-escaped, escaped-length}
use vector_clock_good.Entry.Json.Printed.{node_text, time_text, level_text, message_text}
use vector_clock_good.Entry.Json.Fields.{IsPrintable}

string-length :
    (s start : Bytes) (n : ℕ)
    → length s ≤ n
    → n ≤ log_message_max_len
    → length (start ++ (json_escape s ++ codes "\"")) ≤ length start + 2 * n + 1
string-length s start n h l = omega (
  arith,
  length-append start (json_escape s ++ codes "\""),
  length-append (json_escape s) (codes "\""),
  ap length (json_escape-escaped s (omega arith)),
  escaped-length s,
)

level_name-length : (l : LogLevel) → length (log_level_str l) ≤ 5
unfolding log_level_str
level_name-length debug = omega arith
level_name-length info = omega arith
level_name-length warn = omega arith
level_name-length error = omega arith
level_name-length fatal = omega arith

time-length : (e : LogEntry) → e.timestamp < 2 ^ 64 → length (time_text e) ≤ 33
time-length e h = omega (
  arith,
  length-append (codes ",\"timestamp\":") (print_nat e.timestamp),
  print-digits e.timestamp h,
)

level-length : (e : LogEntry) → length (level_text e) ≤ 16
level-length e = omega (
  arith,
  length-append (codes ",\"level\":\"") (log_level_str e.level ++ codes "\""),
  length-append (log_level_str e.level) (codes "\""),
  level_name-length e.level,
)

module _ (size : ℕ) (room : 4096 ≤ size) where
  -- One piece more, of at most `m` bytes.
  part :
      (x out : Bytes) (f : Bytes → Option Bytes) (n m k : ℕ)
      → length x ≤ m
      → length out ≤ n
      → n + m < 4096
      → ((b : Bytes) → length b ≤ n + m → Prints (f b) k)
      → Prints (emit size x out >>= f) k
  part x out f n m k l h r next =
      bind-Prints (emit size x out) f (n + m) k
        (emit-Prints size x out (n + m) (omega arith) (omega arith)) next

  -- An entry without metadata, of at most 32 nodes, whose counts and timestamp fit 64 bits and whose
  -- texts fit their arrays, is printed, in at most 3194 bytes, into a buffer of 4096 bytes or more.
  pub to_json_entry-Prints :
      (e : LogEntry)
      → e.vc.node_count ≤ max_nodes
      → Fits64 e.vc
      → IsPrintable e
      → e.metadata ≡ []
      → Prints (to_json e size) 3194
  unfolding to_json
  to_json_entry-Prints e w f p m =
      let some_room : not (size == 0) ≡ true = ground arith in
      let node = string-length e.node_id (codes "\"node_id\":\"") 31 p.node_id (omega arith) in
      let message =
        string-length e.message (codes ",\"message\":\"") 1023 p.message (omega arith) in
      let clock = codes ",\"vector_clock\":" in
      rw (some_room, m)
        (part (codes "{") [] _ 0 1 3194 (omega arith) (omega arith) (omega arith) (λ b l.
          part (node_text e) b _ 1 74 3194 node l (omega arith) (λ b l.
            part clock b _ 75 16 3194 (omega arith) l (omega arith) (λ b l.
              bind-Prints (ClockJson.to_json e.vc none (size - length b)) _ 994 3194
                (to_json-Prints e.vc (size - length b) w f (omega arith))
                (λ c k.
                  part (time_text e) (b ++ c) _ 1085 33 3194 (time-length e p.timestamp)
                    (omega (arith, length-append b c)) (omega arith)
                    (λ b l.
                      part (level_text e) b _ 1118 16 3194 (level-length e) l (omega arith) (λ b l.
                        part (message_text e) b _ 1134 2059 3194 message l (omega arith) (λ b l.
                          emit-Prints size (codes "}") b 3194 (omega arith) (omega arith)))))))))
