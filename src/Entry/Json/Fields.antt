-- ===== src/Entry/Json/Fields.antt =====
-- What the loop over fields reads from a printed entry.
use mathlib.Core.List.{append_assoc}
use vector_clock_good.Common.{
  ℕ, suc, ◌^◌, ◌≤◌, ◌<◌, ◌≡◌, refl, ap, ◌∙◌, false, none, some, List, [], ◌∷◌, ◌++◌, arith, Bytes,
  codes, length, drop, print_nat, read-print, print-starts, starts_with_digit, skip_spaces, All,
}
use vector_clock_good.Clock.{VectorClock}
use vector_clock_good.Clock.Json as ClockJson
use vector_clock_good.Clock.Json.{expect, skip_comma}
use vector_clock_good.Clock.Json.Printed.{listing}
use vector_clock_good.Entry.{
  LogEntry, MetadataPair, LogLevel, debug, info, warn, error, fatal, blank, log_level_str,
  log_level_from_str, log_message_max_len, node_id_max_len,
}
use vector_clock_good.Entry.Json.{
  json_escape, parse_str, parse_num, keep_or, read_value, read_node_id, read_vector_clock,
  read_timestamp, read_level, read_message, fields,
}
use vector_clock_good.Entry.Json.Escape.{escaped, kept, json_escape-escaped, parse_str-escaped}
use vector_clock_good.Entry.Json.Printed.{
  pairs_text, metadata_text, ending, from_level, from_timestamp, from_clock, entry_text,
}
use vector_clock_good.Entry.Json.Braces.{
  IsInner, IsBraceless, pairs-IsInner, skip_object_lem, skip_clock,
}

-- One round of the loop, whose key is a literal.
fields_round :
    (fuel : ℕ) (e e' : LogEntry) (s key v rest : Bytes)
    → parse_str (b'"' ∷ s) 64 ≡ some (key, b':' ∷ v)
    → read_value e key (skip_spaces v) ≡ some (e', rest)
    → fields (suc fuel) e (b'"' ∷ s) ≡ fields fuel e' (skip_comma rest)
unfolding fields expect skip_spaces
fields_round fuel e e' s key v rest h k = rw (h, k) refl

quoted :
    (s rest : Bytes)
    → length s ≤ log_message_max_len
    → (json_escape s ++ codes "\"") ++ rest ≡ escaped s ++ b'"' ∷ rest
quoted s rest h =
    append_assoc (json_escape s) (codes "\"") rest
    ∙ ap (λ x. x ++ b'"' ∷ rest) (json_escape-escaped s h)

node_id_round :
    (fuel : ℕ) (e : LogEntry) (s rest : Bytes)
    → length s ≤ node_id_max_len
    → fields (suc fuel) e (codes "\"node_id\":\"" ++ ((json_escape s ++ codes "\"") ++ rest))
      ≡ fields fuel (record e { node_id = kept s }) (skip_comma rest)
unfolding read_value read_node_id parse_str
node_id_round fuel e s rest h =
    ap (λ x. fields (suc fuel) e (codes "\"node_id\":\"" ++ x)) (quoted s rest (omega arith))
    ∙ fields_round fuel e _ _ (codes "node_id") _ rest refl
        (rw (parse_str-escaped s rest node_id_max_len h) refl)

clock_round :
    (fuel n : ℕ) (e : LogEntry) (vc : VectorClock) (rest : Bytes)
    → fields (suc fuel) e (codes "\"vector_clock\":{" ++ (listing none vc n 0 ++ rest))
      ≡ fields fuel
          (record e {
            vc = keep_or e.vc (ClockJson.from_json e.vc (b'{' ∷ listing none vc n 0) none);
          })
          (skip_comma rest)
unfolding read_value read_vector_clock
clock_round fuel n e vc rest =
    fields_round fuel e _ _ (codes "vector_clock") _ rest refl (rw (skip_clock vc n rest) refl)

timestamp_round :
    (fuel t : ℕ) (e : LogEntry) (rest : Bytes)
    → t < 2 ^ 64
    → starts_with_digit rest ≡ false
    → fields (suc fuel) e (codes "\"timestamp\":" ++ (print_nat t ++ rest))
      ≡ fields fuel (record e { timestamp = t }) (skip_comma rest)
unfolding read_value read_timestamp parse_num
timestamp_round fuel t e rest h k =
    fields_round fuel e _ _ (codes "timestamp") _ rest refl
      (rw ((print-starts t rest).1, (print-starts t rest).1, read-print t rest h k) refl)

level_read :
    (l : LogLevel) (e : LogEntry) (t : Bytes)
    → read_level e (b'"' ∷ (log_level_str l ++ b'"' ∷ (b',' ∷ t)))
      ≡ some (record e { level = l }, b',' ∷ t)
unfolding read_level log_level_str log_level_from_str parse_str
level_read debug e t = refl
level_read info e t = refl
level_read warn e t = refl
level_read error e t = refl
level_read fatal e t = refl

level_round :
    (fuel : ℕ) (l : LogLevel) (e : LogEntry) (t : Bytes)
    → fields (suc fuel) e (codes "\"level\":\"" ++ ((log_level_str l ++ codes "\"") ++ b',' ∷ t))
      ≡ fields fuel (record e { level = l }) (skip_comma (b',' ∷ t))
unfolding read_value
level_round fuel l e t =
    ap (λ s. fields (suc fuel) e (codes "\"level\":\"" ++ s))
      (append_assoc (log_level_str l) (codes "\"") (b',' ∷ t))
    ∙ fields_round fuel e _ _ (codes "level") _ (b',' ∷ t) refl (level_read l e t)

message_round :
    (fuel : ℕ) (e : LogEntry) (s rest : Bytes)
    → length s ≤ log_message_max_len
    → fields (suc fuel) e (codes "\"message\":\"" ++ ((json_escape s ++ codes "\"") ++ rest))
      ≡ fields fuel (record e { message = kept s }) (skip_comma rest)
unfolding read_value read_message parse_str
message_round fuel e s rest h =
    ap (λ x. fields (suc fuel) e (codes "\"message\":\"" ++ x)) (quoted s rest h)
    ∙ fields_round fuel e _ _ (codes "message") _ rest refl
        (rw (parse_str-escaped s rest log_message_max_len h) refl)

fields_end : (fuel : ℕ) (e : LogEntry) → fields (suc fuel) e (codes "}") ≡ some e
unfolding fields
fields_end fuel e = refl

metadata_read :
    (e : LogEntry) (s : Bytes)
    → All IsInner s
    → read_value e (codes "metadata") (b'{' ∷ (s ++ codes "}}")) ≡ some (e, codes "}")
unfolding read_value
metadata_read e s h = rw (skip_object_lem s (codes "}") h) refl

-- The metadata is passed over, and the loop ends at the brace behind it.
ending_rounds :
    (fuel : ℕ) (e : LogEntry) (ps : List MetadataPair)
    → All IsBraceless ps
    → fields (suc (suc fuel)) e (skip_comma (metadata_text ps ++ codes "}")) ≡ some e
unfolding skip_comma parse_str
ending_rounds fuel e [] h = fields_end (suc fuel) e
ending_rounds fuel e (p ∷ ps) h =
    let s = pairs_text 0 (p ∷ ps) in
    ap (λ x. fields (suc (suc fuel)) e (codes "\"metadata\":{" ++ x))
      (append_assoc s (codes "}") (codes "}"))
    ∙ fields_round (suc fuel) e e _ (codes "metadata") (b'{' ∷ (s ++ codes "}}")) (codes "}") refl
        (metadata_read e s (pairs-IsInner 0 (p ∷ ps) h))
    ∙ fields_end fuel e

-- What the loop over fields makes of a printed entry.
abbrev pub read_entry : LogEntry → LogEntry
read_entry e = record {
  node_id = kept e.node_id;
  vc =
      keep_or blank.vc
        (ClockJson.from_json blank.vc (b'{' ∷ listing none e.vc e.vc.node_count 0) none);
  timestamp = e.timestamp;
  level = e.level;
  message = kept e.message;
  metadata = [];
  seq = 0;
}

-- What the round trip asks of an entry.
pub record IsPrintable (e : LogEntry) : Type 0 where
  pub node_id : length e.node_id ≤ node_id_max_len
  pub timestamp : e.timestamp < 2 ^ 64
  pub message : length e.message ≤ log_message_max_len
  pub metadata : All IsBraceless e.metadata

-- The fields of a printed entry, behind its first brace.
pub fields_lem :
    (fuel : ℕ) (e : LogEntry)
    → IsPrintable e
    → fields (suc (suc (suc (suc (suc (suc (suc fuel))))))) blank (drop 1 (entry_text e))
      ≡ some (read_entry e)
unfolding skip_comma starts_with_digit
fields_lem fuel e p =
    ap (λ s. fields (suc (suc (suc (suc (suc (suc (suc fuel))))))) blank s)
      (append_assoc (codes "\"node_id\":\"") (json_escape e.node_id ++ codes "\"") (from_clock e))
    ∙ node_id_round _ blank e.node_id (from_clock e) p.node_id
    ∙ clock_round _ e.vc.node_count _ e.vc (from_timestamp e)
    ∙ timestamp_round _ e.timestamp _ (from_level e) p.timestamp refl
    ∙ level_round _ e.level _ _
    ∙ message_round _ _ e.message (ending e) p.message
    ∙ ending_rounds fuel _ e.metadata p.metadata
