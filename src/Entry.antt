-- ===== src/Entry.antt =====
-- src/log_entry.c and include/log_entry.h: log entries, without their JSON form. A char array in a
-- struct is the text in front of its NUL.
pub mod Json
pub mod Order
pub mod Metadata
use vector_clock_good.Common.{
  ℕ, ◌+◌, ◌/◌, ◌%◌, Bool, true, false, Option, none, some, List, [], ◌∷◌, ◌++◌, Ordering, ltb, leb,
  ◌==◌, if◌then◌else◌, length, take, Bytes, codes, str_eq, strcmp, str_case_eq,
}
use vector_clock_good.Clock
use vector_clock_good.Clock.{
  VectorClock, Relation, equal, happens_before, happens_after, concurrent,
}

-- `log_level_t`
pub data LogLevel : Type 0 where
  debug info warn error fatal : LogLevel

-- `LOG_LEVEL_STR`
unfoldable pub log_level_str : LogLevel → Bytes
log_level_str debug = codes "DEBUG"
log_level_str info = codes "INFO"
log_level_str warn = codes "WARN"
log_level_str error = codes "ERROR"
log_level_str fatal = codes "FATAL"

unfoldable pub log_level_from_str : Option Bytes → LogLevel
unfolding str_case_eq
log_level_from_str none = info
log_level_from_str (some s) =
    if str_case_eq s (codes "DEBUG")
    then debug
    else if str_case_eq s (codes "INFO")
    then info
    else if str_case_eq s (codes "WARN")
    then warn
    else if str_case_eq s (codes "ERROR")
    then error
    else if str_case_eq s (codes "FATAL")
    then fatal
    else info

abbrev pub node_id_max_len : ℕ
node_id_max_len = 31

abbrev pub log_message_max_len : ℕ
log_message_max_len = 1023

abbrev pub metadata_max_count : ℕ
metadata_max_count = 8

-- `metadata_pair_t`
pub record MetadataPair : Type 0 where
  pub key : Bytes
  pub value : Bytes

-- `log_entry_t`; `metadata` holds the pairs in use, so `metadata_count` is its length.
pub record LogEntry : Type 0 where
  pub node_id : Bytes
  pub vc : VectorClock
  pub timestamp : ℕ
  pub level : LogLevel
  pub message : Bytes
  pub metadata : List MetadataPair
  pub seq : ℕ

-- What `memset` of the whole struct leaves.
abbrev pub blank : LogEntry
blank = record {
  node_id = [];
  vc = Clock.zeroed;
  timestamp = 0;
  level = debug;
  message = [];
  metadata = [];
  seq = 0;
}

-- `strncpy` of at most `n` bytes and a NUL behind them; NULL leaves the zeroed array.
abbrev text_or_nil : ℕ → Option Bytes → Bytes
text_or_nil n none = []
text_or_nil n (some s) = take n s

abbrev clock_or_zero : Option VectorClock → VectorClock
clock_or_zero none = Clock.zeroed
clock_or_zero (some vc) = Clock.copy Clock.zeroed vc

-- `now` is what `get_current_timestamp_ms` answers.
unfoldable pub init : ℕ → Option Bytes → Option VectorClock → LogLevel → Option Bytes → LogEntry
unfolding Clock.copy
init now node_id vc level message = record {
  node_id = text_or_nil node_id_max_len node_id;
  vc = clock_or_zero vc;
  timestamp = now;
  level = level;
  message = text_or_nil log_message_max_len message;
  metadata = [];
  seq = 0;
}

unfoldable pub set_timestamp : LogEntry → ℕ → LogEntry
set_timestamp e t = record e { timestamp = t }

-- None where the source returns -1.
unfoldable pub add_metadata : LogEntry → Option Bytes → Option Bytes → Option LogEntry
add_metadata e none value = none
add_metadata e (some key) none = none
add_metadata e (some key) (some value) =
    if leb metadata_max_count (length e.metadata)
    then none
    else some (record e {
      metadata = e.metadata ++ record { key = take 63 key; value = take 255 value } ∷ [];
    })

unfoldable pub find_pair : List MetadataPair → Bytes → Option Bytes
unfolding strcmp
find_pair [] key = none
find_pair (p ∷ ps) key = if str_eq p.key key then some p.value else find_pair ps key

unfoldable pub get_metadata : LogEntry → Option Bytes → Option Bytes
unfolding find_pair
get_metadata e none = none
get_metadata e (some key) = find_pair e.metadata key

-- The sign of a comparison: earlier time first, then the lesser node id.
unfoldable pub compare_by_time : LogEntry → LogEntry → Ordering
unfolding strcmp
compare_by_time a b =
    if a.timestamp == b.timestamp
    then strcmp a.node_id b.node_id
    else if ltb a.timestamp b.timestamp
    then Ordering.lt
    else Ordering.gt

abbrev pub by_relation : Relation → Ordering → Ordering
by_relation happens_before tie = Ordering.lt
by_relation happens_after tie = Ordering.gt
by_relation equal tie = tie
by_relation concurrent tie = tie

-- `log_entry_compare`, whose last two cases both fall back on time and node id.
unfoldable pub compare : LogEntry → LogEntry → Ordering
unfolding compare_by_time
compare a b = by_relation (Clock.compare (some a.vc) (some b.vc)) (compare_by_time a b)
