-- ===== src/Tests/Clocks.antt =====
-- The laws of clocks and entries, on small ones.
use vector_clock_good.Common.{
  ℕ, zero, suc, ◌≡◌, ◌↔◌, refl, arith, none, some, Ordering, [], ◌∷◌, ◌++◌, Bytes, codes,
}
use vector_clock_good.Clock
use vector_clock_good.Clock.{
  VectorClock, Relation, happens_before, happens_after, concurrent, increment, merge,
}
use vector_clock_good.Clock.View.{at}
use vector_clock_good.Clock.Compare.{Leq, Verdicts, compare-Verdicts}
use vector_clock_good.Clock.Order.{merge-iff_Leq}
use vector_clock_good.Clock.Json.{to_json, from_json}
use vector_clock_good.Clock.Json.Read.{Fits64}
use vector_clock_good.Clock.Json.RoundTrip.{from_json-to_json}
use vector_clock_good.Entry.{LogEntry, compare}
use vector_clock_good.Entry.Order.{compare_cycle}
use vector_clock_good.Entry.Json as EntryJson
use vector_clock_good.Entry.Json.Fields.{IsPrintable}
use vector_clock_good.Entry.Json.RoundTrip.{IsReadBack, from_json-to_json_entry}
use vector_clock_good.Tests.{clock, clock-IsWellFormed, entry, first, apart}

compare-Verdicts_example :
    Verdicts
      (Clock.compare (some (clock 1 0)) (some (clock 0 1)))
      (Leq (clock 1 0) (clock 0 1))
      (Leq (clock 0 1) (clock 1 0))
compare-Verdicts_example = compare-Verdicts (clock 1 0) (clock 0 1)

merge-iff_Leq_example :
    Leq (merge (clock 1 0) (clock 0 1)) (clock 1 1)
    ↔ (Leq (clock 1 0) (clock 1 1) × Leq (clock 0 1) (clock 1 1))
merge-iff_Leq_example =
    merge-iff_Leq (clock 1 0) (clock 0 1) (clock 1 1) (clock-IsWellFormed 1 0) (omega arith)

-- The node of `late` runs behind: it happened after `apart` and says an earlier time.
abbrev late : LogEntry
late = entry (codes "node-1") (clock 0 2) 1 []

compare_cycle_example :
    (compare late first ≡ Ordering.lt)
    × (compare first apart ≡ Ordering.lt)
    × (compare apart late ≡ Ordering.lt)
unfolding Clock.compare
compare_cycle_example = compare_cycle late first apart refl refl refl (omega arith) (omega arith)

small_counts : Fits64 (clock 3 4)
small_counts zero h = omega arith
small_counts (suc zero) h = omega arith
small_counts (suc (suc i)) h = absurd (omega arith)

from_json-to_json_example :
    (read : VectorClock) × (from_json (clock 7 7) (codes "{\"node-0\":3,\"node-1\":4}") none
      ≡ some read)
    × (read.node_count ≡ 2)
    × ((j : ℕ) → at read j ≡ at (clock 3 4) j)
unfolding to_json
from_json-to_json_example =
    from_json-to_json (clock 7 7) (clock 3 4) 1024 (codes "{\"node-0\":3,\"node-1\":4}")
      (clock-IsWellFormed 3 4) (clock-IsWellFormed 7 7) small_counts refl

-- A message with a quote and a newline, and a pair of metadata.
abbrev quoted_entry : LogEntry
quoted_entry = record (entry (codes "node-0") (clock 3 4) 10 (codes "say \"hi\"\n")) {
  metadata = record { key = codes "pid"; value = codes "7" } ∷ [];
}

abbrev quoted_text : Bytes
quoted_text =
    codes "{\"node_id\":\"node-0\",\"vector_clock\":{\"node-0\":3,\"node-1\":4},\"timestamp\":10,"
    ++ codes "\"level\":\"INFO\",\"message\":\"say \\\"hi\\\"\\n\",\"metadata\":{\"pid\":\"7\"}}"

quoted_entry-IsPrintable : IsPrintable quoted_entry
quoted_entry-IsPrintable = record {
  node_id = omega arith;
  timestamp = omega arith;
  message = omega arith;
  metadata = (record { key = omega arith; value = omega arith }, tt);
}

from_json-to_json_entry_example :
    (read : LogEntry) × (EntryJson.from_json quoted_text ≡ some read) × IsReadBack quoted_entry read
unfolding EntryJson.to_json to_json
from_json-to_json_entry_example =
    from_json-to_json_entry quoted_entry 8192 quoted_text (clock-IsWellFormed 3 4) small_counts
      quoted_entry-IsPrintable refl

-- A field that is not known, and a level.
abbrev two_fields : Bytes
two_fields = codes "\"tags\":[[1],2],\"level\":\"WARN\"}"
