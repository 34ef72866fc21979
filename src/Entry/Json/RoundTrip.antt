-- ===== src/Entry/Json/RoundTrip.antt =====
-- Reading the text of an entry gives the entry back, up to what an escape drops.
use vector_clock_good.Common.{
  ℕ, ◌≡◌, refl, ap, ◌∙◌, some, [], ◌++◌, arith, Bytes, codes, length, skip_spaces,
}
use vector_clock_good.Clock.View.{at, IsWellFormed}
use vector_clock_good.Clock.Json.{expect}
use vector_clock_good.Clock.Json.Read.{Fits64}
use vector_clock_good.Clock.Json.RoundTrip.{from_json-listing}
use vector_clock_good.Entry.{LogEntry, blank}
use vector_clock_good.Entry.Json.{keep_or, json_escape, to_json, from_json}
use vector_clock_good.Entry.Json.Escape.{kept}
use vector_clock_good.Entry.Json.Printed.{from_clock, entry_text, to_json-text}
use vector_clock_good.Entry.Json.Fields.{IsPrintable, read_entry, fields_lem}

-- The entries have the same fields, up to what an escape drops of the texts, and without the
-- metadata and the number of the insertion.
pub record IsReadBack (e read : LogEntry) : Type 0 where
  pub node_id : read.node_id ≡ kept e.node_id
  pub timestamp : read.timestamp ≡ e.timestamp
  pub level : read.level ≡ e.level
  pub message : read.message ≡ kept e.message
  pub metadata : read.metadata ≡ []
  pub node_count : read.vc.node_count ≡ e.vc.node_count
  pub counts : (i : ℕ) → at read.vc i ≡ at e.vc i

pub from_json-text : (e : LogEntry) → IsPrintable e → from_json (entry_text e) ≡ some (read_entry e)
unfolding from_json expect skip_spaces
from_json-text e p =
    fields_lem (length (codes "d\":\"" ++ ((json_escape e.node_id ++ codes "\"") ++ from_clock e)))
      e p

blank-IsWellFormed : IsWellFormed blank.vc
blank-IsWellFormed = record { cells = refl; within = omega arith }

pub read_entry-IsReadBack :
    (e : LogEntry) → IsWellFormed e.vc → Fits64 e.vc → IsReadBack e (read_entry e)
read_entry-IsReadBack e w f =
    let (vc, r, c, a) = from_json-listing blank.vc e.vc w blank-IsWellFormed f in
    record {
      node_id = refl;
      timestamp = refl;
      level = refl;
      message = refl;
      metadata = refl;
      node_count = ap (λ v. (keep_or blank.vc v).node_count) r ∙ c;
      counts = λ i. ap (λ v. at (keep_or blank.vc v) i) r ∙ a i;
    }

-- An entry that `log_entry_to_json` prints, into a buffer that is large enough, is read by
-- `log_entry_from_json` as an entry with the same timestamp, level, and counts for the same number
-- of nodes, whose node and message have the bytes that an escape keeps (the printable ones,
-- newlines and tabs), and which has no metadata and the number 0. The clock is well-formed and
-- its counts and the timestamp fit 64 bits, the texts fit their arrays, and the metadata has no
-- braces.
pub from_json-to_json_entry :
    (e : LogEntry) (size : ℕ) (text : Bytes)
    → IsWellFormed e.vc
    → Fits64 e.vc
    → IsPrintable e
    → to_json e size ≡ some text
    → (read : LogEntry) × (from_json text ≡ some read) × IsReadBack e read
from_json-to_json_entry e size text w f p h = (
  read_entry e,
  ap from_json (to_json-text e size text h) ∙ from_json-text e p,
  read_entry-IsReadBack e w f,
)
