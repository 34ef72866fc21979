-- ===== src/Store/Load/Loaded.antt =====
-- What a file leaves in the store, while memory is given.
use mathlib.Core.Path.{subst}
use vector_clock_good.Common.{
  ℕ, ◌+◌, ◌≡◌, refl, ap, sym, ◌∙◌, Bool, true, Option, none, some, List, [], ◌∷◌, Bytes, arith,
  length, if_any, All,
}
use vector_clock_good.Clock.{VectorClock}
use vector_clock_good.Entry.{LogEntry}
use vector_clock_good.Entry.Json as EntryJson
use vector_clock_good.Store.{
  LogStore, IndexEntry, append, append_new, expand, dedup_hash_check_and_insert, init,
  dedup_hash_create,
}
use vector_clock_good.Store.Dedup.{append_all, distinct}
use vector_clock_good.Store.Dedup.Distinct.{IsTidy, append_all-distinct}
use vector_clock_good.Store.Load.{
  load_parsed, load_lines, load_file, decompressed_lines, plain_lines,
}

abbrev with_entry : Option LogEntry → List LogEntry → List LogEntry
with_entry none es = es
with_entry (some e) es = e ∷ es

-- The entries of the lines that are entries.
abbrev pub parsed : List Bytes → List LogEntry
parsed [] = []
parsed (line ∷ lines) = with_entry (EntryJson.from_json line) (parsed lines)

abbrev pub lines_of : Option Bytes → Option Bytes → List Bytes
lines_of (some text) plain = decompressed_lines text
lines_of none (some text) = plain_lines text
lines_of none none = []

-- Memory for every allocation.
abbrev pub all_given : ℕ → Bool × Bool
all_given i = (true, true)

append_new-true : (s : LogStore) (e : LogEntry) → (append_new true s e).0 ≡ true
unfolding append_new expand
append_new-true s e = ground arith

module _ (memory : VectorClock → Bytes) where
  -- A duplicate is taken, too.
  append-true : (s : LogStore) (e : LogEntry) → (append memory true true s e).0 ≡ true
  unfolding append
  append-true s e =
      let checked = dedup_hash_check_and_insert memory true s.dedup_hash e.node_id e.vc in
      let s' : LogStore = record s { dedup_hash = checked.1 } in
      if_any (λ (r : Bool × LogStore). r.0 ≡ true) checked.0 (true, s') (append_new true s' e) refl
        (append_new-true s' e)

  load_lines_next :
      (i : ℕ) (acc : ℕ × LogStore) (line : Bytes) (lines : List Bytes)
      → load_lines memory all_given i acc (line ∷ lines)
        ≡ load_lines memory all_given
            (i + 1)
            (load_parsed memory all_given i acc (EntryJson.from_json line))
            lines
  unfolding load_lines
  load_lines_next i acc line lines = refl

  load_lines_end : (i : ℕ) (acc : ℕ × LogStore) → load_lines memory all_given i acc [] ≡ acc
  unfolding load_lines
  load_lines_end i acc = refl

  IsLoaded : ℕ → LogStore → List LogEntry → ℕ × LogStore → Type 0
  IsLoaded n s es r = (r.0 ≡ n + length es) × (r.1 ≡ append_all memory s es)

  load_lines-IsLoaded :
      (i n : ℕ) (s : LogStore) (lines : List Bytes)
      → IsLoaded n s (parsed lines) (load_lines memory all_given i (n, s) lines)
  unfolding IsLoaded
  load_lines-IsLoaded i n s [] = rw (load_lines_end i (n, s)) (omega arith, refl)
  load_lines-IsLoaded i n s (line ∷ lines) =
      subst (IsLoaded n s (parsed (line ∷ lines))) (sym (load_lines_next i (n, s) line lines))
        (elim (EntryJson.from_json line)
          as (λ m.
            IsLoaded n s (with_entry m (parsed lines)) (
              load_lines memory all_given (i + 1) (load_parsed memory all_given i (n, s) m)
                lines)) [
                  | none ↦ load_lines-IsLoaded (i + 1) n s lines
                  | some e ↦
                      let done = append memory true true s e in
                      let (count, stored) = load_lines-IsLoaded (i + 1) (n + 1) done.1 lines in
                      rw (append-true s e) (omega (arith, count), stored)
                ])

  -- If memory is given, and the lines are of a system of one number of nodes, in that the entries read
  -- from them have node ids that fit the table and zero in the unused cells of their clocks, loading a
  -- file into a fresh store answers the number of lines that are entries, duplicates among them, and
  -- leaves the first entry of each event, in the order of the lines, where two entries are of one event
  -- if they have the same node id and equal clocks. The lines are those of the decompressed text, or
  -- else of the plain file; a file that cannot be opened has none.
  pub load_file-distinct :
      (n : ℕ) (index : List IndexEntry) (s : LogStore) (decompressed plain : Option Bytes)
      → init index true (dedup_hash_create true) ≡ some s
      → All (IsTidy n) (parsed (lines_of decompressed plain))
      → let r = load_file memory all_given decompressed plain s in
        (r.0 ≡ length (parsed (lines_of decompressed plain)))
        × (r.1.entries ≡ distinct (parsed (lines_of decompressed plain)))
  unfolding load_file IsLoaded
  load_file-distinct n index s (some text) plain h tidy =
      let (count, stored) = load_lines-IsLoaded 0 0 s (decompressed_lines text) in
      (
        omega (arith, count),
        ap (λ (t : LogStore). t.entries) stored
            ∙ append_all-distinct memory n index s (parsed (decompressed_lines text)) h tidy,
      )
  load_file-distinct n index s none (some text) h tidy =
      let (count, stored) = load_lines-IsLoaded 0 0 s (plain_lines text) in
      (
        omega (arith, count),
        ap (λ (t : LogStore). t.entries) stored
            ∙ append_all-distinct memory n index s (parsed (plain_lines text)) h tidy,
      )
  load_file-distinct n index s none none h tidy =
      (refl, append_all-distinct memory n index s [] h tidy)
