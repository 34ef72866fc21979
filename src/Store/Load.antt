-- ===== src/Store/Load.antt =====
-- `store_load_file`: the lines of a file of JSON texts, compressed or not, into the store.
pub mod Loaded
use vector_clock_good.Common.{
  ℕ, ◌+◌, Bool, true, false, Option, none, some, List, [], ◌∷◌, ◌++◌, ◌==◌, if◌then◌else◌, Bytes,
  fgets_lines,
}
use vector_clock_good.Clock.{VectorClock}
use vector_clock_good.Entry.{LogEntry}
use vector_clock_good.Entry.Json as EntryJson
use vector_clock_good.Store.{LogStore, append}

-- What stands in front of each newline, and behind the last one.
abbrev split_lines : Bytes → Bytes → List Bytes
split_lines line [] = line ∷ []
split_lines line (c ∷ s) =
    let rest = split_lines (if c == b'\n' then [] else line ++ c ∷ []) s in
    if c == b'\n' then line ∷ rest else rest

-- The text without this byte at its end.
abbrev trim_last : ℕ → Bytes → Bytes
trim_last b [] = []
trim_last b (c ∷ []) = if c == b then [] else c ∷ []
trim_last b (c ∷ (d ∷ s)) = c ∷ trim_last b (d ∷ s)

abbrev trim_all : ℕ → List Bytes → List Bytes
trim_all b [] = []
trim_all b (line ∷ lines) = trim_last b line ∷ trim_all b lines

abbrev is_blank : Bytes → Bool
is_blank [] = true
is_blank (c ∷ s) = c == b'\n'

abbrev without_blank : List Bytes → List Bytes
without_blank [] = []
without_blank (line ∷ lines) =
    let rest = without_blank lines in if is_blank line then rest else line ∷ rest

-- The lines of a decompressed text, without a carriage return at the end; empty ones are skipped.
unfoldable pub decompressed_lines : Bytes → List Bytes
decompressed_lines text = without_blank (trim_all b'\r' (split_lines [] text))

-- The lines that `fgets` reads into 4096 bytes, without their newline; empty ones are skipped.
unfoldable pub plain_lines : Bytes → List Bytes
unfolding fgets_lines
plain_lines text = trim_all b'\n' (without_blank (fgets_lines 4095 text))

-- `memory` is how a clock lies in memory, and `given` whether the allocations of a line succeed.
module _ (memory : VectorClock → Bytes) (given : ℕ → Bool × Bool) where
  abbrev pub load_parsed : ℕ → ℕ × LogStore → Option LogEntry → ℕ × LogStore
  load_parsed i (loaded, s) none = (loaded, s)
  load_parsed i (loaded, s) (some e) =
      let done = append memory (given i).0 (given i).1 s e in
      (if done.0 then loaded + 1 else loaded, done.1)

  -- The count of lines that were taken, and the store.
  unfoldable pub load_lines : ℕ → ℕ × LogStore → List Bytes → ℕ × LogStore
  unfolding EntryJson.from_json append
  load_lines i acc [] = acc
  load_lines i acc (line ∷ lines) =
      load_lines (i + 1) (load_parsed i acc (EntryJson.from_json line)) lines

  -- `decompressed` is what `store_load_compressed` gives, if the file is a compressed one, and `plain`
  -- what the file holds, if it can be opened.
  unfoldable pub load_file : Option Bytes → Option Bytes → LogStore → ℕ × LogStore
  unfolding load_lines decompressed_lines plain_lines
  load_file (some text) plain s = load_lines 0 (0, s) (decompressed_lines text)
  load_file none (some text) s = load_lines 0 (0, s) (plain_lines text)
  load_file none none s = (0, s)
