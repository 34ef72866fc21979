-- ===== src/Tests/Stores.antt =====
-- The laws of the store, on a few entries.
use mathlib.Core.Option.{some-injective}
use vector_clock_good.Common.{
  ℕ, zero, suc, ◌≤◌, ◌++◌, get_or-replicate, ◌≡◌, ◌↔◌, refl, arith, true, false, none, some, List,
  [], ◌∷◌, ◌&&◌, codes, take, get_or, ltb, pos, length, All, Bytes, drop,
}
use vector_clock_good.Entry
use vector_clock_good.Entry.{LogEntry}
use vector_clock_good.Store
use vector_clock_good.Store.{LogStore, Buckets, append, dedup_hash_create, in_chain, calculate_hash}
use vector_clock_good.Store.Dedup.{append_all, distinct}
use vector_clock_good.Store.Dedup.Distinct.{IsTidy, append_all-distinct}
use vector_clock_good.Store.Dedup.Events.{Apart, Covers, append_all-Apart, append_retry}
use vector_clock_good.Store.Compressed.{Lz4, save_compressed, load_compressed}
use vector_clock_good.Store.Compressed.RoundTrip.{IsLossless, load_compressed-save_compressed}
use vector_clock_good.Store.Load.{load_file, plain_lines}
use vector_clock_good.Store.Load.Loaded.{lines_of, parsed, all_given, load_file-distinct}
use vector_clock_good.Store.Query.{Query, query, str_contains}
use vector_clock_good.Store.Query.Contains.{
  matching, query-matching, Occurs, str_contains-iff_Occurs,
}
use vector_clock_good.Store.Index.{
  build_index, query_by_index, query_terms, entries_at, intersect_posting_lists,
}
use vector_clock_good.Store.Index.Merge.{Rising, mem, intersect-mem}
use vector_clock_good.Store.Index.Build.{build_index-mem}
use vector_clock_good.Store.Index.Posting.{posting, has_word}
use vector_clock_good.Store.Index.Answer.{answers, entry_has, query_words, query_by_index-answers}
use vector_clock_good.Entry.Json as EntryJson
use vector_clock_good.Tests.{clock, first, second, apart, store, memory}

abbrev no_chain : Buckets
no_chain i = []

-- What `init` makes.
abbrev empty_store : LogStore
empty_store = record {
  entries = [];
  capacity = 1024;
  sorted = false;
  index = [];
  dedup_hash = some no_chain;
}

-- The first entry arrives twice.
abbrev arrivals : List LogEntry
arrivals = first ∷ (second ∷ (first ∷ []))

unused_after : (a b i : ℕ) → 2 ≤ i → get_or (clock a b).clocks i 0 ≡ 0
unused_after a b zero h = absurd (omega arith)
unused_after a b (suc zero) h = absurd (omega arith)
unused_after a b (suc (suc i)) h = get_or-replicate 30 i

first-IsTidy : IsTidy 2 first
first-IsTidy = record {
  node_id = omega arith;
  cells = refl;
  nodes = refl;
  unused = unused_after 1 0;
}

second-IsTidy : IsTidy 2 second
second-IsTidy = record {
  node_id = omega arith;
  cells = refl;
  nodes = refl;
  unused = unused_after 1 1;
}

append_all-distinct_example : (append_all memory empty_store arrivals).entries ≡ distinct arrivals
unfolding Store.init dedup_hash_create
append_all-distinct_example =
    append_all-distinct memory 2 [] empty_store arrivals refl
      (first-IsTidy, (second-IsTidy, (first-IsTidy, tt)))

append_all-Apart_example :
    Apart (append_all memory empty_store arrivals).entries
    × All (Covers (append_all memory empty_store arrivals).entries) arrivals
unfolding Store.init dedup_hash_create
append_all-Apart_example =
    append_all-Apart memory 2 [] empty_store arrivals refl
      (first-IsTidy, (second-IsTidy, (first-IsTidy, tt)))

-- A store with no room left.
abbrev full : LogStore
full = record { entries = []; capacity = 0; sorted = false; index = []; dedup_hash = some no_chain }

append_retry_example :
    ((append memory true false full first).0 ≡ false)
    × ((append memory true true (append memory true false full first).1 first).0 ≡ true)
    × ((append memory true true (append memory true false full first).1 first).1.entries ≡ [])
unfolding in_chain
append_retry_example = append_retry memory full first no_chain refl (omega arith) (omega arith) refl

failed : Query
failed = record {
  keyword = some (codes "FAIL");
  node_id = none;
  level = none;
  time_start = 0;
  time_end = 0;
}

three : LogStore
three = store (first ∷ (second ∷ (apart ∷ [])))

query-matching_example :
    query three (some failed) (pos 2) ≡ take 2 (matching (some failed) three.entries)
query-matching_example = query-matching three (some failed) 2

str_contains-iff_Occurs_example :
    (str_contains (codes "Login failed") (codes "FAIL") ≡ true)
    ↔ Occurs (codes "Login failed") (codes "FAIL")
str_contains-iff_Occurs_example = str_contains-iff_Occurs (codes "Login failed") (codes "FAIL")

intersect-mem_example :
    Rising 0 9 (intersect_posting_lists (1 ∷ (4 ∷ [])) (4 ∷ (7 ∷ [])))
    × ((i : ℕ)
        → mem i (intersect_posting_lists (1 ∷ (4 ∷ [])) (4 ∷ (7 ∷ [])))
          ≡ (mem i (1 ∷ (4 ∷ [])) && mem i (4 ∷ (7 ∷ []))))
intersect-mem_example = intersect-mem 0 9 (1 ∷ (4 ∷ [])) (4 ∷ (7 ∷ [])) (omega arith) (omega arith)

build_index-mem_example :
    Rising 0 (length three.entries) (posting (build_index three).index (codes "login"))
    × ((j : ℕ)
        → mem j (posting (build_index three).index (codes "login")) ≡ (
            ltb j (length three.entries)
            && has_word (get_or three.entries j Entry.blank) (codes "login")))
build_index-mem_example = build_index-mem three (codes "login")

query_by_index-answers_example :
    let found = query_terms true (build_index three).index (query_words (codes "login failed")) in
    (query_by_index (build_index three) (some (codes "login failed")) true 10
      ≡ entries_at three.entries (take 10 found))
    × Rising 0 (length three.entries) found
    × ((j : ℕ)
        → mem j found ≡ answers true (entry_has three j) (query_words (codes "login failed")))
query_by_index-answers_example = query_by_index-answers three true (codes "login failed") 10

-- A file with a blank line, an event twice, and a line that is no entry.
abbrev file : Bytes
file =
    codes "{\"node_id\":\"a\",\"vector_clock\":{\"node-0\":1,\"node-1\":0},\"timestamp\":1}\n\n"
    ++ (codes
          "{\"node_id\":\"a\",\"vector_clock\":{\"node-0\":1,\"node-1\":0},\"timestamp\":2}\nno entry\n"
        ++ codes "{\"node_id\":\"b\",\"vector_clock\":{\"node-0\":1,\"node-1\":1},\"timestamp\":3}")

load_file-distinct_example :
    let r = load_file memory all_given none (some file) empty_store in
    (r.0 ≡ length (parsed (lines_of none (some file))))
    × (r.1.entries ≡ distinct (parsed (lines_of none (some file))))
unfolding Store.init dedup_hash_create EntryJson.from_json plain_lines
load_file-distinct_example =
    let tidy : (a b : ℕ) → (e : LogEntry) → e.vc ≡ clock a b → length e.node_id ≤ 31 → IsTidy 2 e =
      (λ a b e same short. record {
        node_id = short;
        cells = rw same refl;
        nodes = rw same refl;
        unused = rw same (unused_after a b);
      }) in
    load_file-distinct memory 2 [] empty_store none (some file) refl (
      tidy 1 0 _ refl (omega arith),
      (tidy 1 0 _ refl (omega arith), (tidy 1 1 _ refl (omega arith), tt)),
    )

-- A compressor that copies the text behind one byte.
abbrev plain_lz4 : Lz4
plain_lz4 = record { compress = λ raw. some (0 ∷ raw); decompress = λ block n. some (drop 1 block) }

plain-IsLossless : IsLossless plain_lz4
plain-IsLossless = record {
  back = λ raw block h.
      let same = some-injective _ _ h in (rw (← same) (omega arith), rw (← same) refl);
}

load_compressed-save_compressed_example :
    (file : Bytes) × (save_compressed plain_lz4 true true (codes "{}\n") ≡ some file)
    × (load_compressed plain_lz4 true (some file) ≡ some (codes "{}\n"))
load_compressed-save_compressed_example =
    load_compressed-save_compressed plain_lz4 (codes "{}\n") (0 ∷ codes "{}\n") plain-IsLossless
      refl (omega arith) (omega arith) (omega arith)
