-- ===== src/Tools/Query.antt =====
-- src/main_query.c
use vector_clock_good.Common.{
  ℕ, ◌==◌, if◌then◌else◌, ltb, Bool, true, false, ℤ, pos, negsuc, Option, none, some, List, [], ◌∷◌,
  length, take, Bytes, codes, str_eq, strcmp, atoi,
}
use vector_clock_good.Entry.{LogEntry}
use vector_clock_good.Store.{LogStore}
use vector_clock_good.Store.Query as StoreQuery
use vector_clock_good.Store.Index.{build_index, query_by_index}
use vector_clock_good.Store.Sort.{Qsort, sort_causal, sort_by_time, sort_by_node}
use vector_clock_good.Store.Stats.{get_stats, stats_rows}
use vector_clock_good.Store.Graph.{Edge, edges}
use vector_clock_good.Tools.{
  Parsed, parsed, usage, failed, Next, onward, stop_usage, stop_failed, value_then, parse_args,
  strtoull,
}

-- `sort_mode_t`
pub data SortMode : Type 0 where
  by_cause by_time by_node : SortMode

pub record Options : Type 0 where
  pub storage_dir : Bytes
  pub query : StoreQuery.Query
  pub max_results : ℕ
  pub sort_mode : SortMode
  pub stats_only : Bool
  pub is_and_mode : Bool
  pub dot_output_path : Option Bytes

abbrev pub defaults : Options
defaults = record {
  storage_dir = [];
  query = record { keyword = none; node_id = none; level = none; time_start = 0; time_end = 0 };
  max_results = 100;
  sort_mode = by_cause;
  stats_only = false;
  is_and_mode = true;
  dot_output_path = none;
}

-- A count that is not positive is taken for 100.
abbrev pub count_or : ℤ → ℕ
count_or (negsuc n) = 100
count_or (pos n) = if n == 0 then 100 else n

abbrev pub with_sort : Options → List Bytes → Bytes → Next Options
with_sort o rest v =
    if str_eq v (codes "causal")
    then onward (record o { sort_mode = by_cause }) rest
    else if str_eq v (codes "time")
    then onward (record o { sort_mode = by_time }) rest
    else if str_eq v (codes "node")
    then onward (record o { sort_mode = by_node }) rest
    else stop_failed

-- `--dot` at the end is passed over.
abbrev pub with_dot : Options → List Bytes → Next Options
with_dot o [] = onward o []
with_dot o (v ∷ rest) = onward (record o { dot_output_path = some v }) rest

-- The body of the loop over argv.
unfoldable pub option : Options → Bytes → List Bytes → Next Options
unfolding strcmp atoi strtoull
option o arg rest =
    if str_eq arg (codes "-d")
    then value_then rest (λ v rest. onward (record o { storage_dir = take 255 v }) rest)
    else if str_eq arg (codes "-k")
    then value_then rest
        (λ v rest. onward (record o { query = record (o.query) { keyword = some v } }) rest)
    else if str_eq arg (codes "-n")
    then value_then rest
        (λ v rest. onward (record o { query = record (o.query) { node_id = some v } }) rest)
    else if str_eq arg (codes "-l")
    then value_then rest
        (λ v rest. onward (record o { query = record (o.query) { level = some v } }) rest)
    else if str_eq arg (codes "-s")
    then value_then rest
        (λ v rest. onward (record o { query = record (o.query) { time_start = strtoull v } }) rest)
    else if str_eq arg (codes "-e")
    then value_then rest
        (λ v rest. onward (record o { query = record (o.query) { time_end = strtoull v } }) rest)
    else if str_eq arg (codes "-c")
    then value_then rest (λ v rest. onward (record o { max_results = count_or (atoi v) }) rest)
    else if str_eq arg (codes "--sort")
    then value_then rest (λ v rest. with_sort o rest v)
    else if str_eq arg (codes "--stats")
    then onward (record o { stats_only = true }) rest
    else if str_eq arg (codes "-h")
    then stop_usage
    else if str_eq arg (codes "--or")
    then onward (record o { is_and_mode = false }) rest
    else if str_eq arg (codes "--dot")
    then with_dot o rest
    else stop_failed

abbrev pub checked : Parsed Options → Parsed Options
checked (parsed o) = if length o.storage_dir == 0 then failed else parsed o
checked usage = usage
checked failed = failed

unfoldable pub arguments : List Bytes → Parsed Options
unfolding parse_args option
arguments args = checked (parse_args option defaults args)

-- What the program prints: the exit code, the count of the results with those that are listed, the
-- rows of the statistics, and the edges of the graph with the file that they go to.
pub record Report : Type 0 where
  pub code : ℕ
  pub result_count : ℕ
  pub listed : List LogEntry
  pub statistics : Option (ℕ × List (ℕ × ℕ))
  pub graph : Option (Bytes × List Edge)

abbrev pub nothing : ℕ → Report
nothing code = record {
  code = code;
  result_count = 0;
  listed = [];
  statistics = none;
  graph = none;
}

unfoldable pub print_stats : LogStore → ℕ × List (ℕ × ℕ)
unfolding get_stats stats_rows
print_stats s = let t = get_stats s in (t.total, stats_rows t.node_count 0 t.node_counts)

abbrev pub is_given : Option Bytes → Bool
is_given none = false
is_given (some s) = ltb 0 (length s)

-- By the index if there is a keyword, and by the filters otherwise.
unfoldable pub results : Options → LogStore → List LogEntry
unfolding query_by_index StoreQuery.query
results o s =
    if is_given o.query.keyword
    then query_by_index s o.query.keyword o.is_and_mode (length s.entries)
    else StoreQuery.query s (some o.query) (pos (length s.entries))

abbrev graph_of : LogStore → Option Bytes → Option (Bytes × List Edge)
graph_of s none = none
graph_of s (some path) = some (path, edges s.entries)

module _ (qsort : Qsort) where
  abbrev pub sort_store : SortMode → LogStore → LogStore
  sort_store by_cause s = sort_causal qsort s
  sort_store by_time s = sort_by_time qsort s
  sort_store by_node s = sort_by_node qsort s

  -- From the store on that was loaded and is not empty. The memory for the results and the file of the
  -- graph can be had.
  unfoldable pub answer : Options → LogStore → Report
  unfolding build_index sort_causal sort_by_time sort_by_node print_stats results edges
  answer o loaded =
      let s = sort_store o.sort_mode (build_index loaded) in
      let found = results o s in
      if o.stats_only then record (nothing 0) { statistics = some (print_stats s) } else record {
        code = 0;
        result_count = length found;
        listed = take o.max_results found;
        statistics = none;
        graph = graph_of s o.dot_output_path;
      }

  -- `load` is what `store_init` and `store_load_dir` make of the directory: the count of the lines that
  -- were loaded with the store, or none where one of them fails.
  unfoldable pub main : (Bytes → Option (ℕ × LogStore)) → List Bytes → Report
  unfolding arguments answer
  main load args = elim (arguments args) [
    | usage ↦ nothing 0
    | failed ↦ nothing 1
    | parsed o ↦ elim (load o.storage_dir) [
      | none ↦ nothing 1
      | some (count, s) ↦ if count == 0 then nothing 0 else answer o s
    ]
  ]
