-- ===== src/Store/Query.antt =====
-- The filters of src/store.c: `query_t`, `str_contains`, `store_match_query`, `store_query`.
pub mod Contains
use vector_clock_good.Common.{
  ℕ, Bool, true, false, not, ◌&&◌, Option, none, some, List, [], ◌∷◌, ◌++◌, ltb, ◌==◌,
  if◌then◌else◌, length, take, Bytes, str_eq, strcmp, str_case_eq, ℤ, pos, negsuc,
}
use vector_clock_good.Entry.{LogEntry, log_level_str}
use vector_clock_good.Store.{LogStore}

-- `query_t`; NULL is none, and a time of 0 is no bound.
pub record Query : Type 0 where
  pub keyword : Option Bytes
  pub node_id : Option Bytes
  pub level : Option Bytes
  pub time_start : ℕ
  pub time_end : ℕ

unfoldable pub contains_loop : Bytes → Bytes → Bool
unfolding str_case_eq
contains_loop [] needle = false
contains_loop (c ∷ p) needle =
    if str_case_eq (take (length needle) (c ∷ p)) needle then true else contains_loop p needle

unfoldable pub str_contains : Bytes → Bytes → Bool
unfolding contains_loop
str_contains haystack needle = if length needle == 0 then true else contains_loop haystack needle

-- A filter that is given and is not the empty string lets `test` decide.
abbrev pub passes : Option Bytes → (Bytes → Bool) → Bool
passes none test = true
passes (some []) test = true
passes (some (c ∷ s)) test = test (c ∷ s)

unfoldable pub match_query : LogEntry → Option Query → Bool
unfolding str_contains strcmp str_case_eq log_level_str
match_query e none = true
match_query e (some q) =
    if not (passes q.keyword (str_contains e.message))
    then false
    else if not (passes q.node_id (str_eq e.node_id))
    then false
    else if not (passes q.level (str_case_eq (log_level_str e.level)))
    then false
    else if ltb 0 q.time_start && ltb e.timestamp q.time_start
    then false
    else if ltb 0 q.time_end && ltb q.time_end e.timestamp
    then false
    else true

-- The loop of `store_query`, with the results so far.
unfoldable pub query_loop : Option Query → ℕ → List LogEntry → List LogEntry → List LogEntry
unfolding match_query
query_loop q max_count [] results = results
query_loop q max_count (e ∷ es) results =
    if ltb (length results) max_count
    then query_loop q max_count es (if match_query e q then results ++ e ∷ [] else results)
    else results

unfoldable pub query : LogStore → Option Query → ℤ → List LogEntry
unfolding query_loop
query s q (negsuc n) = []
query s q (pos max_count) = query_loop q max_count s.entries []
