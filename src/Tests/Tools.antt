-- ===== src/Tests/Tools.antt =====
-- The command lines, on short ones, and the query tool on a small store.
use mathlib.Core.List.{Perm}
use vector_clock_good.Common.{
  ◌≤◌, ◌≡◌, ◌<◌, ◌⊎◌, refl, arith, some, List, [], ◌∷◌, ◌++◌, Bytes, codes, length, take, get_or,
  print_nat,
}
use vector_clock_good.Entry.{LogEntry, compare_by_time}
use vector_clock_good.Store.Query.Contains.{matching}
use vector_clock_good.Store.Sort.Sorted.{IsSorted}
use vector_clock_good.Store.Stats.{get_stats, occurrences, get_stats-occurrences}
use vector_clock_good.Tools.{parse_args}
use vector_clock_good.Tools.Agent as AgentTool
use vector_clock_good.Tools.Agent.{parse_server_addr}
use vector_clock_good.Tools.Server as ServerTool
use vector_clock_good.Tools.Query as QueryTool
use vector_clock_good.Tools.Query.{by_time, answer}
use vector_clock_good.Tools.Configs.{IsConfig, arguments-IsConfig}
use vector_clock_good.Tools.Address.{parse_server_addr-print}
use vector_clock_good.Tools.Rounds.{parse_args-Ends}
use vector_clock_good.Tools.Arguments.{Ends}
use vector_clock_good.Tools.Answer.{answer_by_time}
use vector_clock_good.Tests.{store, first, second, apart}
use vector_clock_good.Tests.Sorting.{insertion_sort, insertion_sort-IsQsort}

abbrev agent_args : List Bytes
agent_args =
    codes "-n"
    ∷ (codes "node-01"
        ∷ (codes "-f" ∷ (codes "app.log" ∷ (codes "-s" ∷ (codes "127.0.0.1:9999" ∷ [])))))

arguments-IsConfig_example : IsConfig (record {
  config = record {
    node_id = codes "node-01";
    log_path = codes "app.log";
    server_host = codes "127.0.0.1";
    server_port = 9999;
    poll_interval_ms = 1000;
  };
  node_count = 3;
})
unfolding AgentTool.arguments
arguments-IsConfig_example = arguments-IsConfig agent_args _ refl

parse_server_addr-print_example :
    parse_server_addr (codes "::1" ++ b':' ∷ codes "9999") 128 ≡ some (codes "::1", 9999)
unfolding print_nat
parse_server_addr-print_example =
    parse_server_addr-print (codes "::1") 9999 128 (omega arith) (omega arith) (omega arith)

parse_args-Ends_example :
    Ends AgentTool.option AgentTool.defaults agent_args
      (parse_args AgentTool.option AgentTool.defaults agent_args)
    × Ends ServerTool.option ServerTool.defaults agent_args
        (parse_args ServerTool.option ServerTool.defaults agent_args)
    × Ends QueryTool.option QueryTool.defaults agent_args
        (parse_args QueryTool.option QueryTool.defaults agent_args)
parse_args-Ends_example = parse_args-Ends agent_args

get_stats-occurrences_example :
    let s = store (first ∷ (apart ∷ (second ∷ []))) in
    (get_or (get_stats s).node_counts 1 0 ≡ occurrences 1 s.entries)
    × ((get_stats s).total ≡ 3)
    × ((get_stats s).node_count ≤ 32)
    × ((occurrences 1 s.entries ≡ 0) ⊎ (1 < (get_stats s).node_count))
get_stats-occurrences_example =
    get_stats-occurrences (store (first ∷ (apart ∷ (second ∷ [])))) 1 (omega arith)

-- The first entry of node-1 by time.
abbrev options : QueryTool.Options
options = record (QueryTool.defaults) {
  query = record (QueryTool.defaults.query) { node_id = some (codes "node-1") };
  max_results = 1;
  sort_mode = by_time;
}

answer_by_time_example :
    let s = store (first ∷ (apart ∷ (second ∷ []))) in
    (es : List LogEntry) × Perm s.entries es
    × IsSorted compare_by_time es
    × ((answer insertion_sort options s).listed ≡ take 1 (matching (some options.query) es))
    × ((answer insertion_sort options s).result_count ≡ length (matching (some options.query) es))
answer_by_time_example =
    answer_by_time insertion_sort options (store (first ∷ (apart ∷ (second ∷ []))))
      insertion_sort-IsQsort refl refl refl
