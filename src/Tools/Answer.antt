-- ===== src/Tools/Answer.antt =====
-- What the query tool answers.
use mathlib.Core.List.{Perm}
use vector_clock_good.Common.{
  ℕ, ◌≤◌, zero, suc, ◌≡◌, ap, ◌∙◌, arith, Bool-cases, inl, inr, false, Option, some, List, [], ◌∷◌,
  length, take,
}
use vector_clock_good.Entry.{LogEntry, compare_by_time}
use vector_clock_good.Store.{LogStore}
use vector_clock_good.Store.Query as StoreQuery
use vector_clock_good.Store.Query.{match_query}
use vector_clock_good.Store.Query.Contains.{matching, take-nil, query-matching}
use vector_clock_good.Store.Index.{build_index}
use vector_clock_good.Store.Sort.{Qsort, sort_by_time}
use vector_clock_good.Store.Sort.Sorted.{IsQsort, IsSorted, sort_by_time-IsSortOf}
use vector_clock_good.Tools.Query.{Options, by_time, is_given, results, answer}

length-matching :
    (q : Option StoreQuery.Query) (es : List LogEntry) → length (matching q es) ≤ length es
length-matching q [] = omega arith
length-matching q (e ∷ es) = elim (Bool-cases (match_query e q)) [
  | inl b ↦ rw b (omega (arith, length-matching q es))
  | inr b ↦ rw b (omega (arith, length-matching q es))
]

take_enough : (n : ℕ) (es : List LogEntry) → length es ≤ n → take n es ≡ es
take_enough n [] h = take-nil n
take_enough zero (e ∷ es) h = absurd (omega arith)
take_enough (suc n) (e ∷ es) h = ap (λ fs. e ∷ fs) (take_enough n es (omega arith))

-- Without a keyword, the results are all entries that pass the filters.
results-matching :
    (o : Options) (s : LogStore)
    → is_given o.query.keyword ≡ false
    → results o s ≡ matching (some o.query) s.entries
unfolding results
results-matching o s g = rw g (
    query-matching s (some o.query) (length s.entries)
    ∙ take_enough (length s.entries) (matching (some o.query) s.entries)
        (length-matching (some o.query) s.entries))

-- Sorted by time and without a keyword or the option for statistics, the program lists the entries
-- that pass the filters, the first `max_results` of them, in the order of a list that has the entries
-- of the store as often, none behind a later one (given a `qsort` as documented); it counts all that
-- pass.
pub answer_by_time :
    (qsort : Qsort) (o : Options) (s : LogStore)
    → IsQsort qsort
    → o.sort_mode ≡ by_time
    → o.stats_only ≡ false
    → is_given o.query.keyword ≡ false
    → (es : List LogEntry) × Perm s.entries es
      × IsSorted compare_by_time es
      × ((answer qsort o s).listed ≡ take o.max_results (matching (some o.query) es))
      × ((answer qsort o s).result_count ≡ length (matching (some o.query) es))
unfolding answer build_index
answer_by_time qsort o s q mode stats keyword =
    let sorted = sort_by_time qsort (build_index s) in
    let (same, order) = sort_by_time-IsSortOf qsort (build_index s) q in
    let found = results-matching o sorted keyword in
    (
      sorted.entries,
      same,
      order,
      rw (mode, stats) (ap (λ r. take o.max_results r) found),
      rw (mode, stats) (ap length found),
    )
