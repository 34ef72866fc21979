-- ===== src/Store/Sort.antt =====
-- Sorting the entries of the store: `store_sort_causal`, `store_sort_by_time`, `store_sort_by_node`.
pub mod Sorted
use vector_clock_good.Common.{
  ℕ, suc, ◌≡◌, Bool, true, false, List, [], ◌∷◌, Ordering, ltb, ◌==◌, if◌then◌else◌, strcmp,
}
use vector_clock_good.Entry.{LogEntry}
use vector_clock_good.Entry
use vector_clock_good.Store.{LogStore}

-- A comparator, and a sort like `qsort` of the C library.
abbrev pub Comparator : Type 0
Comparator = LogEntry → LogEntry → Ordering

abbrev pub Qsort : Type 0
Qsort = Comparator → List LogEntry → List LogEntry

unfoldable pub compare_node : Comparator
unfolding strcmp
compare_node a b = elim (strcmp a.node_id b.node_id) [
  | Ordering.lt ↦ Ordering.lt
  | Ordering.gt ↦ Ordering.gt
  | Ordering.eq ↦
      if a.timestamp == b.timestamp
      then Ordering.eq
      else if ltb a.timestamp b.timestamp
      then Ordering.lt
      else Ordering.gt
]

module _ (qsort : Qsort) where
  -- At most one entry is left alone.
  abbrev pub sort_with : Comparator → LogStore → List LogEntry → LogStore
  sort_with cmp s [] = s
  sort_with cmp s (e ∷ []) = s
  sort_with cmp s (e ∷ (f ∷ es)) = record s { entries = qsort cmp s.entries; sorted = true }

  unfoldable pub sort_causal : LogStore → LogStore
  unfolding Entry.compare
  sort_causal s = sort_with Entry.compare s s.entries

  unfoldable pub sort_by_time : LogStore → LogStore
  unfolding Entry.compare_by_time
  sort_by_time s = sort_with Entry.compare_by_time s s.entries

  unfoldable pub sort_by_node : LogStore → LogStore
  unfolding compare_node
  sort_by_node s = sort_with compare_node s s.entries
