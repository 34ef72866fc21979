-- ===== src/Store/Index/Stale.antt =====
-- Queries by an index that was built before the entries were sorted.
use vector_clock_good.Common.{ℕ, ◌≡◌, refl, ◌∙◌, Bool, Option, List, [], ◌∷◌, Bytes}
use vector_clock_good.Entry.{LogEntry}
use vector_clock_good.Entry
use vector_clock_good.Store.{LogStore, IndexEntry}
use vector_clock_good.Store.Index.{build_index, query_indices, query_by_index, entries_at}
use vector_clock_good.Store.Sort.{Qsort, sort_causal}

-- Building the index leaves the entries, and sorting leaves the index.
build_index-entries : (s : LogStore) → (build_index s).entries ≡ s.entries
unfolding build_index
build_index-entries s = refl

sort_two :
    (qsort : Qsort) (s : LogStore) (a b : LogEntry)
    → s.entries ≡ a ∷ (b ∷ [])
    → qsort Entry.compare (a ∷ (b ∷ [])) ≡ b ∷ (a ∷ [])
    → ((sort_causal qsort s).entries ≡ b ∷ (a ∷ [])) × ((sort_causal qsort s).index ≡ s.index)
unfolding sort_causal
sort_two qsort s a b e q = rw (e, q) (refl, refl)

found_at :
    (s : LogStore) (es : List LogEntry) (index : List IndexEntry) (text : Option Bytes)
    (is_and : Bool) (max : ℕ)
    → s.entries ≡ es
    → s.index ≡ index
    → query_indices index text is_and max ≡ 0 ∷ []
    → query_by_index s text is_and max ≡ entries_at es (0 ∷ [])
unfolding query_by_index
found_at s es index text is_and max e i q = rw (e, i, q) refl

-- If the index of a store of two entries finds the first one, and the causal sort swaps them, then the
-- query answers the first entry before the sort and the other one after it.
pub stale_index :
    (qsort : Qsort) (s : LogStore) (a b : LogEntry) (text : Option Bytes) (is_and : Bool) (max : ℕ)
    → s.entries ≡ a ∷ (b ∷ [])
    → qsort Entry.compare (a ∷ (b ∷ [])) ≡ b ∷ (a ∷ [])
    → query_indices (build_index s).index text is_and max ≡ 0 ∷ []
    → (query_by_index (build_index s) text is_and max ≡ a ∷ [])
      × (query_by_index (sort_causal qsort (build_index s)) text is_and max ≡ b ∷ [])
stale_index qsort s a b text is_and max e q i =
    let built = build_index-entries s ∙ e in
    let (sorted, same) = sort_two qsort (build_index s) a b built q in
    (
      found_at (build_index s) (a ∷ (b ∷ [])) (build_index s).index text is_and max built refl i,
      found_at (sort_causal qsort (build_index s)) (b ∷ (a ∷ [])) (build_index s).index text is_and
          max sorted same i,
    )
