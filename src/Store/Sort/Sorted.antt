-- ===== src/Store/Sort/Sorted.antt =====
-- What the sorts of the store promise, given a `qsort` that sorts by a consistent comparator.
use mathlib.Core.List.{Perm}
use mathlib.Core.List.Perm
use vector_clock_good.Common.{
  ◌<◌, ◌≡◌, ◌≢◌, refl, sym, ap, ◌∙◌, some, List, [], ◌∷◌, Ordering, flip, arith, strcmp-flip,
  strcmp_trans, strcmp-eq, All,
}
use vector_clock_good.Clock
use vector_clock_good.Clock.{Relation, happens_before, happens_after}
use vector_clock_good.Clock.Order.{compare-converse, converse}
use vector_clock_good.Entry.{LogEntry, compare, compare_by_time}
use vector_clock_good.Entry.Order.{
  compare-by_time, compare-flip, compare_by_time-flip, compare_by_time_trans,
}
use vector_clock_good.Store.{LogStore}
use vector_clock_good.Store.Sort.{
  Comparator, Qsort, compare_node, sort_with, sort_causal, sort_by_time, sort_by_node,
}

-- The entries of `P` stand in one order by the comparator, up to ties.
pub record IsConsistent (P : LogEntry → Type 0) (cmp : Comparator) : Type 0 where
  pub flips : (a b : LogEntry) → P a → P b → cmp b a ≡ flip (cmp a b)
  pub trans :
      (a b c : LogEntry)
      → P a
      → P b
      → P c
      → cmp a b ≡ Ordering.lt
      → cmp b c ≡ Ordering.lt
      → cmp a c ≡ Ordering.lt
  pub ties : (a b c : LogEntry) → P a → P b → P c → cmp a b ≡ Ordering.eq → cmp a c ≡ cmp b c

-- No entry is greater than one behind it.
abbrev pub IsSorted : Comparator → List LogEntry → Type 0
IsSorted cmp [] = Unit {0}
IsSorted cmp (e ∷ es) = All (λ f. cmp e f ≢ Ordering.gt) es × IsSorted cmp es

-- What the C library documents of `qsort`, for a comparator that is consistent on the array.
pub record IsQsort (qsort : Qsort) : Type 1 where
  pub permutes :
      (P : LogEntry → Type 0) (cmp : Comparator) (es : List LogEntry)
      → IsConsistent P cmp
      → All P es
      → Perm es (qsort cmp es)
  pub sorts :
      (P : LogEntry → Type 0) (cmp : Comparator) (es : List LogEntry)
      → IsConsistent P cmp
      → All P es
      → IsSorted cmp (qsort cmp es)

compare_by_time-ties :
    (a b c : LogEntry)
    → compare_by_time a b ≡ Ordering.eq
    → compare_by_time a c ≡ compare_by_time b c
unfolding compare_by_time
compare_by_time-ties a b c h = ground (arith, strcmp-eq a.node_id b.node_id)

compare_by_time-IsConsistent : (P : LogEntry → Type 0) → IsConsistent P compare_by_time
compare_by_time-IsConsistent P = record {
  flips = λ a b p q. compare_by_time-flip a b;
  trans = λ a b c p q r h k. compare_by_time_trans a b c h k;
  ties = λ a b c p q r h. compare_by_time-ties a b c h;
}

compare_node-IsConsistent : (P : LogEntry → Type 0) → IsConsistent P compare_node
unfolding compare_node
compare_node-IsConsistent P = record {
  flips = λ a b p q. ground (arith, strcmp-flip a.node_id b.node_id);
  trans = λ a b c p q r h k. ground (
    arith,
    strcmp_trans a.node_id b.node_id c.node_id,
    strcmp-eq a.node_id b.node_id,
    strcmp-eq b.node_id c.node_id,
  );
  ties = λ a b c p q r h. ground (arith, strcmp-eq a.node_id b.node_id);
}

-- Timestamps rise along the causal order.
abbrev pub IsTimely : (LogEntry → Type 0) → Type 0
IsTimely P =
    (a b : LogEntry)
    → P a
    → P b
    → Clock.compare (some a.vc) (some b.vc) ≡ happens_before
    → a.timestamp < b.timestamp

-- No entry happened after one behind it.
abbrev pub IsCausal : List LogEntry → Type 0
IsCausal [] = Unit {0}
IsCausal (e ∷ es) =
    All (λ f. Clock.compare (some e.vc) (some f.vc) ≢ happens_after) es × IsCausal es

module _ (qsort : Qsort) where
  -- The entries of the second store are those of the first, in an order by the comparator.
  abbrev pub IsSortOf : Comparator → LogStore → LogStore → Type 0
  IsSortOf cmp s t = Perm s.entries t.entries × IsSorted cmp t.entries

  sort_with-IsSortOf :
      (P : LogEntry → Type 0) (cmp : Comparator) (s : LogStore) (es : List LogEntry)
      → IsQsort qsort
      → IsConsistent P cmp
      → s.entries ≡ es
      → All P es
      → IsSortOf cmp s (sort_with qsort cmp s es)
  sort_with-IsSortOf P cmp s [] q c e h = (Perm.refl _, rw e tt)
  sort_with-IsSortOf P cmp s (x ∷ []) q c e h = (Perm.refl _, rw e (tt, tt))
  sort_with-IsSortOf P cmp s (x ∷ (y ∷ es)) q c e h =
      (q.permutes P cmp s.entries c (rw e h), q.sorts P cmp s.entries c (rw e h))

  All-unit : (es : List LogEntry) → All (λ e. Unit {0}) es
  All-unit [] = tt
  All-unit (e ∷ es) = (tt, All-unit es)

  -- Given a `qsort` as documented, sorting by time keeps the entries, and leaves none in front of one
  -- with an earlier time, or with the same time and a lesser node id.
  pub sort_by_time-IsSortOf :
      (s : LogStore) → IsQsort qsort → IsSortOf compare_by_time s (sort_by_time qsort s)
  unfolding sort_by_time
  sort_by_time-IsSortOf s q =
      sort_with-IsSortOf (λ e. Unit {0}) compare_by_time s s.entries q
        (compare_by_time-IsConsistent _) refl (All-unit s.entries)

  -- Given a `qsort` as documented, sorting by node keeps the entries, and leaves none in front of one
  -- with a lesser node id, or with the same node id and an earlier time.
  pub sort_by_node-IsSortOf :
      (s : LogStore) → IsQsort qsort → IsSortOf compare_node s (sort_by_node qsort s)
  unfolding sort_by_node
  sort_by_node-IsSortOf s q =
      sort_with-IsSortOf (λ e. Unit {0}) compare_node s s.entries q (compare_node-IsConsistent _)
        refl (All-unit s.entries)

  timely_time :
      (P : LogEntry → Type 0) (a b : LogEntry)
      → IsTimely P
      → P a
      → P b
      → compare a b ≡ compare_by_time a b
  timely_time P a b t p q =
      compare-by_time a b (t a b p q)
        (λ h. t b a q p (compare-converse (some a.vc) (some b.vc) ∙ ap converse h))

  -- Where timestamps rise along the causal order, the comparator is consistent.
  compare-IsConsistent : (P : LogEntry → Type 0) → IsTimely P → IsConsistent P compare
  compare-IsConsistent P t = record {
    flips = λ a b p q. compare-flip a b;
    trans = λ a b c p q r h k.
        timely_time P a c t p r
        ∙ compare_by_time_trans a b c (sym (timely_time P a b t p q) ∙ h)
            (sym (timely_time P b c t q r) ∙ k);
    ties = λ a b c p q r h.
        timely_time P a c t p r
        ∙ compare_by_time-ties a b c (sym (timely_time P a b t p q) ∙ h)
        ∙ sym (timely_time P b c t q r);
  }

  not_after :
      (e f : LogEntry)
      → compare e f ≢ Ordering.gt
      → Clock.compare (some e.vc) (some f.vc) ≢ happens_after
  unfolding compare
  not_after e f h a = h (rw a refl)

  All-not_after :
      (e : LogEntry) (es : List LogEntry)
      → All (λ f. compare e f ≢ Ordering.gt) es
      → All (λ f. Clock.compare (some e.vc) (some f.vc) ≢ happens_after) es
  All-not_after e [] h = tt
  All-not_after e (f ∷ es) (k, h) = (not_after e f k, All-not_after e es h)

  sorted-IsCausal : (es : List LogEntry) → IsSorted compare es → IsCausal es
  sorted-IsCausal [] h = tt
  sorted-IsCausal (e ∷ es) (k, h) = (All-not_after e es k, sorted-IsCausal es h)

  -- Given a `qsort` as documented, and entries of a kind on which `log_entry_compare` is consistent, in
  -- that what comes first is transitive and entries that tie compare alike with every other, the causal
  -- sort keeps the entries and leaves none in front of one that it happened after, whatever their
  -- timestamps.
  pub sort_causal-IsCausal :
      (P : LogEntry → Type 0) (s : LogStore)
      → IsQsort qsort
      → IsConsistent P compare
      → All P s.entries
      → Perm s.entries (sort_causal qsort s).entries × IsCausal (sort_causal qsort s).entries
  unfolding sort_causal
  sort_causal-IsCausal P s q c h =
      let (same, sorted) = sort_with-IsSortOf P compare s s.entries q c refl h in
      (same, sorted-IsCausal _ sorted)
