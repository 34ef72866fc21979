-- ===== src/Entry/Order.antt =====
-- The comparators of log entries as orders.
use vector_clock_good.Common.{
  ◌<◌, ◌≡◌, refl, Ordering, flip, some, arith, strcmp-flip, strcmp_trans,
}
use vector_clock_good.Clock
use vector_clock_good.Clock.{
  VectorClock, Relation, equal, happens_before, happens_after, concurrent,
}
use vector_clock_good.Clock.Order.{converse, compare-converse}
use vector_clock_good.Entry.{LogEntry, compare, compare_by_time, by_relation}

pub compare_by_time-flip : (a b : LogEntry) → compare_by_time b a ≡ flip (compare_by_time a b)
unfolding compare_by_time
compare_by_time-flip a b = ground (arith, strcmp-flip a.node_id b.node_id)

by_relation-flip :
    (r : Relation) (t : Ordering) → by_relation (converse r) (flip t) ≡ flip (by_relation r t)
by_relation-flip equal t = refl
by_relation-flip happens_before t = refl
by_relation-flip happens_after t = refl
by_relation-flip concurrent t = refl

-- Swapping the entries turns the sign of `log_entry_compare` round.
pub compare-flip : (a b : LogEntry) → compare b a ≡ flip (compare a b)
unfolding compare
compare-flip a b =
    rw (compare-converse (some a.vc) (some b.vc), compare_by_time-flip a b)
      (by_relation-flip (Clock.compare (some a.vc) (some b.vc)) (compare_by_time a b))

-- The order by time is transitive.
pub compare_by_time_trans :
    (a b c : LogEntry)
    → compare_by_time a b ≡ Ordering.lt
    → compare_by_time b c ≡ Ordering.lt
    → compare_by_time a c ≡ Ordering.lt
unfolding compare_by_time
compare_by_time_trans a b c h k = ground (arith, strcmp_trans a.node_id b.node_id c.node_id)

by_relation-compare_by_time :
    (a b : LogEntry) (r : Relation)
    → (r ≡ happens_before → a.timestamp < b.timestamp)
    → (r ≡ happens_after → b.timestamp < a.timestamp)
    → by_relation r (compare_by_time a b) ≡ compare_by_time a b
unfolding compare_by_time
by_relation-compare_by_time a b equal f g = refl
by_relation-compare_by_time a b happens_before f g = let lt = f refl in ground arith
by_relation-compare_by_time a b happens_after f g = let lt = g refl in ground arith
by_relation-compare_by_time a b concurrent f g = refl

-- Where the timestamps of two entries follow the causal order between them, `log_entry_compare`
-- answers what the comparison by time answers.
pub compare-by_time :
    (a b : LogEntry)
    → (Clock.compare (some a.vc) (some b.vc) ≡ happens_before → a.timestamp < b.timestamp)
    → (Clock.compare (some a.vc) (some b.vc) ≡ happens_after → b.timestamp < a.timestamp)
    → compare a b ≡ compare_by_time a b
unfolding compare
compare-by_time a b f g =
    by_relation-compare_by_time a b (Clock.compare (some a.vc) (some b.vc)) f g

-- Where a clock runs behind, the comparison is no order: if `c` happened before `a`, `b` is
-- concurrent with both, and the timestamps rise from `a` over `b` to `c`, then `a` comes before `b`,
-- `b` before `c`, and `c` before `a`.
pub compare_cycle :
    (a b c : LogEntry)
    → Clock.compare (some c.vc) (some a.vc) ≡ happens_before
    → Clock.compare (some a.vc) (some b.vc) ≡ concurrent
    → Clock.compare (some b.vc) (some c.vc) ≡ concurrent
    → a.timestamp < b.timestamp
    → b.timestamp < c.timestamp
    → (compare a b ≡ Ordering.lt) × (compare b c ≡ Ordering.lt) × (compare c a ≡ Ordering.lt)
unfolding compare compare_by_time
compare_cycle a b c p q r s t = (rw q (ground arith), rw r (ground arith), rw p refl)
