-- ===== src/Agent/Ahead.antt =====
-- Clocks that are ahead of another at one node only, as those of one agent are.
use vector_clock_good.Common.{
  ℕ, zero, suc, ◌+◌, ◌^◌, ◌≤◌, ◌<◌, ◌≡◌, sym, ◌∙◌, pos, arith, ltb, leb, ◌==◌, ◌&&◌, if◌then◌else◌,
}
use vector_clock_good.Clock
use vector_clock_good.Clock.{VectorClock, cell}
use vector_clock_good.Clock.View.{
  at-cell, node_count-increment, at, IsWellFormed, at-merge, at-increment, node_count-merge,
}
use vector_clock_good.Server.Buffer.Ready.{steps}

-- `v` is `k` events of the node `own` ahead of `c`.
pub record IsAhead (own k : ℕ) (c v : VectorClock) : Type 0 where
  pub same_nodes : v.node_count ≡ c.node_count
  pub counts : (j : ℕ) → at v j ≡ (if j == own then at c j + k else at c j)

steps_from :
    (own k n i : ℕ) (c v : VectorClock)
    → IsAhead own k c v
    → i + n ≤ c.node_count
    → steps n i v c ≡ (if leb i own && ltb own (i + n) then k else 0)
unfolding steps
steps_from own k zero i c v h r = ground arith
steps_from own k (suc n) i c v h r =
    let rest = steps_from own k n (i + 1) c v h (omega arith) in
    ground (
      arith,
      rest,
      h.counts i,
      at-cell c i (omega arith),
      at-cell v i (omega (arith, h.same_nodes)),
    )

-- Such a clock is as many steps ahead.
pub steps_lem :
    (own k : ℕ) (c v : VectorClock)
    → IsAhead own k c v
    → own < c.node_count
    → steps c.node_count 0 v c ≡ k
steps_lem own k c v h r = ground (arith, steps_from own k c.node_count 0 c v h (omega arith))

at_beyond : (c : VectorClock) (j : ℕ) → c.node_count ≤ j → at c j ≡ 0
unfolding at
at_beyond c j h = ground arith

-- A clock that has taken it in is level with it.
pub merge-IsAhead :
    (own k : ℕ) (c v : VectorClock)
    → IsWellFormed c
    → own < c.node_count
    → IsAhead own k c v
    → IsAhead own 0 (Clock.merge c v) v
merge-IsAhead own k c v w r h = record {
  same_nodes = h.same_nodes ∙ sym (node_count-merge c v);
  counts = λ j.
      rw (at-merge c v j w)
        (ground (arith, h.counts j, h.same_nodes, at_beyond c j, at_beyond v j));
}

-- A line without numbers takes the clock one event further.
pub tick-IsAhead :
    (own k : ℕ) (c v : VectorClock)
    → IsWellFormed v
    → own < c.node_count
    → at c own + k + 1 < 2 ^ 64
    → IsAhead own k c v
    → IsAhead own (k + 1) c (Clock.increment v (pos own))
tick-IsAhead own k c v w r fits h = record {
  same_nodes = node_count-increment v own ∙ h.same_nodes;
  counts = λ j.
      rw (at-increment v own j w (omega (arith, h.same_nodes)))
        (ground (arith, h.counts own, h.counts j));
}
