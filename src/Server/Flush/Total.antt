-- ===== src/Server/Flush/Total.antt =====
-- The events that a clock counts, and how merging an entry adds to them.
use vector_clock_good.Common.{ℕ, zero, suc, ◌+◌, ◌-◌, ◌≤◌, ◌<◌, ◌≡◌, arith}
use vector_clock_good.Clock
use vector_clock_good.Clock.{VectorClock, cell}
use vector_clock_good.Clock.View.{at-cell, at, IsWellFormed, at-merge}
use vector_clock_good.Clock.Compare.{Leq}
use vector_clock_good.Server.Buffer.Ready.{steps}

-- The counts at `n` nodes from `i`, added up.
unfoldable pub total : ℕ → ℕ → VectorClock → ℕ
total zero i c = 0
total (suc n) i c = at c i + total n (i + 1) c

pub total_mono : (n i : ℕ) (c d : VectorClock) → Leq c d → total n i c ≤ total n i d
unfolding total
total_mono zero i c d l = omega arith
total_mono (suc n) i c d l = omega (arith, l.below i, total_mono n (i + 1) c d l)

step-merge :
    (i : ℕ) (c e : VectorClock)
    → IsWellFormed c
    → e.node_count ≡ c.node_count
    → i < c.node_count
    → at (Clock.merge c e) i ≡ at c i + (cell e i - cell c i)
step-merge i c e w q h = ground (arith, at-merge c e i w, at-cell c i h, at-cell e i)

-- Merging a clock of the same nodes adds the steps that it is ahead.
total-merge_from :
    (n i : ℕ) (c e : VectorClock)
    → IsWellFormed c
    → e.node_count ≡ c.node_count
    → i + n ≤ c.node_count
    → total n i (Clock.merge c e) ≡ total n i c + steps n i e c
unfolding total steps
total-merge_from zero i c e w q h = omega arith
total-merge_from (suc n) i c e w q h =
    omega
      (arith, step-merge i c e w q (omega arith), total-merge_from n (i + 1) c e w q (omega arith))

pub total-merge :
    (c e : VectorClock)
    → IsWellFormed c
    → e.node_count ≡ c.node_count
    → total c.node_count 0 (Clock.merge c e) ≡ total c.node_count 0 c + steps c.node_count 0 e c
total-merge c e w q = total-merge_from c.node_count 0 c e w q (omega arith)

pub steps_anti :
    (n i : ℕ) (e c d : VectorClock)
    → Leq c d
    → i + n ≤ c.node_count
    → d.node_count ≡ c.node_count
    → steps n i e d ≤ steps n i e c
unfolding steps
steps_anti zero i e c d l h q = omega arith
steps_anti (suc n) i e c d l h q = omega (
  arith,
  at-cell c i (omega arith),
  at-cell d i (omega arith),
  l.below i,
  steps_anti n (i + 1) e c d l (omega arith) q,
)
