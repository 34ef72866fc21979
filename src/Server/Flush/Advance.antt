-- ===== src/Server/Flush/Advance.antt =====
-- How the committed clock advances while entries leave the buffer, and along a gap-free chain.

use vector_clock_good.Common.{
  ℕ, ◌+◌, ◌^◌, ◌≤◌, ◌<◌, ◌≡◌, refl, ap, ◌∙◌, List, [], ◌∷◌, map, arith, length, All,
}
use vector_clock_good.Clock
use vector_clock_good.Clock.{VectorClock, cell}
use vector_clock_good.Clock.View.{IsWellFormed, merge-IsWellFormed, node_count-merge}
use vector_clock_good.Clock.Compare.{Leq}
use vector_clock_good.Clock.Order.{Leq-refl, Leq-trans, merge_lub}
use vector_clock_good.Entry.{LogEntry}
use vector_clock_good.Server.Buffer.Ready.{steps, is_ready-steps}
use vector_clock_good.Server.Flush.Events.{Event, wrote, discarded, subject, advance, written, Runs}
use vector_clock_good.Server.Flush.Drain.{Ready}
use vector_clock_good.Server.Flush.Total.{total, total-merge, steps_anti}

-- Each entry is one step ahead of the clock that has taken in those before it.
abbrev pub IsChain : VectorClock → List LogEntry → Type 0
IsChain c [] = Unit {0}
IsChain c (e ∷ es) = (steps c.node_count 0 e.vc c ≡ 1) × IsChain (Clock.merge c e.vc) es

-- The entries count the nodes of the server.
abbrev pub HasNodes : ℕ → List LogEntry → Type 0
HasNodes n = All (λ e. e.vc.node_count ≡ n)

-- No entry is so far ahead that the 32-bit count of its steps wraps.
abbrev pub IsNear : VectorClock → List LogEntry → Type 0
IsNear c = All (λ e. steps c.node_count 0 e.vc c < 2 ^ 32)

-- The clock that has taken in the entries.
abbrev pub merged : VectorClock → List LogEntry → VectorClock
merged c [] = c
merged c (e ∷ es) = merged (Clock.merge c e.vc) es

pub total-merged :
    (c : VectorClock) (es : List LogEntry)
    → IsWellFormed c
    → HasNodes c.node_count es
    → IsChain c es
    → total c.node_count 0 (merged c es) ≡ total c.node_count 0 c + length es
unfolding Clock.merge
total-merged c [] w n h = omega arith
total-merged c (e ∷ es) w (q, n) (one, h) =
    let rest = total-merged (Clock.merge c e.vc) es (merge-IsWellFormed e.vc w) n h in
    omega (arith, rest, total-merge c e.vc w q)

-- The committed clock only grows, and takes in every entry that leaves the buffer.
pub advance_mono :
    (c : VectorClock) (evs : List Event)
    → IsWellFormed c
    → HasNodes c.node_count (map subject evs)
    → Leq c (advance c evs)
unfolding advance
advance_mono c [] w n = Leq-refl c
advance_mono c (wrote b e ∷ evs) w (q, n) =
    Leq-trans (merge_lub c e.vc w (omega arith)).0
      (advance_mono (Clock.merge c e.vc) evs (merge-IsWellFormed e.vc w) (rw node_count-merge n))
advance_mono c (discarded e ∷ evs) w (q, n) = advance_mono c evs w n

pub node_count-advance :
    (c : VectorClock) (evs : List Event) → (advance c evs).node_count ≡ c.node_count
unfolding advance
node_count-advance c [] = refl
node_count-advance c (wrote b e ∷ evs) =
    node_count-advance (Clock.merge c e.vc) evs ∙ node_count-merge c e.vc
node_count-advance c (discarded e ∷ evs) = node_count-advance c evs

pub subject-Leq :
    (c : VectorClock) (evs : List Event)
    → IsWellFormed c
    → HasNodes c.node_count (map subject evs)
    → Runs Ready c evs
    → All (λ e. Leq e.vc (advance c evs)) (map subject evs)
unfolding advance
subject-Leq c [] w n h = tt
subject-Leq c (wrote b e ∷ evs) w (q, n) (k, r, h) =
    let w' = merge-IsWellFormed e.vc w in
    let n' : HasNodes (Clock.merge c e.vc).node_count (map subject evs) = rw node_count-merge n in
    (
      Leq-trans (merge_lub c e.vc w (omega arith)).1 (advance_mono (Clock.merge c e.vc) evs w' n'),
      subject-Leq (Clock.merge c e.vc) evs w' n' h,
    )
subject-Leq c (discarded e ∷ evs) w (q, n) (l, h) =
    (Leq-trans l (advance_mono c evs w n), subject-Leq c evs w n h)

IsNear-merge :
    (c v : VectorClock) (es : List LogEntry)
    → IsWellFormed c
    → v.node_count ≡ c.node_count
    → IsNear c es
    → IsNear (Clock.merge c v) es
IsNear-merge c v [] w q h = tt
IsNear-merge c v (e ∷ es) w q (k, h) = (
  omega (
    arith,
    steps_anti c.node_count 0 e.vc c (Clock.merge c v) (merge_lub c v w (omega arith)).0
        (omega arith) (node_count-merge c v),
    ap (λ (m : ℕ). steps m 0 e.vc (Clock.merge c v)) (node_count-merge c v),
  ),
  IsNear-merge c v es w q h,
)

-- A write takes in one event.
pub total-advance :
    (c : VectorClock) (evs : List Event)
    → IsWellFormed c
    → HasNodes c.node_count (map subject evs)
    → IsNear c (map subject evs)
    → Runs Ready c evs
    → total c.node_count 0 (advance c evs) ≡ total c.node_count 0 c + length (written evs)
unfolding advance written Clock.merge
total-advance c [] w n k h = omega arith
total-advance c (wrote b e ∷ evs) w (q, n) (k, near) (l, r, h) =
    let rest =
      total-advance (Clock.merge c e.vc) evs (merge-IsWellFormed e.vc w) n
        (IsNear-merge c e.vc (map subject evs) w q near) h in
    omega (arith, rest, total-merge c e.vc w q, (is_ready-steps c e k).0 r)
total-advance c (discarded e ∷ evs) w (q, n) (k, near) (l, h) = total-advance c evs w n near h

pub length-written : (evs : List Event) → length (written evs) ≤ length (map subject evs)
unfolding written
length-written [] = omega arith
length-written (wrote b e ∷ evs) = omega (arith, length-written evs)
length-written (discarded e ∷ evs) = omega (arith, length-written evs)

pub written-all :
    (evs : List Event)
    → length (map subject evs) ≤ length (written evs)
    → written evs ≡ map subject evs
unfolding written
written-all [] h = refl
written-all (wrote b e ∷ evs) h = ap (λ l. e ∷ l) (written-all evs (omega arith))
written-all (discarded e ∷ evs) h = absurd (omega (arith, length-written evs))
