-- ===== src/Server/Flush/Events.antt =====
-- What the server does with entries that it takes out of the buffer, as a list of events, and the
-- order in which they may happen.
use vector_clock_good.Common.{All, ℕ, ◌≤◌, ◌≡◌, refl, ap, Bool, List, [], ◌∷◌, ◌++◌}
use vector_clock_good.Clock
use vector_clock_good.Clock.{VectorClock, equal, happens_before}
use vector_clock_good.Clock.View.{IsWellFormed, merge-IsWellFormed, node_count-merge}
use vector_clock_good.Clock.Compare.{Leq}
use vector_clock_good.Clock.Order.{Leq-trans, merge_lub}
use vector_clock_good.Entry.{LogEntry}

-- `wrote` says whether the write succeeded.
pub data Event : Type 0 where
  wrote : Bool → LogEntry → Event
  discarded : LogEntry → Event

abbrev pub subject : Event → LogEntry
subject (wrote b e) = e
subject (discarded e) = e

-- The committed clock after the events.
unfoldable pub advance : VectorClock → List Event → VectorClock
advance c [] = c
advance c (wrote b e ∷ evs) = advance (Clock.merge c e.vc) evs
advance c (discarded e ∷ evs) = advance c evs

unfoldable pub written : List Event → List LogEntry
written [] = []
written (wrote b e ∷ evs) = e ∷ written evs
written (discarded e ∷ evs) = written evs

-- From the committed clock `c`: an entry is discarded only when all that it counts is committed, and
-- is written only when that is not so and `Q` holds.
abbrev pub Runs : (VectorClock → LogEntry → Type 0) → VectorClock → List Event → Type 0
Runs Q c [] = Unit {0}
Runs Q c (wrote b e ∷ evs) = (¬ Leq e.vc c) × Q c e × Runs Q (Clock.merge c e.vc) evs
Runs Q c (discarded e ∷ evs) = Leq e.vc c × Runs Q c evs

pub advance-append :
    (c : VectorClock) (xs ys : List Event) → advance c (xs ++ ys) ≡ advance (advance c xs) ys
unfolding advance
advance-append c [] ys = refl
advance-append c (wrote b e ∷ xs) ys = advance-append (Clock.merge c e.vc) xs ys
advance-append c (discarded e ∷ xs) ys = advance-append c xs ys

pub written-append : (xs ys : List Event) → written (xs ++ ys) ≡ written xs ++ written ys
unfolding written
written-append [] ys = refl
written-append (wrote b e ∷ xs) ys = ap (λ l. e ∷ l) (written-append xs ys)
written-append (discarded e ∷ xs) ys = written-append xs ys

pub Runs-append :
    (Q : VectorClock → LogEntry → Type 0) (c : VectorClock) (xs ys : List Event)
    → Runs Q c xs
    → Runs Q (advance c xs) ys
    → Runs Q c (xs ++ ys)
unfolding advance
Runs-append Q c [] ys h k = k
Runs-append Q c (wrote b e ∷ xs) ys (n, q, h) k =
    (n, q, Runs-append Q (Clock.merge c e.vc) xs ys h k)
Runs-append Q c (discarded e ∷ xs) ys (l, h) k = (l, Runs-append Q c xs ys h k)

pub Runs-weaken :
    (P Q : VectorClock → LogEntry → Type 0)
    → ((c : VectorClock) (e : LogEntry) → P c e → Q c e)
    → (c : VectorClock) (xs : List Event) → Runs P c xs
    → Runs Q c xs
Runs-weaken P Q f c [] h = tt
Runs-weaken P Q f c (wrote b e ∷ xs) (n, q, h) =
    (n, f c e q, Runs-weaken P Q f (Clock.merge c e.vc) xs h)
Runs-weaken P Q f c (discarded e ∷ xs) (l, h) = (l, Runs-weaken P Q f c xs h)

-- Of two entries that were written, the later neither equals the earlier nor happened before it.
abbrev pub IsCausal : List LogEntry → Type 0
IsCausal [] = Unit {0}
IsCausal (e ∷ es) = All (λ later. ¬ Leq later.vc e.vc) es × IsCausal es

-- Each entry counts no node that the server does not.
abbrev pub Fits : ℕ → List LogEntry → Type 0
Fits n = All (λ e. e.vc.node_count ≤ n)

later-ne_known :
    (Q : VectorClock → LogEntry → Type 0) (v c : VectorClock) (xs : List Event)
    → IsWellFormed c
    → Fits c.node_count (written xs)
    → Leq v c
    → Runs Q c xs
    → All (λ later. ¬ Leq later.vc v) (written xs)
unfolding written
later-ne_known Q v c [] w f l h = tt
later-ne_known Q v c (wrote b e ∷ xs) w (fe, f) l (n, q, h) = (
  λ k. n (Leq-trans k l),
  later-ne_known Q v (Clock.merge c e.vc) xs (merge-IsWellFormed e.vc w) (rw node_count-merge f)
      (Leq-trans l (merge_lub c e.vc w fe).0) h,
)
later-ne_known Q v c (discarded e ∷ xs) w f l (k, h) = later-ne_known Q v c xs w f l h

-- Events that run from a committed clock write their entries in causal order.
pub Runs-IsCausal :
    (Q : VectorClock → LogEntry → Type 0) (c : VectorClock) (xs : List Event)
    → IsWellFormed c
    → Fits c.node_count (written xs)
    → Runs Q c xs
    → IsCausal (written xs)
unfolding written
Runs-IsCausal Q c [] w f h = tt
Runs-IsCausal Q c (wrote b e ∷ xs) w (fe, f) (n, q, h) =
    let w' = merge-IsWellFormed e.vc w in
    let f' : Fits (Clock.merge c e.vc).node_count (written xs) = rw node_count-merge f in
    (
      later-ne_known Q e.vc (Clock.merge c e.vc) xs w' f' (merge_lub c e.vc w fe).1 h,
      Runs-IsCausal Q (Clock.merge c e.vc) xs w' f' h,
    )
Runs-IsCausal Q c (discarded e ∷ xs) w f (l, h) = Runs-IsCausal Q c xs w f h
