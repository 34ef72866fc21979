-- ===== src/Server/Flush/Like.antt =====
-- Clocks with the same counts are alike for the flush.
use vector_clock_good.Common.{
  ℕ, zero, suc, ◌+◌, ◌≤◌, ◌<◌, ◌≡◌, refl, sym, ap, ◌∙◌, List, [], ◌∷◌, map, arith, All,
}
use vector_clock_good.Clock
use vector_clock_good.Clock.{VectorClock, cell}
use vector_clock_good.Clock.View.{
  at-cell, at, IsWellFormed, at-merge, merge-IsWellFormed, node_count-merge,
}
use vector_clock_good.Entry.{LogEntry}
use vector_clock_good.Server.Buffer.Ready.{steps}
use vector_clock_good.Server.Flush.Advance.{IsChain, HasNodes, IsNear}

-- The same nodes, and the same count for each.
pub record IsLike (a b : VectorClock) : Type 0 where
  pub same_nodes : b.node_count ≡ a.node_count
  pub counts : (j : ℕ) → at b j ≡ at a j

cell-IsLike : (a b : VectorClock) (i : ℕ) → IsLike a b → i < a.node_count → cell b i ≡ cell a i
cell-IsLike a b i l h = sym (at-cell b i (omega (arith, l.same_nodes))) ∙ l.counts i ∙ at-cell a i h

steps-IsLike :
    (n i : ℕ) (e f c d : VectorClock)
    → IsLike e f
    → IsLike c d
    → i + n ≤ e.node_count
    → i + n ≤ c.node_count
    → steps n i f d ≡ steps n i e c
unfolding steps
steps-IsLike zero i e f c d l m h k = refl
steps-IsLike (suc n) i e f c d l m h k =
    rw
      (
        cell-IsLike e f i l (omega arith),
        cell-IsLike c d i m (omega arith),
        steps-IsLike n (i + 1) e f c d l m (omega arith) (omega arith),
      )
      refl

merge-IsLike :
    (c d e f : VectorClock)
    → IsWellFormed c
    → IsWellFormed d
    → IsLike c d
    → IsLike e f
    → IsLike (Clock.merge c e) (Clock.merge d f)
merge-IsLike c d e f w v l m = record {
  same_nodes = node_count-merge d f ∙ l.same_nodes ∙ sym (node_count-merge c e);
  counts = λ j. rw (at-merge c e j w, at-merge d f j v, l.counts j, m.counts j, l.same_nodes) refl;
}

module _ (f : LogEntry → LogEntry) where
  -- A change of the entries that keeps the counts of their clocks.
  abbrev pub Alike : List LogEntry → Type 0
  Alike = All (λ e. IsLike e.vc (f e).vc)

  pub IsChain-Alike :
      (c d : VectorClock) (es : List LogEntry)
      → IsWellFormed c
      → IsWellFormed d
      → IsLike c d
      → HasNodes c.node_count es
      → Alike es
      → IsChain c es
      → IsChain d (map f es)
  unfolding Clock.merge
  IsChain-Alike c d [] w v l n a h = tt
  IsChain-Alike c d (e ∷ es) w v l (q, n) (m, a) (one, h) =
      let same = steps-IsLike c.node_count 0 e.vc (f e).vc c d m l (omega arith) (omega arith) in
      (
        ap (λ k. steps k 0 (f e).vc d) l.same_nodes ∙ same ∙ one,
        IsChain-Alike (Clock.merge c e.vc) (Clock.merge d (f e).vc) es (merge-IsWellFormed e.vc w)
            (merge-IsWellFormed (f e).vc v) (merge-IsLike c d e.vc (f e).vc w v l m) n a h,
      )

  pub HasNodes-Alike :
      (n : ℕ) (es : List LogEntry) → Alike es → HasNodes n es → HasNodes n (map f es)
  HasNodes-Alike n [] a h = tt
  HasNodes-Alike n (e ∷ es) (l, a) (q, h) = (l.same_nodes ∙ q, HasNodes-Alike n es a h)

  pub IsNear-Alike :
      (c : VectorClock) (es : List LogEntry)
      → Alike es
      → HasNodes c.node_count es
      → IsNear c es
      → IsNear c (map f es)
  IsNear-Alike c [] a n h = tt
  IsNear-Alike c (e ∷ es) (l, a) (q, n) (k, h) =
      let same_clock : IsLike c c = record { same_nodes = refl; counts = λ j. refl } in
      let same =
        steps-IsLike c.node_count 0 e.vc (f e).vc c c l same_clock (omega arith) (omega arith) in
      (omega (arith, same), IsNear-Alike c es a n h)
