-- ===== src/Clock/Order.antt =====
-- The laws of the causal order that `vc_compare` decides, and of merging and counting in it.
use vector_clock_good.Common.{ℕ, ◌+◌, ◌<◌, ◌^◌, ◌≤◌, ◌≡◌, ◌↔◌, refl, pos, arith, Option, none, some}
use vector_clock_good.Clock.{
  VectorClock, Relation, equal, happens_before, happens_after, concurrent, increment, merge,
  compare,
}
use vector_clock_good.Clock.View.{at, IsWellFormed, at-merge, at-increment}
use vector_clock_good.Clock.Compare.{Leq, Verdicts, compare-Verdicts}

pub Leq-refl : (a : VectorClock) → Leq a a
Leq-refl a = record { below = λ i. omega arith }

pub Leq-trans : {a b c : VectorClock} → Leq a b → Leq b c → Leq a c
Leq-trans h k = record { below = λ i. omega (arith, h.below i, k.below i) }

-- A clock is equal to itself.
pub before_irrefl : (a : VectorClock) → compare (some a) (some a) ≡ equal
before_irrefl a = (compare-Verdicts a a).on_equal.1 (Leq-refl a, Leq-refl a)

-- Happening before is transitive.
pub before_trans :
    (a b c : VectorClock)
    → compare (some a) (some b) ≡ happens_before
    → compare (some b) (some c) ≡ happens_before
    → compare (some a) (some c) ≡ happens_before
before_trans a b c h k =
    let (ab, nba) = (compare-Verdicts a b).on_before.0 h in
    let (bc, ncb) = (compare-Verdicts b c).on_before.0 k in
    (compare-Verdicts a c).on_before.1 (Leq-trans ab bc, λ ca. nba (Leq-trans bc ca))

-- The relation seen from the other side.
abbrev pub converse : Relation → Relation
converse equal = equal
converse happens_before = happens_after
converse happens_after = happens_before
converse concurrent = concurrent

converse-Verdicts :
    {P Q : Type 0} (r s : Relation) → Verdicts r P Q → Verdicts s Q P → s ≡ converse r
converse-Verdicts equal s v w = let (p, q) = v.on_equal.0 refl in w.on_equal.1 (q, p)
converse-Verdicts happens_before s v w = let (p, q) = v.on_before.0 refl in w.on_after.1 (q, p)
converse-Verdicts happens_after s v w = let (p, q) = v.on_after.0 refl in w.on_before.1 (q, p)
converse-Verdicts concurrent s v w = let (p, q) = v.on_concurrent.0 refl in w.on_concurrent.1 (q, p)

-- Swapping the arguments of `vc_compare` swaps before and after, and keeps equal and concurrent;
-- NULL on either side is concurrent.
pub compare-converse : (a b : Option VectorClock) → compare b a ≡ converse (compare a b)
unfolding compare
compare-converse none none = refl
compare-converse none (some b) = refl
compare-converse (some a) none = refl
compare-converse (some a) (some b) =
    converse-Verdicts _ _ (compare-Verdicts a b) (compare-Verdicts b a)

-- In the causal order, the merge of a well-formed clock with one of at most as many nodes is the
-- least upper bound of the two.
pub merge_lub :
    (d s : VectorClock)
    → IsWellFormed d
    → s.node_count ≤ d.node_count
    → Leq d (merge d s)
      × Leq s (merge d s)
      × ((u : VectorClock) → Leq d u → Leq s u → Leq (merge d s) u)
unfolding at
merge_lub d s w n = (
  record { below = λ i. ground (arith, at-merge d s i w) },
  record { below = λ i. ground (arith, at-merge d s i w) },
  λ u h k. record { below = λ i. ground (arith, at-merge d s i w, h.below i, k.below i) },
)

-- The merge of a well-formed clock with one of at most as many nodes is the least upper bound of the
-- two in the causal order: what is above it is what is above both.
pub merge-iff_Leq :
    (d s u : VectorClock)
    → IsWellFormed d
    → s.node_count ≤ d.node_count
    → Leq (merge d s) u ↔ (Leq d u × Leq s u)
merge-iff_Leq d s u w n =
    let (above_d, above_s, least) = merge_lub d s w n in
    (λ h. (Leq-trans above_d h, Leq-trans above_s h), λ (h, k). least u h k)

-- An event of a node in range makes its clock happen after what it was, unless the count wraps.
pub increment_after :
    (vc : VectorClock) (i : ℕ)
    → IsWellFormed vc
    → i < vc.node_count
    → at vc i + 1 < 2 ^ 64
    → compare (some vc) (some (increment vc (pos i))) ≡ happens_before
increment_after vc i w h fits = (compare-Verdicts vc (increment vc (pos i))).on_before.1 (
  record { below = λ j. ground (arith, at-increment vc i j w) },
  λ l. ground (arith, l.below i, at-increment vc i i w),
)
