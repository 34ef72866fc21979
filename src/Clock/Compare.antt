-- ===== src/Clock/Compare.antt =====
-- `vc_compare` decides the causal order of the README: a ≤ b at every node, strict somewhere.
use mathlib.Core.Bool.{false≢true}
use vector_clock_good.Common.{
  ℕ, zero, suc, ◌+◌, ◌-◌, ◌≤◌, ◌<◌, ◌≡◌, ◌↔◌, refl, arith, Bool, true, false, some, ltb,
  if◌then◌else◌, Bool-cases, inl, inr,
}
use vector_clock_good.Clock.{
  VectorClock, Relation, equal, happens_before, happens_after, concurrent, Flags, cell, smaller,
  compare, compare_step, compare_loop, extra_loop, flags, relation_of,
}
use vector_clock_good.Clock.View.{at}

-- No event counted by `a` is unknown to `b`.
pub record Leq (a b : VectorClock) : Type 0 where
  pub below : (i : ℕ) → at a i ≤ at b i

abbrev LeOn : ℕ → ℕ → VectorClock → VectorClock → Type 0
LeOn n i a b = (j : ℕ) → i ≤ j → j < i + n → cell a j ≤ cell b j

LeOn-cons :
    (n i : ℕ) (a b : VectorClock) → cell a i ≤ cell b i → LeOn n (i + 1) a b → LeOn (suc n) i a b
LeOn-cons n i a b h k j p q = ground (arith, k j)

compare_loop-a_le_b :
    (n i : ℕ) (a b : VectorClock) (f : Flags)
    → ((compare_loop n i a b f).a_le_b ≡ true) ↔ ((f.a_le_b ≡ true) × LeOn n i a b)
unfolding compare_loop compare_step
compare_loop-a_le_b zero i a b f = (λ h. (h, λ j p q. absurd (omega arith)), λ h. h.0)
compare_loop-a_le_b (suc n) i a b f =
    let (mp, mpr) = compare_loop-a_le_b n (i + 1) a b (compare_step i a b f) in
    (
      λ h. (ground (arith, (mp h).0), LeOn-cons n i a b (ground (arith, (mp h).0)) ((mp h).1)),
      λ h. mpr (ground (arith, h.0, h.1 i), λ j p q. h.1 j (omega arith) (omega arith)),
    )

compare_loop-b_le_a :
    (n i : ℕ) (a b : VectorClock) (f : Flags)
    → ((compare_loop n i a b f).b_le_a ≡ true) ↔ ((f.b_le_a ≡ true) × LeOn n i b a)
unfolding compare_loop compare_step
compare_loop-b_le_a zero i a b f = (λ h. (h, λ j p q. absurd (omega arith)), λ h. h.0)
compare_loop-b_le_a (suc n) i a b f =
    let (mp, mpr) = compare_loop-b_le_a n (i + 1) a b (compare_step i a b f) in
    (
      λ h. (ground (arith, (mp h).0), LeOn-cons n i b a (ground (arith, (mp h).0)) ((mp h).1)),
      λ h. mpr (ground (arith, h.0, h.1 i), λ j p q. h.1 j (omega arith) (omega arith)),
    )

abbrev ZeroOn : ℕ → ℕ → VectorClock → Type 0
ZeroOn n i vc = (j : ℕ) → i ≤ j → j < i + n → cell vc j ≤ 0

extra_loop_lem :
    (n i : ℕ) (vc : VectorClock) (flag : Bool)
    → (extra_loop n i vc flag ≡ true) ↔ ((flag ≡ true) × ZeroOn n i vc)
unfolding extra_loop
extra_loop_lem zero i vc flag = (λ h. (h, λ j p q. absurd (omega arith)), λ h. h.0)
extra_loop_lem (suc n) i vc flag =
    let (mp, mpr) = extra_loop_lem n (i + 1) vc flag in
    (
      λ h.
          let rest : extra_loop n (i + 1) vc flag ≡ true = ground arith in
          let here : cell vc i ≤ 0 = ground arith in
          ((mp rest).0, λ j p q. ground (arith, (mp rest).1 j)),
      λ h. ground (arith, h.0, h.1 i, mpr (h.0, λ j p q. h.1 j (omega arith) (omega arith))),
    )

-- The guard round the loop over the additional nodes.
extra_lem :
    (count : ℕ) (vc : VectorClock) (flag : Bool)
    → ((if ltb count vc.node_count then extra_loop (vc.node_count - count) count vc flag else flag)
        ≡ true)
      ↔ ((flag ≡ true) × ZeroOn (vc.node_count - count) count vc)
extra_lem count vc flag = elim (Bool-cases (ltb count vc.node_count)) [
  | inl e ↦ rw e (extra_loop_lem (vc.node_count - count) count vc flag)
  | inr e ↦ rw e (λ h. (h, λ j p q. absurd (ground arith)), λ h. h.0)
]

module _ (a b : VectorClock) (count : ℕ) (e : count ≡ smaller a.node_count b.node_count) where
  abbrev OnCells : Type 0
  OnCells = LeOn count 0 a b × ZeroOn (a.node_count - count) count a

  OnCells-iff_Leq : OnCells ↔ Leq a b
  unfolding at
  OnCells-iff_Leq = (
    λ (h, z). record { below = λ i. ground (arith, h i, z i) },
    λ l. (λ j p q. ground (arith, l.below j), λ j p q. ground (arith, l.below j)),
  )

-- Each flag of `vc_compare` is the order in one direction.
pub flags-Leq :
    (a b : VectorClock)
    → (((flags a b).a_le_b ≡ true) ↔ Leq a b) × (((flags a b).b_le_a ≡ true) ↔ Leq b a)
unfolding flags
flags-Leq a b =
    let count = smaller a.node_count b.node_count in
    let start : Flags = record { a_le_b = true; b_le_a = true } in
    let f : Flags = compare_loop count 0 a b start in
    let (ab, ba) = OnCells-iff_Leq a b count refl in
    let (cd, dc) = OnCells-iff_Leq b a count (ground arith) in
    let (k, l) = extra_lem count a f.a_le_b in
    let (m, n) = extra_lem count b f.b_le_a in
    let (o, p) = compare_loop-a_le_b count 0 a b start in
    let (q, r) = compare_loop-b_le_a count 0 a b start in
    (
      (λ h. ab ((o ((k h).0)).1, (k h).1), λ h. l (p (refl, (ba h).0), (ba h).1)),
      (λ h. cd ((q ((m h).0)).1, (m h).1), λ h. n (r (refl, (dc h).0), (dc h).1)),
    )

-- The four verdicts, by the order in both directions.
pub record Verdicts (r : Relation) (P Q : Type 0) : Type 0 where
  pub on_equal : (r ≡ equal) ↔ (P × Q)
  pub on_before : (r ≡ happens_before) ↔ (P × ¬ Q)
  pub on_after : (r ≡ happens_after) ↔ (¬ P × Q)
  pub on_concurrent : (r ≡ concurrent) ↔ (¬ P × ¬ Q)

relation_of-Verdicts :
    {P Q : Type 0} (x y : Bool) → (x ≡ true) ↔ P → (y ≡ true) ↔ Q → Verdicts (relation_of x y) P Q
unfolding relation_of
relation_of-Verdicts true true p q =
    let a = p.0 refl in
    let b = q.0 refl in
    record {
      on_equal = (λ h. (a, b), λ h. refl);
      on_before = (λ h. absurd (cc), λ h. absurd (h.1 b));
      on_after = (λ h. absurd (cc), λ h. absurd (h.0 a));
      on_concurrent = (λ h. absurd (cc), λ h. absurd (h.0 a));
    }
relation_of-Verdicts {Q = Q} true false p q =
    let a = p.0 refl in
    let b : ¬ Q = λ x. false≢true (q.1 x) in
    record {
      on_equal = (λ h. absurd (cc), λ h. absurd (b h.1));
      on_before = (λ h. (a, b), λ h. refl);
      on_after = (λ h. absurd (cc), λ h. absurd (h.0 a));
      on_concurrent = (λ h. absurd (cc), λ h. absurd (h.0 a));
    }
relation_of-Verdicts {P = P} false true p q =
    let a : ¬ P = λ x. false≢true (p.1 x) in
    let b = q.0 refl in
    record {
      on_equal = (λ h. absurd (cc), λ h. absurd (a h.0));
      on_before = (λ h. absurd (cc), λ h. absurd (a h.0));
      on_after = (λ h. (a, b), λ h. refl);
      on_concurrent = (λ h. absurd (cc), λ h. absurd (h.1 b));
    }
relation_of-Verdicts {P = P} {Q = Q} false false p q =
    let a : ¬ P = λ x. false≢true (p.1 x) in
    let b : ¬ Q = λ x. false≢true (q.1 x) in
    record {
      on_equal = (λ h. absurd (cc), λ h. absurd (a h.0));
      on_before = (λ h. absurd (cc), λ h. absurd (a h.0));
      on_after = (λ h. absurd (cc), λ h. absurd (b h.1));
      on_concurrent = (λ h. (a, b), λ h. refl);
    }

-- For any two clocks, of any sizes, `vc_compare` answers equal exactly when each is below the
-- other at every node, before exactly when the first is below the second and not conversely, after
-- exactly when the second is below the first and not conversely, and concurrent exactly when
-- neither is below the other.
pub compare-Verdicts :
    (a b : VectorClock) → Verdicts (compare (some a) (some b)) (Leq a b) (Leq b a)
unfolding compare
compare-Verdicts a b =
    relation_of-Verdicts (flags a b).a_le_b (flags a b).b_le_a (flags-Leq a b).0 (flags-Leq a b).1
