-- ===== src/Server/Buffer/Ready.antt =====
-- The continuity test of the flush: the count of steps that an entry is ahead of the committed clock.
use vector_clock_good.Common.{
  ℕ, zero, suc, ◌+◌, ◌-◌, ◌%◌, ◌^◌, ◌≤◌, ◌<◌, ◌≡◌, ◌≢◌, ◌↔◌, inl, inr, true, refl, arith, ltb, ◌==◌,
  Bool-cases,
}
use vector_clock_good.Clock.{VectorClock, cell}
use vector_clock_good.Entry.{LogEntry}
use vector_clock_good.Server.Buffer.{increments_loop, increments, is_ready}

-- The steps that `e` is ahead of `c` at the nodes `i` to `i + n`, added up without a bound.
unfoldable pub steps : ℕ → ℕ → VectorClock → VectorClock → ℕ
steps zero i e c = 0
steps (suc n) i e c = (cell e i - cell c i) + steps n (i + 1) e c

increments_loop-steps :
    (n i : ℕ) (e c : VectorClock) (acc : ℕ)
    → acc < 2 ^ 32
    → increments_loop n i e c acc ≡ (acc + steps n i e c) % 2 ^ 32
unfolding increments_loop steps
increments_loop-steps zero i e c acc h = omega arith
increments_loop-steps (suc n) i e c acc h = elim (Bool-cases (ltb (cell c i) (cell e i))) [
  | inl b ↦
      rw
        (
          b,
          increments_loop-steps n (i + 1) e c ((acc + (cell e i - cell c i)) % 2 ^ 32)
              (omega arith),
        )
        (omega arith)
  | inr b ↦ rw (b, increments_loop-steps n (i + 1) e c acc h) (ground arith)
]

-- One node is a step ahead, and no other of those in range is ahead.
pub record IsStepAt (n i : ℕ) (e c : VectorClock) (k : ℕ) : Type 0 where
  pub from : i ≤ k
  pub below : k < i + n
  pub step : cell e k ≡ cell c k + 1
  pub others : (j : ℕ) → i ≤ j → j < i + n → j ≢ k → cell e j ≤ cell c j

pub steps-zero :
    (n i : ℕ) (e c : VectorClock)
    → steps n i e c ≡ 0
    → (j : ℕ) → i ≤ j
    → j < i + n
    → cell e j ≤ cell c j
unfolding steps
steps-zero zero i e c h j p q = absurd (omega arith)
steps-zero (suc n) i e c h j p q = ground (arith, steps-zero n (i + 1) e c (omega arith) j)

zero_steps :
    (n i : ℕ) (e c : VectorClock)
    → ((j : ℕ) → i ≤ j → j < i + n → cell e j ≤ cell c j)
    → steps n i e c ≡ 0
unfolding steps
zero_steps zero i e c h = refl
zero_steps (suc n) i e c h = omega (
  arith,
  h i (omega arith) (omega arith),
  zero_steps n (i + 1) e c (λ j p q. h j (omega arith) (omega arith)),
)

steps-one : (n i : ℕ) (e c : VectorClock) → steps n i e c ≡ 1 → (k : ℕ) × IsStepAt n i e c k
unfolding steps
steps-one zero i e c h = absurd (omega arith)
steps-one (suc n) i e c h = elim (Bool-cases (cell e i - cell c i == 0)) [
  | inl b ↦
      let (k, s) = steps-one n (i + 1) e c (ground arith) in
      (
        k,
        record {
          from = omega (arith, s.from);
          below = omega (arith, s.below);
          step = s.step;
          others = λ j p q r. ground (arith, s.others j);
        },
      )
  | inr b ↦ (
    i,
    record {
      from = omega arith;
      below = omega arith;
      step = ground arith;
      others = λ j p q r. steps-zero n (i + 1) e c (ground arith) j (omega arith) (omega arith);
    },
  )
]

one_step : (n i : ℕ) (e c : VectorClock) (k : ℕ) → IsStepAt n i e c k → steps n i e c ≡ 1
unfolding steps
one_step zero i e c k s = absurd (omega (arith, s.from, s.below))
one_step (suc n) i e c k s = elim (Bool-cases (i == k)) [
  | inl b ↦
      let z =
        zero_steps n (i + 1) e c (λ j p q. s.others j (omega arith) (omega arith) (ground arith)) in
      ground (arith, s.step, z)
  | inr b ↦
      let o = one_step n (i + 1) e c k (record {
        from = ground (arith, s.from);
        below = omega (arith, s.below);
        step = s.step;
        others = λ j p q r. s.others j (omega arith) (omega arith) r;
      }) in
      ground (arith, s.others i, o)
]

pub is_ready-steps :
    (c : VectorClock) (e : LogEntry)
    → steps c.node_count 0 e.vc c < 2 ^ 32
    → (is_ready c e ≡ true) ↔ (steps c.node_count 0 e.vc c ≡ 1)
unfolding is_ready increments
is_ready-steps c e h =
    let i = increments_loop-steps c.node_count 0 e.vc c 0 (omega arith) in
    (λ r. ground (arith, i), λ o. ground (arith, i))

-- If the entry is fewer than 2 ^ 32 steps ahead of the committed clock in all, it passes the test
-- exactly when one node of the committed clock is one step behind it and no other is behind it.
pub is_ready-iff_IsStepAt :
    (c : VectorClock) (e : LogEntry)
    → steps c.node_count 0 e.vc c < 2 ^ 32
    → (is_ready c e ≡ true) ↔ ((k : ℕ) × IsStepAt c.node_count 0 e.vc c k)
is_ready-iff_IsStepAt c e h =
    let (to, from) = is_ready-steps c e h in
    (
      λ r. steps-one c.node_count 0 e.vc c (to r),
      λ (k, s). from (one_step c.node_count 0 e.vc c k s),
    )

-- A first node that is 2 ^ 32 + 1 steps ahead passes the test, if no other is ahead: the int wraps.
pub is_ready_wraps :
    (c : VectorClock) (e : LogEntry)
    → steps c.node_count 0 e.vc c ≡ 2 ^ 32 + 1
    → is_ready c e ≡ true
unfolding is_ready increments
is_ready_wraps c e h =
    let i = increments_loop-steps c.node_count 0 e.vc c 0 (omega arith) in ground (arith, i)
