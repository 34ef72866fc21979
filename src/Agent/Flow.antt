-- ===== src/Agent/Flow.antt =====
-- An agent's entries reach the disk of the server, in whatever order they arrive.
use mathlib.Core.Path.{subst}
use vector_clock_good.Common.{
  gather, ℕ, ◌+◌, ◌^◌, ◌<◌, ◌≡◌, inl, inr, refl, sym, ap, ◌∙◌, pos, none, Bytes, List, [], ◌∷◌,
  ◌++◌, arith, length, drop, All, if◌then◌else◌,
}
use mathlib.Core.List.{append_assoc, append-nil, Perm}
use vector_clock_good.Clock
use vector_clock_good.Clock.{VectorClock}
use vector_clock_good.Clock.View.{at, IsWellFormed, increment-IsWellFormed, merge-IsWellFormed}
use vector_clock_good.Entry.{LogEntry}
use vector_clock_good.Server.State.{Server, Answer}
use vector_clock_good.Server.Flush.{flush_causal_buffer}
use vector_clock_good.Server.Flush.Advance.{IsChain, HasNodes, IsNear}
use vector_clock_good.Agent.Line.{parse_vc}
use vector_clock_good.Agent.State.{Agent, node_index}
use vector_clock_good.Agent.Run.{System, process_line, process_lines}
use vector_clock_good.Agent.Keeps.{process_lines_next, process_lines_end}
use vector_clock_good.Agent.Ahead.{IsAhead, steps_lem, merge-IsAhead, tick-IsAhead}
use vector_clock_good.Server.Flush.Chain.{flush_chain}
use vector_clock_good.Server.Flush.Events.{Event, advance, written, IsCausal}
use vector_clock_good.Server.Flush.Outcome.{lines as lines_on, IsUsable}
use vector_clock_good.Server.Flush.Lines.{line}
use vector_clock_good.Server.Flush.Drain.{entries}
use vector_clock_good.Agent.Delivery.{IsSame, IsEvent, Step, process_line-Step}

-- A line without a clock in front.
abbrev pub IsBare : Bytes → Type 0
IsBare line = parse_vc line ≡ none

-- The entries of a chain from `c`, near to the clock `base`.
pub record IsFlow (base c : VectorClock) (es : List LogEntry) : Type 0 where
  pub chain : IsChain c es
  pub nodes : HasNodes base.node_count es
  pub near : IsNear base es

IsAhead-same :
    (own k : ℕ) (c v e : VectorClock)
    → e.node_count ≡ v.node_count
    → ((j : ℕ) → at e j ≡ at v j)
    → IsAhead own k c v
    → IsAhead own k c e
IsAhead-same own k c v e n h a = record {
  same_nodes = n ∙ a.same_nodes;
  counts = λ j. h j ∙ a.counts j;
}

cons-IsFlow :
    (own k : ℕ) (base c : VectorClock) (e : LogEntry) (es : List LogEntry)
    → own < base.node_count
    → own < c.node_count
    → k < 2 ^ 32
    → IsAhead own k base e.vc
    → IsAhead own 1 c e.vc
    → IsFlow base (Clock.merge c e.vc) es
    → IsFlow base c (e ∷ es)
cons-IsFlow own k base c e es r q h a b f = record {
  chain = (steps_lem own 1 c e.vc b q, f.chain);
  nodes = (a.same_nodes, f.nodes);
  near = (omega (arith, steps_lem own k base e.vc a r), f.near);
}

module _ (sys : System) where
  -- The agent at `k` events behind `base`, level with `c`.
  record IsAt (own k : ℕ) (base c : VectorClock) (a : Agent) : Type 0 where
    index : node_index a.config.node_id ≡ own
    agent_well_formed : IsWellFormed a.vc
    well_formed : IsWellFormed c
    in_range : own < base.node_count
    ahead : IsAhead own k base a.vc
    level : IsAhead own 0 c a.vc

  same-IsAt :
      (own k : ℕ) (base c : VectorClock) (a b : Agent)
      → IsSame a b
      → IsAt own k base c a
      → IsAt own k base c b
  same-IsAt own k base c a b s h = record {
    index = ap (λ x. node_index x.node_id) s.config ∙ h.index;
    agent_well_formed = rw s.vc h.agent_well_formed;
    well_formed = h.well_formed;
    in_range = h.in_range;
    ahead = rw s.vc h.ahead;
    level = rw s.vc h.level;
  }

  event-IsAt :
      (own k : ℕ) (base c : VectorClock) (a b : Agent) (e : LogEntry)
      → at base own + k + 1 < 2 ^ 64
      → IsEvent a b e
      → IsAt own k base c a
      → IsAhead own (k + 1) base e.vc
        × IsAhead own 1 c e.vc
        × IsAt own (k + 1) base (Clock.merge c e.vc) b
  event-IsAt own k base c a b e fits s h =
      let moved : b.vc ≡ Clock.increment a.vc (pos own) =
        s.vc ∙ ap (λ i. Clock.increment a.vc (pos i)) h.index in
      let w : IsWellFormed b.vc = rw moved (increment-IsWellFormed (pos own) h.agent_well_formed) in
      let in_c : own < c.node_count =
        omega (arith, h.in_range, h.ahead.same_nodes, h.level.same_nodes) in
      let room : at c own + 0 + 1 < 2 ^ 64 =
        ground (arith, h.level.counts own, h.ahead.counts own) in
      let far : IsAhead own (k + 1) base b.vc =
        rw moved (tick-IsAhead own k base a.vc h.agent_well_formed h.in_range fits h.ahead) in
      let near : IsAhead own 1 c b.vc =
        rw moved (tick-IsAhead own 0 c a.vc h.agent_well_formed in_c room h.level) in
      let e_near = IsAhead-same own 1 c b.vc e.vc s.same_nodes (s.counts w) near in
      (
        IsAhead-same own (k + 1) base b.vc e.vc s.same_nodes (s.counts w) far,
        e_near,
        record {
          index = ap (λ x. node_index x.node_id) s.config ∙ h.index;
          agent_well_formed = w;
          well_formed = merge-IsWellFormed e.vc h.well_formed;
          in_range = h.in_range;
          ahead = far;
          level =
              IsAhead-same own 0 (Clock.merge c e.vc) e.vc b.vc (sym s.same_nodes)
                (λ j. sym (s.counts w j)) (merge-IsAhead own 1 c e.vc h.well_formed in_c e_near);
        },
      )

  Flow : ℕ → Agent → List Bytes → VectorClock → VectorClock → Type 0
  Flow count a lines base c =
      (es : List LogEntry) × ((process_lines sys count a lines).1.made ≡ a.made ++ es)
      × IsFlow base c es

  lines-Flow :
      (own k count : ℕ) (base c : VectorClock) (a : Agent) (lines : List Bytes)
      → All IsBare lines
      → at base own + k + length lines < 2 ^ 64
      → k + length lines < 2 ^ 32
      → IsAt own k base c a
      → Flow count a lines base c
  unfolding Flow Step
  lines-Flow own k count base c a [] q fits few h = (
    [],
    rw (process_lines_end sys count a) (sym (append-nil a.made)),
    record { chain = tt; nodes = tt; near = tt },
  )
  lines-Flow own k count base c a (line ∷ lines) (bare, q) fits few h =
      let done = process_line sys a line in
      let b = done.1 in
      let count' = (if done.0 then count + 1 else count) in
      let next = process_lines_next sys count a line lines in
      elim (process_line-Step sys a line bare) [
        | inl s ↦
            let (es, m, f) =
              lines-Flow own k count' base c b lines q (omega arith) (omega arith)
                (same-IsAt own k base c a b s h) in
            (es, rw next (m ∙ ap (λ x. x ++ es) s.made), f)
        | inr (e, s) ↦
            let (far, near, h') = event-IsAt own k base c a b e (omega arith) s h in
            let (es, m, f) =
              lines-Flow own (k + 1) count' base (Clock.merge c e.vc) b lines q (omega arith)
                (omega arith) h' in
            let in_c : own < c.node_count =
              omega (arith, h.in_range, h.ahead.same_nodes, h.level.same_nodes) in
            (
              e ∷ es,
              rw next (m ∙ ap (λ x. x ++ es) s.made ∙ append_assoc a.made (e ∷ []) es),
              cons-IsFlow own (k + 1) base c e es h.in_range in_c (omega arith) far near f,
            )
      ]

pub append_cancel {ℓ} : {A : Type ℓ} (xs ys zs : List A) → xs ++ ys ≡ xs ++ zs → ys ≡ zs
append_cancel [] ys zs h = h
append_cancel (x ∷ xs) ys zs h = append_cancel xs ys zs (ap (λ l. drop 1 l) h)

-- The entries of lines without clocks, from a clock that the agent is level with.
pub made-IsFlow :
    (sys : System) (base : VectorClock) (a : Agent) (count : ℕ) (lines : List Bytes)
    (es : List LogEntry)
    → node_index a.config.node_id < base.node_count
    → IsWellFormed base
    → IsWellFormed a.vc
    → IsAhead (node_index a.config.node_id) 0 base a.vc
    → length lines < 2 ^ 32
    → at base (node_index a.config.node_id) + length lines < 2 ^ 64
    → All IsBare lines
    → (process_lines sys count a lines).1.made ≡ a.made ++ es
    → IsFlow base base es
unfolding Flow
made-IsFlow sys base a count lines es r w wa level few fits bare m =
    let own = node_index a.config.node_id in
    let (es', m', f) =
      lines-Flow sys own 0 count base base a lines bare (omega (arith, fits)) (omega (arith, few))
        (record {
          index = refl;
          agent_well_formed = wa;
          well_formed = w;
          in_range = r;
          ahead = level;
          level = level;
        }) in
    subst (IsFlow base base) (append_cancel a.made es' es (sym m' ∙ m)) f

-- Suppose an agent whose index is in range has the same counts as the committed clock of a server, and
-- reads fewer than 2 ^ 32 lines without a clock in front, so few that its own count does not wrap. If
-- exactly the entries that these lines become are in the server's buffer, in any order, and the log
-- file of each day can be opened, then one flush empties the buffer, and what it adds to the disk are
-- the lines of these entries, once each and in causal order (an entry whose JSON text does not fit
-- 4096 bytes has none): there are events whose written entries are these, in an order in which none
-- comes after one that it equals or happened before, whose lines are added to the disk in that order,
-- and which the new committed clock takes in.
pub agent_delivery :
    (sys : System) (env : ℕ → Answer) (s : Server) (a : Agent) (count : ℕ) (lines : List Bytes)
    (es : List LogEntry)
    → ((n : ℕ) → IsUsable (env n))
    → node_index a.config.node_id < s.committed_vc.node_count
    → IsWellFormed s.committed_vc
    → IsWellFormed a.vc
    → IsAhead (node_index a.config.node_id) 0 s.committed_vc a.vc
    → length lines < 2 ^ 32
    → at s.committed_vc (node_index a.config.node_id) + length lines < 2 ^ 64
    → All IsBare lines
    → (process_lines sys count a lines).1.made ≡ a.made ++ es
    → Perm es (entries s.buffer)
    → let t = flush_causal_buffer env s in
      (evs : List Event) × (t.buffer ≡ [])
      × Perm es (written evs)
      × IsCausal (written evs)
      × (t.committed_vc ≡ advance s.committed_vc evs)
      × (lines_on t ≡ lines_on s ++ gather line (written evs))
agent_delivery sys env s a count lines es usable r w wa level few fits bare m p =
    let f = made-IsFlow sys s.committed_vc a count lines es r w wa level few fits bare m in
    flush_chain env s es usable w f.nodes f.near f.chain p
