-- ===== src/Agent/Range.antt =====
-- An agent whose index is beyond its clock.
use vector_clock_good.Common.{ℕ, ◌≤◌, ◌≡◌, refl, ap, ◌∙◌, ℤ, true, false, List, arith}
use vector_clock_good.Clock
use vector_clock_good.Clock.{VectorClock}
use vector_clock_good.Clock.View.{IsWellFormed, at-copy, increment_out_of_range}
use vector_clock_good.Clock.Order.{Leq-trans, merge_lub}
use vector_clock_good.Entry.{LogEntry}
use vector_clock_good.Server.Buffer.{is_stale}
use vector_clock_good.Server.Buffer.Scan.{is_stale-iff_Leq}
use vector_clock_good.Agent.State.{Agent, node_index, has_numbers, take_in, tick}
use vector_clock_good.Agent.Run.{System, stamped, advanced}

tick_out_of_range :
    (own : ℕ) (parsed : List ℤ) (vc : VectorClock)
    → has_numbers parsed ≡ false
    → vc.node_count ≤ own
    → tick own parsed vc ≡ vc
unfolding tick take_in
tick_out_of_range own parsed vc b h = rw (b, increment_out_of_range vc own h) refl

module _ (sys : System) where
  stamped_out_of_range :
      (a : Agent) (e : LogEntry) (parsed : List ℤ)
      → has_numbers parsed ≡ false
      → a.vc.node_count ≤ node_index a.config.node_id
      → (stamped sys a e parsed).vc ≡ Clock.copy e.vc a.vc
  unfolding stamped
  stamped_out_of_range a e parsed b h =
      ap (λ v. Clock.copy e.vc v) (tick_out_of_range (node_index a.config.node_id) parsed a.vc b h)

  advanced_out_of_range :
      (a : Agent) (e : LogEntry) (parsed : List ℤ)
      → has_numbers parsed ≡ false
      → a.vc.node_count ≤ node_index a.config.node_id
      → (advanced sys a e parsed).vc ≡ a.vc
  unfolding advanced
  advanced_out_of_range a e parsed b h =
      tick_out_of_range (node_index a.config.node_id) parsed a.vc b h

  advanced-config :
      (a : Agent) (e : LogEntry) (parsed : List ℤ) → (advanced sys a e parsed).config ≡ a.config
  unfolding advanced
  advanced-config a e parsed = refl

  node_count-copy : (d s : VectorClock) → (Clock.copy d s).node_count ≡ s.node_count
  unfolding Clock.copy
  node_count-copy d s = refl

  -- If the index of an agent is not below the number of nodes of its clock, then of two lines that
  -- carry no clock, one after the other, the server drops the second entry as a duplicate once it has
  -- merged the first, whatever its committed clock of at least as many nodes was before.
  pub second_dropped :
      (a : Agent) (e f : LogEntry) (p q : List ℤ) (c : VectorClock)
      → has_numbers p ≡ false
      → has_numbers q ≡ false
      → IsWellFormed a.vc
      → a.vc.node_count ≤ node_index a.config.node_id
      → IsWellFormed c
      → a.vc.node_count ≤ c.node_count
      → is_stale (Clock.merge c (stamped sys a e p).vc) (stamped sys (advanced sys a e p) f q)
        ≡ true
  second_dropped a e f p q c hp hq w r wc n =
      let b = advanced sys a e p in
      let same = advanced_out_of_range a e p hp r in
      let first = stamped_out_of_range a e p hp r in
      let second =
        stamped_out_of_range b f q hq (rw (same, advanced-config a e p) r)
        ∙ ap (λ v. Clock.copy f.vc v) same in
      (is_stale-iff_Leq _ _).1 (
        rw (first, second)
          (Leq-trans
            (record { below = λ j. omega (arith, at-copy f.vc a.vc j w, at-copy e.vc a.vc j w) })
            (merge_lub c (Clock.copy e.vc a.vc) wc
              (omega (arith, node_count-copy e.vc a.vc, n))).1))
