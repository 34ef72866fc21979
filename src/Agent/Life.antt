-- ===== src/Agent/Life.antt =====
-- An agent from its start through its polls.
use mathlib.Core.Path.{subst}
use vector_clock_good.Common.{
  ℕ, ◌+◌, ◌^◌, ◌≤◌, ◌<◌, ◌≡◌, refl, sym, pos, Bool, true, false, Option, some, List, [], arith,
  length,
}
use vector_clock_good.Clock.{VectorClock, Relation, happens_before, max_nodes}
use vector_clock_good.Clock
use vector_clock_good.Clock.View.{at-init, init-IsWellFormed}
use vector_clock_good.Agent.State.{AgentConfig, Agent, node_index}
use vector_clock_good.Agent.Run.{
  System, Poll, send_log, sent_text, process_parsed, process_changed, polls_loop, stamped, advanced,
  process_line, process_lines, process_new_lines, check_file_changed, poll, run,
}
use mathlib.Core.Option.{some-injective, some-ne-none}
use vector_clock_good.Agent.Run as AgentRun
use vector_clock_good.Agent.Order.{IsStamping}
use vector_clock_good.Agent.Keeps.{volume, kept-IsStamping, polls_loop-IsStamping}

node_count-init : (n : ℕ) → 0 < n → n ≤ max_nodes → (Clock.init Clock.zeroed (pos n)).node_count ≡ n
unfolding Clock.init
node_count-init n h m = ground arith

module _ (sys : System) where
  run-IsStamping :
      (own : ℕ) (ps : List Poll) (a : Agent)
      → length a.made + volume ps < 2 ^ 64
      → IsStamping own a
      → IsStamping own (run sys ps a)
  unfolding run
  run-IsStamping own ps a h k =
      polls_loop-IsStamping sys own ps (record a { running = true }) h
        (kept-IsStamping sys own a a.log_fp true a.last_offset a.sent k)

  init-IsStamping :
      (file : Option ℕ) (socket address : Bool) (config : AgentConfig) (n : ℕ) (a : Agent)
      → AgentRun.init file socket address config (pos n) ≡ some a
      → node_index config.node_id < n
      → n ≤ max_nodes
      → IsStamping (node_index config.node_id) a × (a.made ≡ [])
  unfolding AgentRun.init
  init-IsStamping file false address config n a h r m = absurd (some-ne-none _ (sym h))
  init-IsStamping file true false config n a h r m = absurd (some-ne-none _ (sym h))
  init-IsStamping file true true config n a h r m =
      subst (λ b. IsStamping (node_index config.node_id) b × (b.made ≡ [])) (some-injective _ _ h)
        (
          record {
            index = refl;
            well_formed = init-IsWellFormed Clock.zeroed (pos n) refl;
            in_range = omega (arith, r, m, node_count-init n (omega (arith, r)) m);
            numbered = refl;
            counted = at-init Clock.zeroed (pos n) (node_index config.node_id);
            made_below = tt;
            ordered = tt;
          },
          refl,
        )

  -- If an agent that was started for `n` nodes, at most 32, has an index below `n`, and the files of
  -- its polls hold fewer than 2 ^ 64 bytes together, then after those polls its own count and its next
  -- sequence number are the number of entries it has made, every entry carries its place in the own
  -- count, and each entry happens before every later one and has a lower sequence number.
  pub run_ordered :
      (ps : List Poll) (file : Option ℕ) (socket address : Bool) (config : AgentConfig) (n : ℕ)
      (a : Agent)
      → AgentRun.init file socket address config (pos n) ≡ some a
      → node_index config.node_id < n
      → n ≤ max_nodes
      → volume ps < 2 ^ 64
      → IsStamping (node_index config.node_id) (run sys ps a)
  run_ordered ps file socket address config n a h r m v =
      let (k, e) = init-IsStamping file socket address config n a h r m in
      run-IsStamping (node_index config.node_id) ps a (rw e (omega (arith, v))) k
