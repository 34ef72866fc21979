-- ===== src/Tests/Agents.antt =====
-- The laws of the agent, on a short log.
use mathlib.Core.List.{Perm}
use mathlib.Core.List.Perm
use vector_clock_good.Common.{
  gather, ℕ, ◌≡◌, refl, arith, pos, true, false, some, List, [], ◌∷◌, ◌++◌, codes, Bytes, get_or,
}
use vector_clock_good.Clock
use vector_clock_good.Clock.View.{at}
use vector_clock_good.Clock.Json as ClockJson
use vector_clock_good.Server.Buffer.{is_stale}
use vector_clock_good.Agent.State.{Agent, node_index}
use vector_clock_good.Agent.Run as AgentRun
use vector_clock_good.Agent.Run.{System, Poll, run, stamped, advanced}
use vector_clock_good.Agent.Order.{IsStamping}
use vector_clock_good.Agent.Life.{run_ordered}
use vector_clock_good.Agent.Range.{second_dropped}
use vector_clock_good.Entry
use vector_clock_good.Entry.{LogEntry}
use vector_clock_good.Server.State.{Server}
use vector_clock_good.Server.Flush.{flush_causal_buffer}
use vector_clock_good.Server.Flush.Events.{Event, written, advance, IsCausal}
use vector_clock_good.Server.Flush.Outcome.{lines}
use vector_clock_good.Server.Flush.Lines.{line}
use vector_clock_good.Agent.Line.{parse_vc, parse_line}
use vector_clock_good.Agent.Run.{process_lines}
use vector_clock_good.Agent.Flow.{agent_delivery}
use vector_clock_good.Tests.{
  clock, clock-IsWellFormed, first, second, server, node, answers_all, answers_all-IsUsable,
}

-- A system whose time stands still and whose network takes everything.
abbrev pub system : System
system = record { now = λ n. 1000; mktime = λ t. pos 0; delivers = λ n. true }

-- The agent of the node that `node_id` names, in a system of two nodes.
abbrev pub agent : List ℕ → Agent
agent node_id = record {
  config = record {
    node_id = node_id;
    log_path = codes "app.log";
    server_host = codes "127.0.0.1";
    server_port = 9999;
    poll_interval_ms = 100;
  };
  vc = clock 0 0;
  log_fp = true;
  last_offset = 0;
  seq = 0;
  running = false;
  made = [];
  sent = [];
}

abbrev log : Poll
log = record { opens = true; contents = codes "INFO: up\n[VC:1,4,0] WARN: slow\n" }

run_ordered_example : IsStamping 1 (run system (log ∷ []) (agent (codes "node-02")))
unfolding AgentRun.init node_index
run_ordered_example =
    run_ordered system (log ∷ []) (some 0) true true (agent (codes "node-02")).config 2
      (agent (codes "node-02")) refl (omega arith) (omega arith) (omega arith)

second_dropped_example :
    is_stale
      (Clock.merge (clock 3 3) (stamped system (agent (codes "node-05")) first []).vc)
      (stamped system (advanced system (agent (codes "node-05")) first []) second [])
    ≡ true
unfolding node_index
second_dropped_example =
    second_dropped system (agent (codes "node-05")) first second [] [] (clock 3 3) refl refl
      (clock-IsWellFormed 0 0) (omega arith) (clock-IsWellFormed 3 3) (omega arith)

abbrev pub bare_lines : List Bytes
bare_lines = codes "INFO: up\n" ∷ (codes "down\n" ∷ [])

made_of : LogEntry × LogEntry
unfolding process_lines parse_line
made_of =
    let made = (process_lines system 0 (agent (codes "node-02")) bare_lines).1.made in
    (get_or made 0 Entry.blank, get_or made 1 Entry.blank)

-- The entries of the lines wait in the wrong order.
abbrev late_server : Server
late_server = server (node made_of.1 1 ∷ (node made_of.0 2 ∷ [])) 2

agent_delivery_example :
    let t = flush_causal_buffer answers_all late_server in
    (evs : List Event) × (t.buffer ≡ [])
    × Perm (made_of.0 ∷ (made_of.1 ∷ [])) (written evs)
    × IsCausal (written evs)
    × (t.committed_vc ≡ advance (clock 0 0) evs)
    × (lines t ≡ lines late_server ++ gather line (written evs))
unfolding made_of process_lines parse_line node_index parse_vc at ClockJson.to_json
agent_delivery_example =
    agent_delivery system answers_all late_server (agent (codes "node-02")) 0 bare_lines
      (made_of.0 ∷ (made_of.1 ∷ [])) answers_all-IsUsable (omega arith) (clock-IsWellFormed 0 0)
      (clock-IsWellFormed 0 0) (record { same_nodes = refl; counts = λ j. ground arith })
      (omega arith) (omega arith) (refl, (refl, tt)) refl (Perm.swap made_of.1 made_of.0 [])
