-- ===== src/Agent/Wire.antt =====
-- From the log file of an agent to the disk of the server, over the network.
use mathlib.Core.List.{Perm}
use mathlib.Core.Path.{subst}
use vector_clock_good.Common.{
  All, ℕ, ◌+◌, ◌^◌, ◌<◌, ◌≡◌, sym, ◌∙◌, true, Bytes, List, [], ◌++◌, map, length, gather,
}
use vector_clock_good.Clock.View.{at, IsWellFormed}
use vector_clock_good.Entry.{LogEntry}
use vector_clock_good.Entry.Json.Printed.{entry_text}
use vector_clock_good.Server.State.{Server, Answer, Round}
use vector_clock_good.Server.Flush.Events.{IsCausal}
use vector_clock_good.Server.Flush.Outcome.{lines as lines_on, IsUsable}
use vector_clock_good.Server.Run.{run}
use vector_clock_good.Server.Run.InTime.{Timely}
use vector_clock_good.Server.Run.Wire.{received, IsAllocated, run_over_wire}
use vector_clock_good.Server.Flush.Lines.{line}
use vector_clock_good.Agent.State.{Agent, node_index}
use vector_clock_good.Agent.Run.{System, process_lines}
use vector_clock_good.Agent.Ahead.{IsAhead}
use vector_clock_good.Agent.Flow.{IsBare, made-IsFlow, append_cancel}
use vector_clock_good.Agent.Texts.{IsBounded}
use vector_clock_good.Agent.Sending.{SendsAll, lines-Sends}

-- Suppose an agent with an index in range and the same counts as the committed clock of a server whose
-- buffer is empty reads fewer than 2 ^ 32 lines without a clock in front, so few that its own count
-- does not wrap, and the network takes every datagram; and suppose the datagrams that it sends then
-- arrive in any order, while the server's clock never goes back and goes no further than the timeout,
-- nodes of the buffer can be had and log files opened. Then the server's buffer ends empty, and what is
-- added to its disk are these datagrams as lines, once each, in an order in which no entry comes after
-- one that it equals or happened before.
pub agent_to_disk :
    (sys : System) (env : ℕ → Answer) (rs : List Round) (s : Server) (a : Agent) (count : ℕ)
    (lines : List Bytes) (texts : List Bytes) (start : ℕ)
    → ((n : ℕ) → sys.delivers n ≡ true)
    → ((n : ℕ) → sys.now n < 2 ^ 64)
    → ((n : ℕ) → IsUsable (env n))
    → node_index a.config.node_id < s.committed_vc.node_count
    → IsWellFormed s.committed_vc
    → IsWellFormed a.vc
    → IsBounded a.vc
    → IsAhead (node_index a.config.node_id) 0 s.committed_vc a.vc
    → length lines < 2 ^ 32
    → at s.committed_vc (node_index a.config.node_id) + length lines < 2 ^ 64
    → All IsBare lines
    → (process_lines sys count a lines).1.sent ≡ a.sent ++ texts
    → s.buffer ≡ []
    → start + s.config.timeout_ms < 2 ^ 64
    → Timely start (start + s.config.timeout_ms) rs
    → IsAllocated rs
    → Perm texts (received rs)
    → let t = run env rs s in
      (ws : List LogEntry) × (ls : List Bytes) × (t.buffer ≡ [])
      × (lines_on t ≡ lines_on s ++ ls)
      × Perm texts ls
      × (ls ≡ gather line ws)
      × IsCausal ws
unfolding SendsAll
agent_to_disk sys env rs s a count lines texts start d t usable r w wa b level few fits bare o empty
      limit time room p =
    let (es, m, o', sent) = lines-Sends sys count a lines d t bare wa b in
    let f = made-IsFlow sys s.committed_vc a count lines es r w wa level few fits bare m in
    let same : texts ≡ map entry_text es =
      append_cancel a.sent texts (map entry_text es) (sym o ∙ o') in
    let (ws, ls, done, all, causal, disk, each, lines) =
      run_over_wire env rs s es start empty limit time room usable w sent f.nodes f.near f.chain
        (subst (λ x. Perm x (received rs)) same p) in
    (ws, ls, done, disk, subst (λ x. Perm x ls) (sym same) lines, each, causal)
