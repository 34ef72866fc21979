-- ===== src/Server/Flush.antt =====
-- `server_flush_causal_buffer` and `server_check_timeout_flush`.
pub mod Events
pub mod Outcome
pub mod Lines
pub mod Drain
pub mod Timeout
pub mod Advance
pub mod Chain
pub mod Like
pub mod Total
use vector_clock_good.Server.State.{BufferNode, Server, Answer, incr}
use vector_clock_good.Server.Disk.{write_entry_to_file}
use vector_clock_good.Server.Buffer.{nothing, stale, ready, scan}
use vector_clock_good.Common.{
  ℕ, zero, suc, ◌+◌, ◌-◌, ◌%◌, ◌^◌, Bool, true, false, List, [], ◌∷◌, ltb, length,
}
use vector_clock_good.Clock
use vector_clock_good.Clock.{
  VectorClock, Relation, equal, happens_before, happens_after, concurrent, cell,
}

unfoldable pub drop_node : Server → List BufferNode → Server
drop_node s ns = record s { buffer = ns; buffer_count = s.buffer_count - 1 }

-- `now - arrival_time > timeout_ms` on 64-bit numbers
unfoldable pub is_timed_out : ℕ → Server → BufferNode → Bool
is_timed_out now s n = ltb s.config.timeout_ms ((now + 2 ^ 64 - n.arrival_time) % 2 ^ 64)

module _ (env : ℕ → Answer) where
  -- The entry is written and merged, whether or not the write succeeds, and its node is unlinked.
  unfoldable pub deliver : Server → BufferNode → List BufferNode → Server
  unfolding write_entry_to_file drop_node
  deliver s n ns =
      let s' = (write_entry_to_file env s n.entry).1 in
      drop_node
        (record s' {
          committed_vc = Clock.merge s'.committed_vc n.entry.vc;
          stats = record (s'.stats) { total_stored = incr s'.stats.total_stored };
        })
        ns

  -- The outer loop, which goes on while the inner one has changed something.
  unfoldable pub flush_loop : ℕ → Server → Server
  unfolding scan deliver drop_node
  flush_loop zero s = s
  flush_loop (suc fuel) s = elim (scan s.committed_vc s.buffer) [
    | nothing ↦ s
    | stale n ns ↦ flush_loop fuel (drop_node s ns)
    | ready n ns ↦ flush_loop fuel (deliver s n ns)
  ]

  unfoldable pub flush_causal_buffer : Server → Server
  unfolding flush_loop
  flush_causal_buffer s = flush_loop (length s.buffer) s

  -- The loop of `server_check_timeout_flush`. Each round takes a node off, so as many rounds as there
  -- are nodes are enough.
  unfoldable pub timeout_loop : ℕ → ℕ → Server → Server
  timeout_loop zero now s = s
  timeout_loop (suc fuel) now s = elim s.buffer [
    | [] ↦ s
    | n ∷ ns ↦ elim (is_timed_out now s n) [
      | true ↦ timeout_loop fuel now (flush_causal_buffer (deliver s n ns))
      | false ↦ s
    ]
  ]

  unfoldable pub check_timeout_flush : ℕ → Server → Server
  unfolding timeout_loop
  check_timeout_flush now s = timeout_loop (length s.buffer) now s
