-- ===== src/Server/Run/Count.antt =====
-- `buffer_count` through the operations of the server.
use vector_clock_good.Common.{
  ℕ, zero, suc, ◌+◌, ◌≡◌, refl, ap, Bool, true, false, Option, none, some, List, [], ◌∷◌, arith,
  length, Bytes, Bool-cases, inl, inr, ◌==◌,
}
use vector_clock_good.Entry.{LogEntry}
use vector_clock_good.Entry.Json as EntryJson
use vector_clock_good.Server.State.{BufferNode, Server, Answer, Round}
use vector_clock_good.Server.Buffer.{insert_to_buffer, Found, nothing, stale, ready, scan}
use vector_clock_good.Server.Buffer.Insert.{insert-Inserted}
use vector_clock_good.Server.Buffer.Scan.{length-Inserted, ScanFacts, scan-ScanFacts}
use vector_clock_good.Server.Flush.{
  drop_node, deliver, flush_loop, flush_causal_buffer, is_timed_out, timeout_loop,
  check_timeout_flush,
}
use vector_clock_good.Server.Flush.Outcome.{write_keeps}
use vector_clock_good.Server.Run.{accept, receive, round, run, c_string, counted}

-- The count is the number of the nodes in the buffer.
abbrev pub IsCounted : Server → Type 0
IsCounted s = s.buffer_count ≡ length s.buffer

insert-IsCounted :
    (allocated : Bool) (now : ℕ) (s : Server) (e : LogEntry)
    → IsCounted s
    → IsCounted (insert_to_buffer allocated now s e)
unfolding insert_to_buffer
insert-IsCounted false now s e h = h
insert-IsCounted true now s e h =
    omega
      (arith, length-Inserted (insert-Inserted (record { entry = e; arrival_time = now }) s.buffer))

drop-IsCounted :
    (s : Server) (n : BufferNode) (ns : List BufferNode)
    → length s.buffer ≡ length ns + 1
    → IsCounted s
    → IsCounted (drop_node s ns)
unfolding drop_node
drop-IsCounted s n ns i h = omega arith

module _ (env : ℕ → Answer) where
  deliver-IsCounted :
      (s : Server) (n : BufferNode) (ns : List BufferNode)
      → length s.buffer ≡ length ns + 1
      → IsCounted s
      → IsCounted (deliver env s n ns)
  unfolding deliver drop_node
  deliver-IsCounted s n ns i h = omega (arith, (write_keeps env s n.entry).2)

  flush_loop-IsCounted : (fuel : ℕ) (s : Server) → IsCounted s → IsCounted (flush_loop env fuel s)
  unfolding flush_loop
  flush_loop-IsCounted zero s h = h
  flush_loop-IsCounted (suc fuel) s h =
      go (scan s.committed_vc s.buffer) refl (scan-ScanFacts s.committed_vc s.buffer)
        (flush_loop-IsCounted fuel)
    where
      go :
          (f : Found)
          → scan s.committed_vc s.buffer ≡ f
          → ScanFacts s.committed_vc s.buffer f
          → ((t : Server) → IsCounted t → IsCounted (flush_loop env fuel t))
          → IsCounted (flush_loop env (suc fuel) s)
      go nothing e q rec = rw (e, flush_loop) h
      go (stale n ns) e (i, k) rec =
          rw (e, flush_loop) (rec (drop_node s ns) (drop-IsCounted s n ns (length-Inserted i) h))
      go (ready n ns) e (i, k, r) rec =
          rw (e, flush_loop)
            (rec (deliver env s n ns) (deliver-IsCounted s n ns (length-Inserted i) h))

  flush-IsCounted : (s : Server) → IsCounted s → IsCounted (flush_causal_buffer env s)
  unfolding flush_causal_buffer
  flush-IsCounted s h = flush_loop-IsCounted (length s.buffer) s h

  timeout_loop-IsCounted :
      (fuel now : ℕ) (s : Server) → IsCounted s → IsCounted (timeout_loop env fuel now s)
  unfolding timeout_loop
  timeout_loop-IsCounted zero now s h = h
  timeout_loop-IsCounted (suc fuel) now s h = go s.buffer refl (timeout_loop-IsCounted fuel now)
    where
      go :
          (ms : List BufferNode)
          → s.buffer ≡ ms
          → ((t : Server) → IsCounted t → IsCounted (timeout_loop env fuel now t))
          → IsCounted (timeout_loop env (suc fuel) now s)
      go [] e rec = rw (e, timeout_loop) h
      go (n ∷ ns) e rec = elim (Bool-cases (is_timed_out now s n)) [
        | inl b ↦
            rw (e, b, timeout_loop)
              (rec (flush_causal_buffer env (deliver env s n ns)) (
                flush-IsCounted (deliver env s n ns)
                  (deliver-IsCounted s n ns (omega (arith, ap length e)) h)))
        | inr b ↦ rw (e, b, timeout_loop) h
      ]

  check-IsCounted : (now : ℕ) (s : Server) → IsCounted s → IsCounted (check_timeout_flush env now s)
  unfolding check_timeout_flush
  check-IsCounted now s h = timeout_loop-IsCounted (length s.buffer) now s h

  accept-IsCounted :
      (allocated : Bool) (now : ℕ) (s : Server) (o : Option LogEntry)
      → IsCounted s
      → IsCounted (accept env allocated now s o)
  unfolding accept
  accept-IsCounted allocated now s none h = h
  accept-IsCounted allocated now s (some e) h =
      flush-IsCounted (insert_to_buffer allocated now s e) (insert-IsCounted allocated now s e h)

  receive-IsCounted :
      (r : Round) (s : Server) (o : Option Bytes) → IsCounted s → IsCounted (receive env r s o)
  unfolding receive
  receive-IsCounted r s none h = h
  receive-IsCounted r s (some bytes) h = elim (Bool-cases (length bytes == 0)) [
    | inl e ↦ rw e h
    | inr e ↦ rw e (
        accept-IsCounted r.allocated r.arrival (counted s bytes)
          (EntryJson.from_json (c_string bytes)) (unfold counted in h))
  ]

  -- Whatever datagrams arrive, whatever is written, dropped or times out, and wherever memory or the
  -- disk fails, the count that the server keeps of its buffer stays the number of nodes in it.
  pub run-IsCounted : (rs : List Round) (s : Server) → IsCounted s → IsCounted (run env rs s)
  unfolding run round
  run-IsCounted [] s h = h
  run-IsCounted (r ∷ rs) s h =
      run-IsCounted rs (round env r s) (
        check-IsCounted r.checked (receive env r s r.datagram) (receive-IsCounted r s r.datagram h))
