-- ===== src/Server/Flush/Drain.antt =====
-- The flush finishes: what it writes and discards, and what it leaves in the buffer.
use mathlib.Core.List.{Perm}
use mathlib.Core.List.Perm
use vector_clock_good.Common.{
  All, ℕ, zero, suc, ◌≤◌, ◌≡◌, refl, ap, ◌∙◌, true, List, [], ◌∷◌, ◌++◌, map, arith, length,
}
use vector_clock_good.Clock.{VectorClock}
use vector_clock_good.Entry.{LogEntry}
use vector_clock_good.Server.State.{BufferNode, Server, Answer}
use vector_clock_good.Server.Disk.{write_entry_to_file}
use vector_clock_good.Server.Buffer.{is_ready, Found, nothing, stale, ready, scan}
use vector_clock_good.Server.Buffer.Scan.{
  Inserted, here, there, length-Inserted, All-Inserted_inv, IsWithin, IsQuiet, ScanFacts,
  scan-ScanFacts,
}
use vector_clock_good.Server.Flush.{drop_node, deliver, flush_loop, flush_causal_buffer}
use vector_clock_good.Server.Flush.Events.{Event, wrote, discarded, subject}
use vector_clock_good.Server.Flush.Outcome.{
  Outcome, Outcome-nil, Outcome-append, drop-Outcome, deliver-Outcome, write_keeps,
}

abbrev pub entries : List BufferNode → List LogEntry
entries = map (λ n. n.entry)

pub perm-Inserted :
    {n : BufferNode} {ns ms : List BufferNode}
    → Inserted n ns ms
    → Perm (entries ms) (n.entry ∷ entries ns)
perm-Inserted here = Perm.refl _
perm-Inserted (there i) = Perm.trans (Perm.cons _ (perm-Inserted i)) (Perm.swap _ _ _)

pub nil_of_length : (ms : List BufferNode) → length ms ≤ 0 → ms ≡ []
nil_of_length [] h = refl
nil_of_length (m ∷ ms) h = absurd (omega arith)

abbrev pub Ready : VectorClock → LogEntry → Type 0
Ready c e = is_ready c e ≡ true

module _ (env : ℕ → Answer) where
  -- A finished flush from `s` to `t`.
  pub record Flushed (s t : Server) : Type 0 where
    pub events : List Event
    pub outcome : Outcome env Ready s events t
    pub kept : Perm (entries s.buffer) (map subject events ++ entries t.buffer)
    pub quiet : IsQuiet t.committed_vc t.buffer
    pub shorter : length t.buffer ≤ length s.buffer
    pub config : t.config ≡ s.config
    pub within :
        (low high : ℕ) → All (IsWithin low high) s.buffer → All (IsWithin low high) t.buffer

  Flushed-cons :
      {s m t : Server} (n : BufferNode) (ns : List BufferNode) (ev : Event)
      → Inserted n ns s.buffer
      → m.buffer ≡ ns
      → m.config ≡ s.config
      → subject ev ≡ n.entry
      → Outcome env Ready s (ev ∷ []) m
      → Flushed m t
      → Flushed s t
  Flushed-cons n ns ev i b c e o f = record {
    events = ev ∷ f.events;
    outcome = Outcome-append env (ev ∷ []) f.events o f.outcome;
    kept = Perm.trans (perm-Inserted i) (rw e (Perm.cons _ (rw (ap entries b) at f.kept)));
    quiet = f.quiet;
    shorter = omega (arith, length-Inserted i, f.shorter, ap length b);
    config = f.config ∙ c;
    within = λ low high h. f.within low high (rw b (All-Inserted_inv (IsWithin low high) i h));
  }

  Flushed-quiet : (s : Server) → IsQuiet s.committed_vc s.buffer → Flushed s s
  Flushed-quiet s q = record {
    events = [];
    outcome = Outcome-nil env s s refl refl;
    kept = Perm.refl _;
    quiet = q;
    shorter = omega arith;
    config = refl;
    within = λ low high h. h;
  }

  pub buffer-deliver :
      (s : Server) (n : BufferNode) (ns : List BufferNode) → (deliver env s n ns).buffer ≡ ns
  unfolding deliver drop_node
  buffer-deliver s n ns = refl

  -- As many rounds as there are nodes finish the flush.
  pub flush_loop-Flushed :
      (fuel : ℕ) (s : Server) → length s.buffer ≤ fuel → Flushed s (flush_loop env fuel s)
  unfolding flush_loop
  flush_loop-Flushed zero s h = Flushed-quiet s (rw (nil_of_length s.buffer h) tt)
  flush_loop-Flushed (suc fuel) s h =
      go (scan s.committed_vc s.buffer) refl (scan-ScanFacts s.committed_vc s.buffer)
        (λ t b. flush_loop-Flushed fuel t b)
    where
      go :
          (f : Found)
          → scan s.committed_vc s.buffer ≡ f
          → ScanFacts s.committed_vc s.buffer f
          → ((t : Server) → length t.buffer ≤ fuel → Flushed t (flush_loop env fuel t))
          → Flushed s (flush_loop env (suc fuel) s)
      go nothing e q rec = rw (e, flush_loop) (Flushed-quiet s q)
      go (stale n ns) e (i, k) rec =
          rw (e, flush_loop)
            (Flushed-cons n ns (discarded n.entry) i refl refl refl (drop-Outcome env s n ns k)
              (rec (drop_node s ns) (omega (arith, length-Inserted i))))
      go (ready n ns) e (i, k, r) rec =
          rw (e, flush_loop)
            (Flushed-cons n ns (wrote (write_entry_to_file env s n.entry).0 n.entry) i
              (buffer-deliver s n ns) (write_keeps env s n.entry).3 refl
              (deliver-Outcome env s n ns k r)
              (rec (deliver env s n ns) (omega (arith, length-Inserted i))))

  -- A flush ends with nothing in the buffer that is known or next.
  pub flush-Flushed : (s : Server) → Flushed s (flush_causal_buffer env s)
  unfolding flush_causal_buffer
  flush-Flushed s = flush_loop-Flushed (length s.buffer) s (omega arith)
