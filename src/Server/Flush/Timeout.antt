-- ===== src/Server/Flush/Timeout.antt =====
-- The timeout check: it writes the head of the buffer for as long as that has waited too long, and
-- flushes after each.
use mathlib.Core.List.{append_assoc, map-append, Perm}
use mathlib.Core.List.Perm
use mathlib.Core.Path.{subst}
use vector_clock_good.Common.{
  ℕ, zero, suc, ◌≤◌, ◌≡◌, refl, sym, ap, false, List, [], ◌∷◌, ◌++◌, map, arith, length,
  if◌then◌else◌, Bool-cases, inl, inr,
}
use vector_clock_good.Clock.{VectorClock}
use vector_clock_good.Entry.{LogEntry}
use vector_clock_good.Server.State.{BufferNode, Server, Answer}
use vector_clock_good.Server.Disk.{write_entry_to_file}
use vector_clock_good.Server.Buffer.Scan.{IsQuiet}
use vector_clock_good.Server.Flush.{
  deliver, flush_causal_buffer, is_timed_out, timeout_loop, check_timeout_flush,
}
use vector_clock_good.Server.Flush.Events.{Event, wrote, subject, Runs-weaken}
use vector_clock_good.Server.Flush.Outcome.{Outcome, Outcome-nil, Outcome-append, deliver-Outcome}
use vector_clock_good.Server.Flush.Drain.{
  Ready, entries, flush-Flushed, buffer-deliver, nil_of_length,
}

abbrev pub Always : VectorClock → LogEntry → Type 0
Always c e = Unit {0}

-- The head of the buffer, if there is one, has not timed out.
abbrev pub HeadWaits : ℕ → Server → List BufferNode → Type 0
HeadWaits now t [] = Unit {0}
HeadWaits now t (n ∷ ns) = is_timed_out now t n ≡ false

module _ (env : ℕ → Answer) where
  pub Outcome-Always :
      {s t : Server} (evs : List Event) → Outcome env Ready s evs t → Outcome env Always s evs t
  Outcome-Always {s} evs o = record {
    runs = Runs-weaken Ready Always (λ c e r. tt) s.committed_vc evs o.runs;
    committed = o.committed;
    recorded = o.recorded;
    on_disk = o.on_disk;
  }

  -- What the timeout check makes of `s`.
  pub record Checked (now : ℕ) (s t : Server) : Type 0 where
    pub events : List Event
    pub outcome : Outcome env Always s events t
    pub kept : Perm (entries s.buffer) (map subject events ++ entries t.buffer)
    pub quiet : IsQuiet t.committed_vc t.buffer
    pub waits : HeadWaits now t t.buffer

  Checked-stop :
      (now : ℕ) (s : Server)
      → IsQuiet s.committed_vc s.buffer
      → HeadWaits now s s.buffer
      → Checked now s s
  Checked-stop now s q w = record {
    events = [];
    outcome = Outcome-nil env s s refl refl;
    kept = Perm.refl _;
    quiet = q;
    waits = w;
  }

  Checked-cons :
      (now : ℕ) (s u : Server) (n : BufferNode) (ns : List BufferNode)
      → s.buffer ≡ n ∷ ns
      → IsQuiet s.committed_vc s.buffer
      → Checked now (flush_causal_buffer env (deliver env s n ns)) u
      → Checked now s u
  Checked-cons now s u n ns e q c =
      let m = deliver env s n ns in
      let f = flush-Flushed env m in
      let ev = wrote (write_entry_to_file env s n.entry).0 n.entry in
      let quiet : IsQuiet s.committed_vc (n ∷ ns) = rw e at q in
      record {
        events = ev ∷ (f.events ++ c.events);
        outcome =
            Outcome-append env (ev ∷ []) (f.events ++ c.events)
              (deliver-Outcome env s n ns quiet.0.0 tt)
              (Outcome-append env f.events c.events (Outcome-Always f.events f.outcome) c.outcome);
        kept =
            let here : Perm (entries s.buffer) (n.entry ∷ entries ns) = rw e (Perm.refl _) in
            let flushed : Perm (entries ns)
                (map subject f.events ++ entries (flush_causal_buffer env m).buffer) =
              rw (ap entries (buffer-deliver env s n ns)) at f.kept in
            Perm.trans here (
              Perm.cons _ (
                Perm.trans flushed (
                  rw (map-append subject f.events c.events, append_assoc)
                    (Perm.append_left (map subject f.events) c.kept))));
        quiet = c.quiet;
        waits = c.waits;
      }

  timeout_loop-nil :
      (fuel now : ℕ) (s : Server) → s.buffer ≡ [] → timeout_loop env (suc fuel) now s ≡ s
  unfolding timeout_loop
  timeout_loop-nil fuel now s e = ground arith

  timeout_loop-cons :
      (fuel now : ℕ) (s : Server) (n : BufferNode) (ns : List BufferNode)
      → s.buffer ≡ n ∷ ns
      → timeout_loop env (suc fuel) now s ≡ (
          if is_timed_out now s n
          then timeout_loop env fuel now (flush_causal_buffer env (deliver env s n ns))
          else s)
  unfolding timeout_loop
  timeout_loop-cons fuel now s n ns e = ground arith

  timeout_loop-Checked :
      (fuel now : ℕ) (s : Server)
      → length s.buffer ≤ fuel
      → IsQuiet s.committed_vc s.buffer
      → Checked now s (timeout_loop env fuel now s)
  unfolding timeout_loop
  timeout_loop-Checked zero now s h q = Checked-stop now s q (rw (nil_of_length s.buffer h) tt)
  timeout_loop-Checked (suc fuel) now s h q = go s.buffer refl (timeout_loop-Checked fuel now)
    where
      go :
          (ms : List BufferNode)
          → s.buffer ≡ ms
          → ((t : Server)
              → length t.buffer ≤ fuel
              → IsQuiet t.committed_vc t.buffer
              → Checked now t (timeout_loop env fuel now t))
          → Checked now s (timeout_loop env (suc fuel) now s)
      go [] e rec = rw (timeout_loop-nil fuel now s e) (Checked-stop now s q (rw e tt))
      go (n ∷ ns) e rec = elim (Bool-cases (is_timed_out now s n)) [
        | inl b ↦
            let f = flush-Flushed env (deliver env s n ns) in
            rw (timeout_loop-cons fuel now s n ns e, b)
              (Checked-cons now s _ n ns e q (
                rec (flush_causal_buffer env (deliver env s n ns))
                  (omega (arith, f.shorter, ap length (buffer-deliver env s n ns), ap length e))
                  f.quiet))
        | inr b ↦
            rw (timeout_loop-cons fuel now s n ns e, b)
              (Checked-stop now s q (subst (HeadWaits now s) (sym e) b))
      ]

  timeout_loop_waits :
      (fuel now : ℕ) (s : Server) (ns : List BufferNode)
      → s.buffer ≡ ns
      → HeadWaits now s ns
      → timeout_loop env fuel now s ≡ s
  unfolding timeout_loop
  timeout_loop_waits zero now s ns e w = refl
  timeout_loop_waits (suc fuel) now s [] e w = timeout_loop-nil fuel now s e
  timeout_loop_waits (suc fuel) now s (n ∷ ns) e w =
      rw (timeout_loop-cons fuel now s n ns e, w) refl

  -- The check leaves a server alone whose head has not timed out.
  pub check_waits :
      (now : ℕ) (s : Server) → HeadWaits now s s.buffer → check_timeout_flush env now s ≡ s
  unfolding check_timeout_flush
  check_waits now s w = timeout_loop_waits (length s.buffer) now s s.buffer refl w

  -- From a quiet buffer the timeout check ends, with a quiet buffer whose head has not timed out.
  pub check-Checked :
      (now : ℕ) (s : Server)
      → IsQuiet s.committed_vc s.buffer
      → Checked now s (check_timeout_flush env now s)
  unfolding check_timeout_flush
  check-Checked now s q = timeout_loop-Checked (length s.buffer) now s (omega arith) q
