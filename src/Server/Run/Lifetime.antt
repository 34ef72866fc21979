-- ===== src/Server/Run/Lifetime.antt =====
-- The server from its start to its cleanup.
use mathlib.Core.List.{append_assoc, append-nil, Perm}
use mathlib.Core.Option.{some-injective, some-ne-none}
use mathlib.Core.Path.{subst}
use vector_clock_good.Common.{
  gather, ℕ, ◌≡◌, refl, sym, ap, ◌∙◌, Bool, true, false, some, List, [], ◌∷◌, ◌++◌, map, arith,
}
use vector_clock_good.Clock
use vector_clock_good.Clock.{VectorClock}
use vector_clock_good.Clock.View.{IsWellFormed, init-IsWellFormed}
use vector_clock_good.Server.State.{Server, ServerConfig, BufferNode, Answer, Round}
use vector_clock_good.Server.Disk.{open_log_file, write_entry_to_file}
use vector_clock_good.Server.Flush.Events.{Event, written, subject, IsCausal, Fits, Runs}
use vector_clock_good.Server.Flush.Timeout.{Always}
use vector_clock_good.Server.Flush.Lines.{line, Recorded-line, Outcome-lines}
use vector_clock_good.Server.Flush.Outcome.{
  lines, line_if, IsUsable, open_lem, write-lines, write-Recorded,
}
use vector_clock_good.Server.Buffer.Scan.{IsQuiet}
use vector_clock_good.Server.Flush.Drain.{entries}
use vector_clock_good.Server.Run.{initial, ready_if, init, run, write_all, cleanup}
use vector_clock_good.Server.Run.Served.{arrivals}
use vector_clock_good.Server.Run.Causal.{run-Served, served-IsCausal}

ready_if_lem : (r : Bool × Server) (s : Server) → ready_if r ≡ some s → r.1 ≡ s
ready_if_lem (true, t) s h = some-injective _ _ h
ready_if_lem (false, t) s h = absurd (some-ne-none _ (sym h))

module _ (env : ℕ → Answer) where
  open_keeps :
      (s : Server)
      → ((open_log_file env s).1.committed_vc ≡ s.committed_vc)
        × ((open_log_file env s).1.buffer ≡ s.buffer)
  unfolding open_log_file
  open_keeps s = ground arith

  initial_lem : (config : ServerConfig) → IsWellFormed (initial config).committed_vc
  unfolding initial
  initial_lem config = init-IsWellFormed Clock.zeroed config.node_count refl

  IsFresh : Server → Type 0
  IsFresh s = IsWellFormed s.committed_vc × (s.buffer ≡ []) × (lines s ≡ [])

  open-IsFresh : (config : ServerConfig) → IsFresh (open_log_file env (initial config)).1
  unfolding IsFresh initial
  open-IsFresh config =
      let t = initial config in
      let (c, b) = open_keeps t in
      (rw c (initial_lem config), b, ap (map (λ p. p.1)) (open_lem env t).1)

  init-IsFresh :
      (bound : Bool) (config : ServerConfig) (s : Server)
      → init env bound config ≡ some s
      → IsFresh s
  unfolding init
  init-IsFresh false config s h = absurd (some-ne-none _ (sym h))
  init-IsFresh true config s h =
      subst IsFresh (ready_if_lem (open_log_file env (initial config)) s h) (open-IsFresh config)

  -- The walk over the buffer writes the line of each entry.
  write_all_lem :
      (ns : List BufferNode) (s : Server)
      → ((n : ℕ) → IsUsable (env n))
      → lines (write_all env ns s) ≡ lines s ++ gather line (entries ns)
  unfolding write_all
  write_all_lem [] s u = sym (append-nil (lines s))
  write_all_lem (n ∷ ns) s u =
      let r = write_entry_to_file env s n.entry in
      let one = Recorded-line r.0 n.entry (write-Recorded env s n.entry u) in
      write_all_lem ns r.1 u
      ∙ ap (λ x. x ++ gather line (entries ns)) (write-lines env s n.entry)
      ∙ append_assoc (lines s) (line_if r.0 n.entry) (gather line (entries ns))
      ∙ ap (λ x. lines s ++ (x ++ gather line (entries ns))) one

  cleanup-lines : (s : Server) → lines (cleanup env s) ≡ lines (write_all env s.buffer s)
  unfolding cleanup
  cleanup-lines s = refl

  -- A server that starts, runs through any rounds and is cleaned up, with a clock that has every node of
  -- the entries that arrive, and log files that can be opened: there are events of the run such that
  -- the lines on its disk are those of the entries written in the run, in order, and behind them those
  -- of all entries still waiting at its end (an entry whose JSON text does not fit 4096 bytes has no
  -- line); the entries that arrived are, as often, those of the events, written or discarded, and those
  -- that were waiting; an entry was discarded only where all that it counts had been committed by the
  -- events before, and written only where not; and no entry was written in the run behind one that
  -- equals it or happened after it.
  pub lifetime :
      (bound : Bool) (config : ServerConfig) (rs : List Round) (s : Server)
      → ((n : ℕ) → IsUsable (env n))
      → init env bound config ≡ some s
      → Fits s.committed_vc.node_count (arrivals rs)
      → let t = run env rs s in
        (evs : List Event) × (lines (cleanup env t)
          ≡ gather line (written evs) ++ gather line (entries t.buffer))
        × Perm (arrivals rs) (map subject evs ++ entries t.buffer)
        × Runs Always s.committed_vc evs
        × IsCausal (written evs)
  unfolding IsFresh
  lifetime bound config rs s usable h f =
      let (w, b, d) = init-IsFresh bound config s h in
      let t = run env rs s in
      let quiet : IsQuiet s.committed_vc s.buffer = rw b tt in
      let none_waits : arrivals rs ++ entries s.buffer ≡ arrivals rs =
        rw b (append-nil (arrivals rs)) in
      let fits = subst (Fits s.committed_vc.node_count) (sym none_waits) f in
      let v = run-Served env rs s quiet in
      let on_disk = Outcome-lines env s t v.events usable v.outcome in
      (
        v.events,
        cleanup-lines t
            ∙ write_all_lem t.buffer t usable
            ∙ ap (λ x. x ++ gather line (entries t.buffer))
                (on_disk ∙ ap (λ x. x ++ gather line (written v.events)) d),
        subst (λ x. Perm x (map subject v.events ++ entries t.buffer)) none_waits v.kept,
        v.outcome.runs,
        served-IsCausal env rs s quiet w fits,
      )
