-- ===== src/Server/Run/Causal.antt =====
-- The whole run of the server: what reaches the disk is in causal order.
use mathlib.Core.List.{append-nil, Perm}
use native.Mathlib.Bridge.{le_prop}
use vector_clock_good.Common.{
  ℕ, ◌≤◌, ◌≡◌, refl, List, [], ◌∷◌, ◌++◌, map, All-append_left, All-perm,
}
use vector_clock_good.Clock.View.{IsWellFormed}
use vector_clock_good.Entry.{LogEntry}
use vector_clock_good.Server.State.{Server, Answer, Round}
use vector_clock_good.Server.Buffer.Scan.{IsQuiet}
use vector_clock_good.Server.Flush.Events.{
  Event, wrote, discarded, subject, advance, written, Runs-IsCausal, IsCausal, Fits,
}
use vector_clock_good.Server.Flush.Outcome.{lines, lines_of}
use vector_clock_good.Server.Flush.Drain.{Ready, entries}
use vector_clock_good.Server.Flush.Timeout.{Always, Outcome-Always, check-Checked}
use vector_clock_good.Server.Run.Served.{
  arrivals_of, arrivals, Served, Served-trans, Served-nil, receive-Served,
}
use vector_clock_good.Server.Run.{receive, round, run}

module _ (env : ℕ → Answer) where
  Served-Always :
      {xs : List LogEntry} {s t : Server} → Served env Ready xs s t → Served env Always xs s t
  Served-Always a = record {
    events = a.events;
    outcome = Outcome-Always env a.events a.outcome;
    kept = a.kept;
    quiet = a.quiet;
  }

  round-Served :
      (r : Round) (s : Server)
      → IsQuiet s.committed_vc s.buffer
      → Served env Always (arrivals_of r) s (round env r s)
  unfolding round
  round-Served r s q =
      let a = receive-Served env r s q in
      let c = check-Checked env r.checked (receive env r s r.datagram) a.quiet in
      rw (← append-nil (arrivals_of r)) (
        Served-trans env (arrivals_of r) [] (Served-Always a)
          (record { events = c.events; outcome = c.outcome; kept = c.kept; quiet = c.quiet }))

  pub run-Served :
      (rs : List Round) (s : Server)
      → IsQuiet s.committed_vc s.buffer
      → Served env Always (arrivals rs) s (run env rs s)
  unfolding run arrivals
  run-Served [] s q = Served-nil env Always s s refl refl refl q
  run-Served (r ∷ rs) s q =
      let a = round-Served r s q in
      Served-trans env (arrivals_of r) (arrivals rs) a (run-Served rs (round env r s) a.quiet)

written-Fits : (n : ℕ) (evs : List Event) → Fits n (map subject evs) → Fits n (written evs)
unfolding written
written-Fits n [] h = tt
written-Fits n (wrote b e ∷ evs) (p, h) = (p, written-Fits n evs h)
written-Fits n (discarded e ∷ evs) (p, h) = written-Fits n evs h

pub served-IsCausal :
    (env : ℕ → Answer) (rs : List Round) (s : Server) (quiet : IsQuiet s.committed_vc s.buffer)
    → IsWellFormed s.committed_vc
    → Fits s.committed_vc.node_count (arrivals rs ++ entries s.buffer)
    → IsCausal (written (run-Served env rs s quiet).events)
served-IsCausal env rs s quiet w f =
    let v = run-Served env rs s quiet in
    let n = s.committed_vc.node_count in
    let g =
      All-append_left (λ e. e.vc.node_count ≤ n) (map subject v.events)
        (entries (run env rs s).buffer)
        (All-perm (λ e. e.vc.node_count ≤ n) (λ e. le_prop) v.kept f) in
    Runs-IsCausal Always s.committed_vc v.events w (written-Fits n v.events g) v.outcome.runs

-- Whatever datagrams arrive and whatever times out, from a state with a quiet buffer and a
-- well-formed committed clock that has every node of the entries in the buffer and of those that
-- arrive: there are events such that the lines added to the disk are those of the entries whose
-- write succeeded, in order; the committed clock has taken in every entry that was written; of any
-- two entries that were written the later neither equals the earlier nor happened before it; and the
-- entries that arrived or waited are, as often, those that were written, discarded or still wait.
pub run_lem :
    (env : ℕ → Answer) (rs : List Round) (s : Server)
    → IsQuiet s.committed_vc s.buffer
    → IsWellFormed s.committed_vc
    → Fits s.committed_vc.node_count (arrivals rs ++ entries s.buffer)
    → (evs : List Event) × (lines (run env rs s) ≡ lines s ++ lines_of evs)
      × ((run env rs s).committed_vc ≡ advance s.committed_vc evs)
      × IsCausal (written evs)
      × Perm (arrivals rs ++ entries s.buffer) (map subject evs ++ entries (run env rs s).buffer)
run_lem env rs s quiet w f =
    let v = run-Served env rs s quiet in
    (v.events, v.outcome.on_disk, v.outcome.committed, served-IsCausal env rs s quiet w f, v.kept)
