-- ===== src/Server/Run/InTime.antt =====
-- A run in which nothing times out: the entries of a chain reach the disk, however they arrive.
use mathlib.Core.List.{append-nil, Perm}
use mathlib.Core.List.Perm
use vector_clock_good.Common.{
  gather, All, All-map, ℕ, ◌+◌, ◌^◌, ◌≤◌, ◌<◌, ◌≡◌, refl, ap, ◌∙◌, arith, Bool, true, false, Option,
  none, some, List, [], ◌∷◌, ◌++◌, length, Bytes, Bool-cases, inl, inr, ◌==◌,
}
use vector_clock_good.Clock.View.{IsWellFormed}
use vector_clock_good.Entry.{LogEntry}
use vector_clock_good.Entry.Json as EntryJson
use vector_clock_good.Server.State.{BufferNode, Server, Answer, Round}
use vector_clock_good.Server.Buffer.{insert_to_buffer}
use vector_clock_good.Server.Buffer.Insert.{insert-Inserted}
use vector_clock_good.Server.Buffer.Scan.{IsQuiet, IsWithin, All-Inserted}
use vector_clock_good.Server.Flush.{is_timed_out, check_timeout_flush}
use vector_clock_good.Server.Flush.Events.{Event, advance, written, IsCausal}
use vector_clock_good.Server.Flush.Outcome.{lines, IsUsable}
use vector_clock_good.Server.Flush.Lines.{line, Outcome-lines}
use vector_clock_good.Server.Flush.Drain.{Ready, entries, flush-Flushed}
use vector_clock_good.Server.Flush.Timeout.{HeadWaits, check_waits}
use vector_clock_good.Server.Flush.Advance.{IsChain, HasNodes, IsNear}
use vector_clock_good.Server.Flush.Chain.{run_chain}
use vector_clock_good.Server.Run.{accept, receive, round, run, c_string, counted}
use vector_clock_good.Server.Run.Served.{
  arrivals_of, arrivals, Served, Served-trans, Served-nil, receive-Served,
}

-- From the time `now` the clock of the server never goes back, and stops at `last`.
abbrev pub Timely : ℕ → ℕ → List Round → Type 0
Timely now last [] = Unit {0}
Timely now last (r ∷ rs) =
    (now ≤ r.arrival) × (r.arrival ≤ r.checked) × (r.checked ≤ last) × Timely r.checked last rs

-- The limit of the timeout stays, and no node of the buffer came before `low` or after `high`.
record IsRecent (low high limit : ℕ) (s : Server) : Type 0 where
  same_limit : s.config.timeout_ms ≡ limit
  within : All (IsWithin low high) s.buffer

later-IsWithin :
    (low high later : ℕ) (ns : List BufferNode)
    → high ≤ later
    → All (IsWithin low high) ns
    → All (IsWithin low later) ns
later-IsWithin low high later ns l h =
    All-map (λ n w. record { after = w.after; before = omega (arith, w.before, l) }) ns h

later-IsRecent :
    (low high later limit : ℕ) (s : Server)
    → high ≤ later
    → IsRecent low high limit s
    → IsRecent low later limit s
later-IsRecent low high later limit s l h = record {
  same_limit = h.same_limit;
  within = later-IsWithin low high later s.buffer l h.within;
}

-- A node that has not waited longer than the limit has not timed out.
not_timed_out :
    (low high now limit : ℕ) (s : Server) (n : BufferNode)
    → s.config.timeout_ms ≡ limit
    → IsWithin low high n
    → high ≤ now
    → now ≤ low + limit
    → now < 2 ^ 64
    → is_timed_out now s n ≡ false
unfolding is_timed_out
not_timed_out low high now limit s n l w h k fits = ground (arith, l, w.after, w.before)

head_waits :
    (low high now limit : ℕ) (s : Server) (ns : List BufferNode)
    → s.config.timeout_ms ≡ limit
    → All (IsWithin low high) ns
    → high ≤ now
    → now ≤ low + limit
    → now < 2 ^ 64
    → HeadWaits now s ns
head_waits low high now limit s [] l w h k fits = tt
head_waits low high now limit s (n ∷ ns) l (w, ws) h k fits =
    not_timed_out low high now limit s n l w h k fits

module _ (env : ℕ → Answer) where
  accept-IsRecent :
      (allocated : Bool) (low now limit : ℕ) (s : Server) (o : Option LogEntry)
      → low ≤ now
      → IsRecent low now limit s
      → IsRecent low now limit (accept env allocated now s o)
  unfolding accept insert_to_buffer
  accept-IsRecent allocated low now limit s none l r = record {
    same_limit = r.same_limit;
    within = r.within;
  }
  accept-IsRecent false low now limit s (some e) l r =
      let f = flush-Flushed env s in
      record {
        same_limit = ap (λ c. c.timeout_ms) f.config ∙ r.same_limit;
        within = f.within low now r.within;
      }
  accept-IsRecent true low now limit s (some e) l r =
      let node : BufferNode = record { entry = e; arrival_time = now } in
      let f = flush-Flushed env (insert_to_buffer true now s e) in
      record {
        same_limit = ap (λ c. c.timeout_ms) f.config ∙ r.same_limit;
        within = f.within low now (
            All-Inserted (IsWithin low now) (insert-Inserted node s.buffer)
              (record { after = l; before = omega arith }) r.within);
      }

  receive-IsRecent :
      (r : Round) (low limit : ℕ) (s : Server)
      → low ≤ r.arrival
      → IsRecent low r.arrival limit s
      → IsRecent low r.arrival limit (receive env r s r.datagram)
  unfolding receive
  receive-IsRecent r low limit s l h = go r.datagram
    where
      go : (o : Option Bytes) → IsRecent low r.arrival limit (receive env r s o)
      go none = h
      go (some bytes) = elim (Bool-cases (length bytes == 0)) [
        | inl e ↦ rw e h
        | inr e ↦ rw e (
            accept-IsRecent r.allocated low r.arrival limit (counted s bytes)
              (EntryJson.from_json (c_string bytes)) l
              (record { same_limit = h.same_limit; within = h.within }))
      ]

  run-Served :
      (rs : List Round) (low now limit : ℕ) (s : Server)
      → low ≤ now
      → low + limit < 2 ^ 64
      → Timely now (low + limit) rs
      → IsRecent low now limit s
      → IsQuiet s.committed_vc s.buffer
      → Served env Ready (arrivals rs) s (run env rs s)
  unfolding run round arrivals
  run-Served [] low now limit s l fits time h q = Served-nil env Ready s s refl refl refl q
  run-Served (r ∷ rs) low now limit s l fits (t, t', t'', time) h q =
      let m = receive env r s r.datagram in
      let a = receive-Served env r s q in
      let recent =
        receive-IsRecent r low limit s (omega arith)
          (later-IsRecent low now r.arrival limit s t h) in
      let same : check_timeout_flush env r.checked m ≡ m = check_waits env r.checked m (
        head_waits low r.arrival r.checked limit m m.buffer recent.same_limit recent.within t' t''
          (omega arith)) in
      rw same (
        Served-trans env (arrivals_of r) (arrivals rs) a (
          run-Served rs low r.checked limit m (omega arith) fits time
            (later-IsRecent low r.arrival r.checked limit m t' recent) a.quiet))

-- A run in time on the entries of a chain, which are all written.
pub record InTime (env : ℕ → Answer) (arrived es : List LogEntry) (s t : Server) : Type 0 where
  pub served : Served env Ready arrived s t
  pub empty : t.buffer ≡ []
  pub all : Perm es (written served.events)
  pub causal : IsCausal (written served.events)

pub run-InTime :
    (env : ℕ → Answer) (rs : List Round) (s : Server) (es : List LogEntry) (start : ℕ)
    → s.buffer ≡ []
    → start + s.config.timeout_ms < 2 ^ 64
    → Timely start (start + s.config.timeout_ms) rs
    → IsWellFormed s.committed_vc
    → HasNodes s.committed_vc.node_count es
    → IsNear s.committed_vc es
    → IsChain s.committed_vc es
    → Perm es (arrivals rs)
    → InTime env (arrivals rs) es s (run env rs s)
run-InTime env rs s es start empty fits time w n near h p =
    let v =
      run-Served env rs start start s.config.timeout_ms s (omega arith) fits time
        (record { same_limit = refl; within = rw empty tt }) (rw empty tt) in
    let nothing : entries s.buffer ≡ [] = ap entries empty in
    let kept = Perm.trans p (rw (← append-nil (arrivals rs), ← nothing) v.kept) in
    let (done, all, causal) =
      run_chain s.committed_vc es v.events (run env rs s).buffer w n near h v.outcome.runs
        (rw v.outcome.committed at v.quiet) kept in
    record { served = v; empty = done; all = all; causal = causal }

-- If the buffer is empty, the log file of each day can be opened and the server's clock never goes back
-- during a run that lasts no longer than the timeout, and if what arrives is, in any order, a chain of
-- entries in which each is one step ahead of the committed clock with those before it, of the nodes of
-- that clock and within the range of the 32-bit count, then the buffer ends empty, and what is added to
-- the disk are the lines of these entries, once each and in causal order: there are events whose
-- written entries are those of the chain, as often, in an order in which none comes after one that it
-- equals or happened before, whose lines are added to the disk in that order (an entry whose JSON text
-- does not fit 4096 bytes has none), and which the committed clock takes in.
pub run_in_time :
    (env : ℕ → Answer) (rs : List Round) (s : Server) (es : List LogEntry) (start : ℕ)
    → ((n : ℕ) → IsUsable (env n))
    → s.buffer ≡ []
    → start + s.config.timeout_ms < 2 ^ 64
    → Timely start (start + s.config.timeout_ms) rs
    → IsWellFormed s.committed_vc
    → HasNodes s.committed_vc.node_count es
    → IsNear s.committed_vc es
    → IsChain s.committed_vc es
    → Perm es (arrivals rs)
    → let t = run env rs s in
      (evs : List Event) × (t.buffer ≡ [])
      × Perm es (written evs)
      × IsCausal (written evs)
      × (t.committed_vc ≡ advance s.committed_vc evs)
      × (lines t ≡ lines s ++ gather line (written evs))
run_in_time env rs s es start usable empty fits time w n near h p =
    let t = run-InTime env rs s es start empty fits time w n near h p in
    let o = t.served.outcome in
    (
      t.served.events,
      t.empty,
      t.all,
      t.causal,
      o.committed,
      Outcome-lines env s (run env rs s) t.served.events usable o,
    )
