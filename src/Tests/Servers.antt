-- ===== src/Tests/Servers.antt =====
-- The laws of the server, on small buffers and short runs.
use mathlib.Core.List.{Perm}
use mathlib.Core.List.Perm
use vector_clock_good.Common.{
  gather, ℕ, ◌≡◌, ◌↔◌, refl, arith, true, false, some, List, [], ◌∷◌, ◌++◌, map, codes,
}
use vector_clock_good.Clock
use vector_clock_good.Clock.Compare.{Leq}
use vector_clock_good.Entry.{LogEntry}
use vector_clock_good.Entry.Json as EntryJson
use vector_clock_good.Server.State.{Server, Round}
use vector_clock_good.Server.Buffer.{is_stale, is_ready}
use vector_clock_good.Server.Buffer.Ready.{IsStepAt, steps, is_ready-iff_IsStepAt, is_ready_wraps}
use vector_clock_good.Server.Buffer.Scan.{is_stale-iff_Leq, IsQuiet}
use vector_clock_good.Server.Flush.{flush_causal_buffer, check_timeout_flush}
use vector_clock_good.Server.Flush.Events.{Event, subject, written, advance, IsCausal, Runs}
use vector_clock_good.Server.Flush.Outcome.{lines, lines_of}
use vector_clock_good.Server.Flush.Lines.{line}
use vector_clock_good.Server.Flush.Drain.{Flushed, flush-Flushed, entries}
use vector_clock_good.Server.Flush.Timeout.{Checked, check-Checked, Always}
use vector_clock_good.Server.Flush.Chain.{flush_chain}
use vector_clock_good.Server.Run.{run, init, cleanup, c_string}
use vector_clock_good.Server.Run.Lifetime.{lifetime}
use vector_clock_good.Server.Run.Served.{arrivals}
use vector_clock_good.Server.Run.Causal.{run_lem}
use vector_clock_good.Server.Run.Count.{run-IsCounted, IsCounted}
use vector_clock_good.Tests.{
  clock, clock-IsWellFormed, first, second, node, answers_all, answers_all-IsUsable, server, entry,
}

-- The second event waits in front of the first.
abbrev waiting : Server
waiting = server (node second 1 ∷ (node first 2 ∷ [])) 2

is_ready-iff_IsStepAt_example :
    (is_ready (clock 0 0) first ≡ true) ↔ ((k : ℕ) × IsStepAt 2 0 first.vc (clock 0 0) k)
unfolding steps
is_ready-iff_IsStepAt_example = is_ready-iff_IsStepAt (clock 0 0) first (omega arith)

-- An entry that is 2 ^ 32 + 1 steps ahead.
abbrev far : LogEntry
far = entry (codes "node-0") (clock 4294967297 0) 10 []

is_ready_wraps_example : is_ready (clock 0 0) far ≡ true
unfolding steps
is_ready_wraps_example = is_ready_wraps (clock 0 0) far refl

is_stale-iff_Leq_example : (is_stale (clock 1 1) second ≡ true) ↔ Leq second.vc (clock 1 1)
is_stale-iff_Leq_example = is_stale-iff_Leq (clock 1 1) second

flush-Flushed_example : Flushed answers_all waiting (flush_causal_buffer answers_all waiting)
flush-Flushed_example = flush-Flushed answers_all waiting

-- A buffer in which nothing can move: an event of node 0 is missing.
abbrev stuck : Server
stuck = server (node second 1 ∷ []) 1

stuck-IsQuiet : IsQuiet stuck.committed_vc stuck.buffer
unfolding is_stale is_ready Clock.compare
stuck-IsQuiet = ((refl, refl), tt)

check-Checked_example : Checked answers_all 5000 stuck (check_timeout_flush answers_all 5000 stuck)
check-Checked_example = check-Checked answers_all 5000 stuck stuck-IsQuiet

-- A datagram that brings the first event.
abbrev bring : Round
bring = record {
  datagram = some (codes "{\"node_id\":\"node-0\",\"vector_clock\":{\"node-0\":1,\"node-1\":0}}");
  allocated = true;
  arrival = 3;
  checked = 4;
}

abbrev fresh : Server
fresh = server [] 0

run_lem_example :
    (evs : List Event) × (lines (run answers_all (bring ∷ []) fresh) ≡ lines fresh ++ lines_of evs)
    × ((run answers_all (bring ∷ []) fresh).committed_vc ≡ advance fresh.committed_vc evs)
    × IsCausal (written evs)
    × Perm
        (arrivals (bring ∷ []) ++ [])
        (map subject evs ++ entries (run answers_all (bring ∷ []) fresh).buffer)
unfolding arrivals c_string EntryJson.from_json
run_lem_example =
    run_lem answers_all (bring ∷ []) fresh tt (clock-IsWellFormed 0 0) (omega arith, tt)

run-IsCounted_example : IsCounted (run answers_all (bring ∷ []) waiting)
run-IsCounted_example = run-IsCounted answers_all (bring ∷ []) waiting refl

flush_chain_example :
    (evs : List Event) × ((flush_causal_buffer answers_all waiting).buffer ≡ [])
    × Perm (first ∷ (second ∷ [])) (written evs)
    × IsCausal (written evs)
    × ((flush_causal_buffer answers_all waiting).committed_vc ≡ advance (clock 0 0) evs)
    × (lines (flush_causal_buffer answers_all waiting) ≡ lines waiting ++ gather line (written evs))
unfolding steps Clock.merge Clock.merge_loop
flush_chain_example =
    flush_chain answers_all waiting (first ∷ (second ∷ [])) answers_all-IsUsable
      (clock-IsWellFormed 0 0) (refl, (refl, tt)) (omega arith, (omega arith, tt))
      (refl, (refl, tt)) (Perm.swap second first [])

-- The server that has just started.
abbrev started : Server
started = record (server [] 0) {
  log_fp = some (codes "./logs/2024-01-01.jsonl");
  current_date = codes "2024-01-01";
  running = false;
  calls = 1;
}

lifetime_example :
    let t = run answers_all (bring ∷ []) started in
    (evs : List Event) × (lines (cleanup answers_all t)
      ≡ gather line (written evs) ++ gather line (entries t.buffer))
    × Perm (arrivals (bring ∷ [])) (map subject evs ++ entries t.buffer)
    × Runs Always (clock 0 0) evs
    × IsCausal (written evs)
unfolding init arrivals c_string EntryJson.from_json
lifetime_example =
    lifetime answers_all true (server [] 0).config (bring ∷ []) started answers_all-IsUsable refl
      (omega arith, tt)
