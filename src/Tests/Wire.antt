-- ===== src/Tests/Wire.antt =====
-- A short log on its way from an agent to the disk of the server.
use mathlib.Core.List.{Perm}
use mathlib.Core.List.Perm
use vector_clock_good.Common.{
  ◌≡◌, refl, arith, true, some, none, List, [], ◌∷◌, ◌++◌, codes, Bytes, gather, Prints,
}
use vector_clock_good.Clock
use vector_clock_good.Clock.View.{at}
use vector_clock_good.Clock.Json as ClockJson
use vector_clock_good.Entry.{LogEntry}
use vector_clock_good.Entry.Json as EntryJson
use vector_clock_good.Entry.Json.Fits.{to_json_entry-Prints}
use vector_clock_good.Server.Buffer.Ready.{steps}
use vector_clock_good.Server.State.{Round}
use vector_clock_good.Server.Flush.Events.{Event, written, advance, IsCausal}
use vector_clock_good.Server.Flush.Outcome.{lines}
use vector_clock_good.Server.Run.{run, c_string}
use vector_clock_good.Server.Run.Served.{arrivals}
use vector_clock_good.Server.Run.InTime.{run_in_time}
use vector_clock_good.Server.Flush.Lines.{line}
use vector_clock_good.Agent.Line.{parse_vc, parse_line}
use vector_clock_good.Agent.State.{node_index}
use vector_clock_good.Agent.Run.{process_lines}
use vector_clock_good.Agent.Texts.{bounded-Fits64}
use vector_clock_good.Agent.Wire.{agent_to_disk}
use vector_clock_good.Tests.{
  clock, clock-IsWellFormed, entry, server, answers_all, answers_all-IsUsable,
}
use vector_clock_good.Tests.Agents.{system, agent, bare_lines}

abbrev up_text : Bytes
up_text =
    codes
      "{\"node_id\":\"node-02\",\"vector_clock\":{\"node-0\":0,\"node-1\":1},\"timestamp\":1000,"
    ++ codes "\"level\":\"INFO\",\"message\":\"up\"}"

abbrev down_text : Bytes
down_text =
    codes
      "{\"node_id\":\"node-02\",\"vector_clock\":{\"node-0\":0,\"node-1\":2},\"timestamp\":1000,"
    ++ codes "\"level\":\"INFO\",\"message\":\"down\"}"

-- The second datagram overtakes the first.
abbrev rounds : List Round
rounds =
    record { datagram = some down_text; allocated = true; arrival = 2000; checked = 2001 }
    ∷ (record { datagram = none; allocated = true; arrival = 2100; checked = 2100 }
        ∷ (record { datagram = some up_text; allocated = true; arrival = 2200; checked = 2201 }
            ∷ []))

agent_to_disk_example :
    let t = run answers_all rounds (server [] 0) in
    (ws : List LogEntry) × (ls : List Bytes) × (t.buffer ≡ [])
    × (lines t ≡ [] ++ ls)
    × Perm (up_text ∷ (down_text ∷ [])) ls
    × (ls ≡ gather line ws)
    × IsCausal ws
unfolding process_lines parse_line node_index parse_vc at EntryJson.to_json ClockJson.to_json
agent_to_disk_example =
    agent_to_disk system answers_all rounds (server [] 0) (agent (codes "node-02")) 0 bare_lines
      (up_text ∷ (down_text ∷ [])) 2000 (λ n. refl) (λ n. omega arith) answers_all-IsUsable
      (omega arith) (clock-IsWellFormed 0 0) (clock-IsWellFormed 0 0) (λ i. ground arith)
      (record { same_nodes = refl; counts = λ j. ground arith }) (omega arith) (omega arith)
      (refl, (refl, tt)) refl refl (omega arith) (omega arith) (refl, (refl, (refl, tt)))
      (Perm.swap down_text up_text [])

abbrev up : LogEntry
up = entry (codes "node-02") (clock 0 1) 1000 (codes "up")

abbrev down : LogEntry
down = entry (codes "node-02") (clock 0 2) 1000 (codes "down")

run_in_time_example :
    let t = run answers_all rounds (server [] 0) in
    (evs : List Event) × (t.buffer ≡ [])
    × Perm (up ∷ (down ∷ [])) (written evs)
    × IsCausal (written evs)
    × (t.committed_vc ≡ advance (clock 0 0) evs)
    × (lines t ≡ lines (server [] 0) ++ gather line (written evs))
unfolding EntryJson.from_json Clock.merge Clock.merge_loop steps arrivals c_string
run_in_time_example =
    run_in_time answers_all rounds (server [] 0) (up ∷ (down ∷ [])) 2000 answers_all-IsUsable refl
      (omega arith) (omega arith) (clock-IsWellFormed 0 0) (refl, (refl, tt)) (omega arith)
      (refl, (refl, tt)) (Perm.swap down up [])

to_json_entry-Prints_example : Prints (EntryJson.to_json up 4096) 3194
unfolding at
to_json_entry-Prints_example =
    to_json_entry-Prints 4096 (omega arith) up (omega arith)
      (bounded-Fits64 up.vc (λ i. ground arith))
      (record {
        node_id = omega arith;
        timestamp = omega arith;
        message = omega arith;
        metadata = tt;
      })
      refl
