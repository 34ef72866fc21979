-- ===== src/Agent/Run.antt =====
-- `agent_init`, `agent_send_log`, `process_new_lines`, `check_file_changed`, `agent_run`, `agent_stop`
-- and `agent_cleanup`.
use vector_clock_good.Common.{
  ℕ, ◌+◌, ◌%◌, ◌^◌, ℤ, Bool, true, false, Option, none, some, List, [], ◌∷◌, ◌++◌, ltb,
  if◌then◌else◌, length, take, drop, Bytes, fgets_lines,
}
use vector_clock_good.Clock
use vector_clock_good.Entry.{LogEntry, node_id_max_len, log_message_max_len}
use vector_clock_good.Entry.Json as EntryJson
use vector_clock_good.Agent.Line.{Stamp, parse_line}
use vector_clock_good.Agent.State.{AgentConfig, Agent, node_index, tick}

-- What the system answers: the time at the entry of a sequence number, `mktime`, and whether `sendto`
-- takes the datagram of that number.
pub record System : Type 0 where
  pub now : ℕ → ℕ
  pub mktime : Stamp → ℤ
  pub delivers : ℕ → Bool

-- What a poll finds: whether the file can be opened, and what it holds.
pub record Poll : Type 0 where
  pub opens : Bool
  pub contents : Bytes

abbrev pub max_entry_size : ℕ
max_entry_size = 4096

abbrev sent_if : Bool → Agent → Bytes → Bool × Agent
sent_if true a text = (true, record a { sent = a.sent ++ text ∷ [] })
sent_if false a text = (false, a)

abbrev pub sent_text : Bool → Agent → Option Bytes → Bool × Agent
sent_text delivers a none = (false, a)
sent_text delivers a (some text) = sent_if delivers a text

-- True where the source returns 0.
unfoldable pub send_log : Bool → Agent → LogEntry → Bool × Agent
unfolding EntryJson.to_json
send_log delivers a e = sent_text delivers a (EntryJson.to_json e max_entry_size)

module _ (sys : System) where
  -- The entry of a line that was parsed.
  unfoldable pub stamped : Agent → LogEntry → List ℤ → LogEntry
  unfolding tick node_index Clock.copy
  stamped a e parsed = record e {
    node_id = take node_id_max_len a.config.node_id;
    vc = Clock.copy e.vc (tick (node_index a.config.node_id) parsed a.vc);
    seq = a.seq;
  }

  -- The agent that has given the line its clock and its number.
  unfoldable pub advanced : Agent → LogEntry → List ℤ → Agent
  unfolding stamped
  advanced a e parsed = record a {
    vc = tick (node_index a.config.node_id) parsed a.vc;
    seq = (a.seq + 1) % 2 ^ 64;
    made = a.made ++ stamped a e parsed ∷ [];
  }

  abbrev pub process_parsed : Agent → Option (LogEntry × List ℤ) → Bool × Agent
  process_parsed a none = (false, a)
  process_parsed a (some (e, parsed)) =
      send_log (sys.delivers a.seq) (advanced a e parsed) (stamped a e parsed)

  -- The body of the loop over lines; true if the entry was sent.
  unfoldable pub process_line : Agent → Bytes → Bool × Agent
  unfolding parse_line send_log advanced
  process_line a line = process_parsed a (parse_line sys.mktime (sys.now a.seq) line)

  unfoldable pub process_lines : ℕ → Agent → List Bytes → ℕ × Agent
  unfolding process_line
  process_lines count a [] = (count, a)
  process_lines count a (line ∷ lines) =
      let done = process_line a line in
      process_lines (if done.0 then count + 1 else count) done.1 lines

  -- None where the source returns -1. The contents are those of the open file, without NUL bytes.
  unfoldable pub process_new_lines : Bytes → Agent → Option ℕ × Agent
  unfolding process_lines fgets_lines
  process_new_lines contents a =
      if a.log_fp
      then (let news = drop a.last_offset contents in
          let done = process_lines 0 a (fgets_lines log_message_max_len news) in
          (some done.0, record (done.1) { last_offset = done.1.last_offset + length news }))
      else (none, a)

  unfoldable pub check_file_changed : Poll → Agent → Bool × Agent
  check_file_changed p a =
      if a.log_fp
      then (if ltb a.last_offset (length p.contents)
          then (true, a)
          else if ltb (length p.contents) a.last_offset
          then (true, record a { last_offset = 0 })
          else (false, a))
      else if p.opens
      then (true, record a { log_fp = true; last_offset = 0 })
      else (false, a)

  abbrev pub process_changed : Bytes → Bool × Agent → Agent
  process_changed contents (true, a) = (process_new_lines contents a).1
  process_changed contents (false, a) = a

  unfoldable pub poll : Poll → Agent → Agent
  unfolding check_file_changed process_new_lines
  poll p a = process_changed p.contents (check_file_changed p a)

  abbrev pub polls_loop : List Poll → Agent → Agent
  polls_loop [] a = a
  polls_loop (p ∷ ps) a = polls_loop ps (poll p a)

  -- `agent_run`, over the polls that come before the agent is stopped.
  unfoldable pub run : List Poll → Agent → Agent
  unfolding poll
  run ps a = polls_loop ps (record a { running = true })

unfoldable pub stop : Agent → Agent
stop a = record a { running = false }

unfoldable pub cleanup : Agent → Agent
cleanup a = record a { log_fp = false }

abbrev end_of : Option ℕ → ℕ
end_of none = 0
end_of (some size) = size

abbrev is_there : Option ℕ → Bool
is_there none = false
is_there (some size) = true

-- None where the source returns -1. `file` is the size of the log file, if it can be opened; `socket`
-- and `address` say whether a socket is given and whether the server's address is valid.
unfoldable pub init : Option ℕ → Bool → Bool → AgentConfig → ℤ → Option Agent
unfolding Clock.init
init file socket address config node_count =
    if socket
    then (if address
        then some (record {
          config = config;
          vc = Clock.init Clock.zeroed node_count;
          log_fp = is_there file;
          last_offset = end_of file;
          seq = 0;
          running = false;
          made = [];
          sent = [];
        })
        else none)
    else none
