-- ===== src/Server/Run.antt =====
-- Starting, running and stopping the server: `server_init`, `server_run`, `server_stop`,
-- `server_cleanup`.
pub mod Served
pub mod Causal
pub mod InTime
pub mod Wire
pub mod Count
pub mod Lifetime
use vector_clock_good.Server.State.{ServerConfig, BufferNode, Server, Answer, Round, incr}
use vector_clock_good.Server.Disk.{open_log_file, write_entry_to_file}
use vector_clock_good.Server.Buffer.{insert_to_buffer}
use vector_clock_good.Server.Flush.{flush_causal_buffer, check_timeout_flush}
use vector_clock_good.Common.{
  ℕ, ◌+◌, ◌%◌, ◌^◌, ℤ, pos, negsuc, Bool, true, false, Option, none, some, List, [], ◌∷◌, ◌==◌,
  if◌then◌else◌, length, Bytes, codes,
}
use vector_clock_good.Clock
use vector_clock_good.Clock.{
  VectorClock, Relation, equal, happens_before, happens_after, concurrent, cell,
}
use vector_clock_good.Entry.{LogEntry}
use vector_clock_good.Entry.Json as EntryJson

-- The C string in a buffer.
unfoldable pub c_string : Bytes → Bytes
c_string [] = []
c_string (c ∷ s) = if c == 0 then [] else c ∷ c_string s

-- The statistics of a datagram.
unfoldable pub counted : Server → Bytes → Server
counted s bytes = record s {
  stats = record (s.stats) {
    total_received = incr s.stats.total_received;
    bytes_received = (s.stats.bytes_received + length bytes) % 2 ^ 64;
  };
}

module _ (env : ℕ → Answer) where
  -- What is done with the entry that was parsed, or on a parse error.
  unfoldable pub accept : Bool → ℕ → Server → Option LogEntry → Server
  unfolding insert_to_buffer flush_causal_buffer
  accept allocated now s none = record s {
    stats = record (s.stats) { total_errors = incr s.stats.total_errors };
  }
  accept allocated now s (some e) = flush_causal_buffer env (insert_to_buffer allocated now s e)

  unfoldable pub receive : Round → Server → Option Bytes → Server
  unfolding accept c_string counted
  receive r s none = s
  receive r s (some bytes) =
      if length bytes == 0
      then s
      else accept r.allocated r.arrival (counted s bytes) (EntryJson.from_json (c_string bytes))

  unfoldable pub round : Round → Server → Server
  unfolding receive check_timeout_flush
  round r s = check_timeout_flush env r.checked (receive r s r.datagram)

  -- The main loop, over the rounds that come before the server is stopped.
  unfoldable pub run : List Round → Server → Server
  unfolding round
  run [] s = s
  run (r ∷ rs) s = run rs (round r s)

  -- The walk of `server_cleanup` over the buffer.
  unfoldable pub write_all : List BufferNode → Server → Server
  unfolding write_entry_to_file
  write_all [] s = s
  write_all (n ∷ ns) s = write_all ns (write_entry_to_file env s n.entry).1

  -- `buffer_count` keeps its value.
  unfoldable pub cleanup : Server → Server
  unfolding write_all
  cleanup s = record (write_all s.buffer s) { buffer = []; log_fp = none }

unfoldable pub stop : Server → Server
stop s = record s { running = false }

abbrev default_port : ServerConfig → ServerConfig
default_port c = if c.port == 0 then record c { port = 9999 } else c

abbrev default_dir : ServerConfig → ServerConfig
default_dir c = if length c.storage_dir == 0 then record c { storage_dir = codes "./logs" } else c

abbrev is_zero : ℤ → Bool
is_zero (pos n) = n == 0
is_zero (negsuc n) = false

abbrev default_size : ServerConfig → ServerConfig
default_size c = if is_zero c.buffer_size then record c { buffer_size = pos 4096 } else c

-- The state that `server_init` has set up when it opens the socket.
unfoldable pub initial : ServerConfig → Server
unfolding Clock.init
initial config = record {
  config = default_size (default_dir (default_port config));
  log_fp = none;
  current_date = [];
  stats = record { total_received = 0; total_stored = 0; total_errors = 0; bytes_received = 0 };
  running = false;
  committed_vc = Clock.init Clock.zeroed config.node_count;
  buffer = [];
  buffer_count = 0;
  disk = [];
  calls = 0;
}

abbrev pub ready_if : Bool × Server → Option Server
ready_if (true, s) = some s
ready_if (false, s) = none

-- None where the source returns -1; `bound` says whether the socket was made and bound.
unfoldable pub init : (ℕ → Answer) → Bool → ServerConfig → Option Server
unfolding initial open_log_file
init env bound config = if bound then ready_if (open_log_file env (initial config)) else none
