-- ===== src/Server/State.antt =====
-- The state of the server: include/server.h.
use vector_clock_good.Common.{
  ℕ, ◌+◌, ◌%◌, ◌^◌, ℤ, Bool, true, false, Option, none, some, List, Bytes,
}
use vector_clock_good.Clock.{VectorClock}
use vector_clock_good.Entry.{LogEntry}

-- `server_config_t`; the storage directory and the timeout are what the modelled code reads.
pub record ServerConfig : Type 0 where
  pub port : ℕ
  pub storage_dir : Bytes
  pub buffer_size : ℤ
  pub node_count : ℤ
  pub timeout_ms : ℕ

-- `server_stats_t`, of 64-bit counters
pub record ServerStats : Type 0 where
  pub total_received : ℕ
  pub total_stored : ℕ
  pub total_errors : ℕ
  pub bytes_received : ℕ

-- `log_buffer_node_t`, without its link: the buffer is a list.
pub record BufferNode : Type 0 where
  pub entry : LogEntry
  pub arrival_time : ℕ

-- `server_t`. `log_fp` names the file that is open. `disk` is what was written, as pairs of a file and
-- a line in order, and `calls` counts the calls of `server_open_log_file`.
pub record Server : Type 0 where
  pub config : ServerConfig
  pub log_fp : Option Bytes
  pub current_date : Bytes
  pub stats : ServerStats
  pub running : Bool
  pub committed_vc : VectorClock
  pub buffer : List BufferNode
  pub buffer_count : ℕ
  pub disk : List (Bytes × Bytes)
  pub calls : ℕ

-- What the system answers to a call of `server_open_log_file`: the date, whether the directory is
-- there or can be made, and whether the file can be opened.
pub record Answer : Type 0 where
  pub today : Bytes
  pub has_directory : Bool
  pub has_file : Bool

abbrev pub is_open : Option Bytes → Bool
is_open none = false
is_open (some path) = true

-- A 64-bit counter goes up.
abbrev pub incr : ℕ → ℕ
incr n = (n + 1) % 2 ^ 64

-- One round of `server_run`: the datagram that came, if one did; whether `malloc` gives a node; and
-- the times that the insertion and the timeout check read.
pub record Round : Type 0 where
  pub datagram : Option Bytes
  pub allocated : Bool
  pub arrival : ℕ
  pub checked : ℕ
