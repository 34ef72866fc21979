-- ===== src/Tests.antt =====
-- Small clocks, entries and servers to run the model on.
pub mod Clocks
pub mod Agents
pub mod Wire
pub mod Servers
pub mod Stores
pub mod Sorting
pub mod Tools
use vector_clock_good.Common.{
  refl, ℕ, zero, suc, ℤ, pos, Bool, true, false, Option, none, some, List, [], ◌∷◌, ◌++◌, replicate,
  Bytes, codes, arith,
}
use vector_clock_good.Clock.{VectorClock}
use vector_clock_good.Clock.View.{IsWellFormed}
use vector_clock_good.Entry.{LogEntry, LogLevel, info}
use vector_clock_good.Server.State.{Server, Answer, BufferNode}
use vector_clock_good.Server.Flush.Outcome.{IsUsable}
use vector_clock_good.Store.{LogStore}

-- A clock of two nodes.
abbrev pub clock : ℕ → ℕ → VectorClock
clock a b = record { node_count = 2; clocks = a ∷ (b ∷ replicate 30 0) }

pub clock-IsWellFormed : (a b : ℕ) → IsWellFormed (clock a b)
clock-IsWellFormed a b = record { cells = refl; within = omega arith }

abbrev pub entry : Bytes → VectorClock → ℕ → Bytes → LogEntry
entry node_id vc timestamp message = record {
  node_id = node_id;
  vc = vc;
  timestamp = timestamp;
  level = info;
  message = message;
  metadata = [];
  seq = 0;
}

abbrev pub first : LogEntry
first = entry (codes "node-0") (clock 1 0) 10 (codes "Login failed")

abbrev pub second : LogEntry
second = entry (codes "node-1") (clock 1 1) 5 (codes "login ok")

abbrev pub apart : LogEntry
apart = entry (codes "node-1") (clock 0 1) 20 (codes "disk failed")

abbrev pub node : LogEntry → ℕ → BufferNode
node e t = record { entry = e; arrival_time = t }

-- The file of the day can always be opened.
abbrev pub answers_all : ℕ → Answer
answers_all n = record { today = codes "2024-01-01"; has_directory = true; has_file = true }

pub answers_all-IsUsable : (n : ℕ) → IsUsable (answers_all n)
answers_all-IsUsable n = record { has_directory = refl; has_file = refl }

abbrev pub server : List BufferNode → ℕ → Server
server nodes count = record {
  config = record {
    port = 9999;
    storage_dir = codes "./logs";
    buffer_size = pos 4096;
    node_count = pos 2;
    timeout_ms = 1000;
  };
  log_fp = none;
  current_date = [];
  stats = record { total_received = 0; total_stored = 0; total_errors = 0; bytes_received = 0 };
  running = true;
  committed_vc = clock 0 0;
  buffer = nodes;
  buffer_count = count;
  disk = [];
  calls = 0;
}

abbrev pub store : List LogEntry → LogStore
store es = record { entries = es; capacity = 1024; sorted = false; index = []; dedup_hash = none }

-- The first two cells of a clock stand for its memory.
abbrev pub memory : VectorClock → Bytes
memory vc = vc.clocks
