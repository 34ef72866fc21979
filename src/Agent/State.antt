-- ===== src/Agent/State.antt =====
-- The state of the agent, its node index, and the clock that it gives a line.
use vector_clock_good.Common.{
  ℕ, ◌+◌, ◌-◌, ◌*◌, ◌%◌, ◌^◌, ℤ, pos, negsuc, Bool, true, false, Option, none, some, List, [], ◌∷◌,
  ltb, ◌==◌, if◌then◌else◌, get_or, set, Bytes, is_digit, atoi,
}
use vector_clock_good.Clock.{VectorClock}
use vector_clock_good.Clock
use vector_clock_good.Entry.{LogEntry}
use vector_clock_good.Agent.Line.{to_uint64}

-- `agent_config_t`
pub record AgentConfig : Type 0 where
  pub node_id : Bytes
  pub log_path : Bytes
  pub server_host : Bytes
  pub server_port : ℕ
  pub poll_interval_ms : ℕ

-- `agent_t`. `log_fp` says whether the file is open. `made` is every entry that a line has become, in
-- order, and `sent` the datagrams that went out.
pub record Agent : Type 0 where
  pub config : AgentConfig
  pub vc : VectorClock
  pub log_fp : Bool
  pub last_offset : ℕ
  pub seq : ℕ
  pub running : Bool
  pub made : List LogEntry
  pub sent : List Bytes

-- The walk to the first digit of the node id.
abbrev from_digit : Bytes → Option Bytes
from_digit [] = none
from_digit (c ∷ s) = let rest = from_digit s in if is_digit c then some (c ∷ s) else rest

abbrev index_hash : ℕ → Bytes → ℕ
index_hash hash [] = hash
index_hash hash (c ∷ s) = index_hash ((hash * 31 + c) % 2 ^ 32) s

-- The number of a node id, from 1, as an index, from 0; a number below 1 is taken for 0.
abbrev from_one : ℤ → ℕ
from_one (pos n) = n - 1
from_one (negsuc n) = 0

abbrev index_of : Option Bytes → Bytes → ℕ
index_of none node_id = index_hash 0 node_id % 32
index_of (some digits) node_id = from_one (atoi digits)

-- `my_node_idx`
unfoldable pub node_index : Bytes → ℕ
unfolding is_digit atoi
node_index node_id = index_of (from_digit node_id) node_id

-- The loop that takes in the counts of the other nodes.
unfoldable pub merge_others : ℕ → ℕ → List ℤ → List ℕ → List ℕ
merge_others i own [] clocks = clocks
merge_others i own (v ∷ vs) clocks = merge_others (i + 1) own vs (
    if i == own
    then clocks
    else if ltb (get_or clocks i 0) (to_uint64 v)
    then set clocks i (to_uint64 v)
    else clocks)

-- `parsed_vc[0] >= 0`
abbrev pub has_numbers : List ℤ → Bool
has_numbers [] = false
has_numbers (pos n ∷ vs) = true
has_numbers (negsuc n ∷ vs) = false

unfoldable pub take_in : ℕ → List ℤ → VectorClock → VectorClock
unfolding merge_others
take_in own parsed vc =
    if has_numbers parsed then record vc { clocks = merge_others 0 own parsed vc.clocks } else vc

-- The clock after a line.
unfoldable pub tick : ℕ → List ℤ → VectorClock → VectorClock
unfolding take_in Clock.increment
tick own parsed vc = Clock.increment (take_in own parsed vc) (pos own)
