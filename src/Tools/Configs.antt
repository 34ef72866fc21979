-- ===== src/Tools/Configs.antt =====
-- The configuration that the command line of the agent gives.
use mathlib.Core.Path.{subst}
use vector_clock_good.Common.{
  ◌^◌, ◌≤◌, ◌<◌, ◌≡◌, arith, true, List, length, Bytes, Bool-cases, inl, inr,
}
use vector_clock_good.Entry.{node_id_max_len}
use vector_clock_good.Tools.{Parsed, parsed, usage, failed, parse_args}
use vector_clock_good.Tools.Arguments.{Holds, parse_args-Holds}
use vector_clock_good.Tools.Agent as AgentTool
use vector_clock_good.Tools.Agent.{
  Options, last_colon, port_number, parse_server_addr, with_addr, with_count, interval, uint32,
  is_complete, checked,
}
use vector_clock_good.Tools.Bounds.{IsBounded, option-Keeps}

-- What the agent asks of its configuration and its node count.
pub record IsConfig (o : Options) : Type 0 where
  pub some_node_id : 1 ≤ length o.config.node_id
  pub node_id : length o.config.node_id ≤ node_id_max_len
  pub some_log_path : 1 ≤ length o.config.log_path
  pub log_path : length o.config.log_path ≤ 255
  pub some_server_host : 1 ≤ length o.config.server_host
  pub server_host : length o.config.server_host ≤ 127
  pub some_server_port : 1 ≤ o.config.server_port
  pub server_port : o.config.server_port ≤ 65535
  pub some_interval : 1 ≤ o.config.poll_interval_ms
  pub interval : o.config.poll_interval_ms < 2 ^ 32
  pub some_nodes : 1 ≤ o.node_count
  pub nodes : o.node_count ≤ 32

complete-IsConfig : (o : Options) → IsBounded o → is_complete o.config ≡ true → IsConfig o
complete-IsConfig o b e = record {
  some_node_id = ground (arith, e);
  node_id = b.node_id;
  some_log_path = ground (arith, e);
  log_path = b.log_path;
  some_server_host = ground (arith, e);
  server_host = b.server_host;
  some_server_port = ground (arith, e);
  server_port = b.server_port;
  some_interval = b.some_interval;
  interval = b.interval;
  some_nodes = b.some_nodes;
  nodes = b.nodes;
}

checked-Holds : (r : Parsed Options) → Holds IsBounded r → Holds IsConfig (checked r)
checked-Holds (parsed o) b = elim (Bool-cases (is_complete o.config)) [
  | inl e ↦ rw e (complete-IsConfig o b e)
  | inr e ↦ rw e tt
]
checked-Holds usage b = tt
checked-Holds failed b = tt

pub defaults-IsBounded : IsBounded AgentTool.defaults
defaults-IsBounded = omega arith

-- Whatever the arguments of the agent are: if it goes on, then its node id, log file and host are
-- given and fit their arrays, the port is 1 to 65535, the interval is positive and fits 32 bits, and
-- there are 1 to 32 nodes.
pub arguments-IsConfig :
    (args : List Bytes) (o : Options) → AgentTool.arguments args ≡ parsed o → IsConfig o
unfolding AgentTool.arguments
arguments-IsConfig args o e = subst (Holds IsConfig) e (
    checked-Holds (parse_args AgentTool.option AgentTool.defaults args) (
      parse_args-Holds IsBounded AgentTool.option option-Keeps AgentTool.defaults args
        defaults-IsBounded))
