-- ===== src/Tools/Agent.antt =====
-- src/main_agent.c
use vector_clock_good.Common.{
  ℕ, ◌-◌, ◌^◌, ◌%◌, ◌==◌, if◌then◌else◌, ltb, Bool, ◌||◌, ℤ, pos, negsuc, Option, none, some, List,
  [], ◌∷◌, length, take, Bytes, codes, str_eq, strcmp, atoi, ◌>>=◌, ◌>>◌, guard, not,
}
use vector_clock_good.Entry.{node_id_max_len}
use vector_clock_good.Agent.State.{AgentConfig}
use vector_clock_good.Agent.State as AgentState
use vector_clock_good.Agent.Run as AgentRun
use vector_clock_good.Agent.Run.{System, Poll}
use vector_clock_good.Tools.{
  Parsed, parsed, usage, failed, Next, onward, stop_usage, stop_failed, value_then, parse_args,
}

-- `strrchr(addr_str, ':')`: what stands before the last colon and behind it.
unfoldable pub last_colon : Bytes → Option (Bytes × Bytes)
last_colon [] = none
last_colon (c ∷ s) = elim (last_colon s) [
  | some (host, port) ↦ some (c ∷ host, port)
  | none ↦ if c == b':' then some ([], s) else none
]

-- A port of 1 to 65535.
unfoldable pub port_number : ℤ → Option ℕ
port_number (negsuc n) = none
port_number (pos n) = if n == 0 || ltb 65535 n then none else some n

-- The host and the port; none where the source returns -1.
unfoldable pub parse_server_addr : Bytes → ℕ → Option (Bytes × ℕ)
unfolding last_colon port_number atoi
parse_server_addr addr host_len = do
  (host, port) ← last_colon addr
  guard (ltb (length host) host_len)
  p ← port_number (atoi port)
  some (host, p)

-- The configuration and the node count.
pub record Options : Type 0 where
  pub config : AgentConfig
  pub node_count : ℕ

abbrev pub defaults : Options
defaults = record {
  config = record {
    node_id = [];
    log_path = [];
    server_host = [];
    server_port = 0;
    poll_interval_ms = 1000;
  };
  node_count = 3;
}

-- `(uint32_t)atoi`, and 1000 in place of 0
abbrev pub uint32 : ℤ → ℕ
uint32 (pos n) = n % 2 ^ 32
uint32 (negsuc n) = (2 ^ 32 - 1 - n) % 2 ^ 32

abbrev pub interval : ℕ → ℕ
interval n = if n == 0 then 1000 else n

abbrev pub with_addr : Options → List Bytes → Option (Bytes × ℕ) → Next Options
with_addr o rest none = stop_failed
with_addr o rest (some (host, port)) =
    onward (record o { config = record (o.config) { server_host = host; server_port = port } }) rest

abbrev pub with_count : Options → List Bytes → ℤ → Next Options
with_count o rest (negsuc n) = stop_failed
with_count o rest (pos n) =
    if n == 0 || ltb 32 n then stop_failed else onward (record o { node_count = n }) rest

-- The body of the loop over argv.
unfoldable pub option : Options → Bytes → List Bytes → Next Options
unfolding parse_server_addr strcmp atoi
option o arg rest =
    if str_eq arg (codes "-n")
    then value_then rest (λ v rest.
      onward (record o { config = record (o.config) { node_id = take node_id_max_len v } }) rest)
    else if str_eq arg (codes "-f")
    then value_then rest
        (λ v rest. onward (record o { config = record (o.config) { log_path = take 255 v } }) rest)
    else if str_eq arg (codes "-s")
    then value_then rest (λ v rest. with_addr o rest (parse_server_addr v 128))
    else if str_eq arg (codes "-i")
    then value_then rest (λ v rest.
      onward
        (record o { config = record (o.config) { poll_interval_ms = interval (uint32 (atoi v)) } })
        rest)
    else if str_eq arg (codes "-c")
    then value_then rest (λ v rest. with_count o rest (atoi v))
    else if str_eq arg (codes "-h")
    then stop_usage
    else stop_failed

-- The options that have to be given.
abbrev pub is_complete : AgentConfig → Bool
is_complete c = not (
    length c.node_id == 0
    || length c.log_path == 0
    || length c.server_host == 0
    || c.server_port == 0)

abbrev pub checked : Parsed Options → Parsed Options
checked (parsed o) = if is_complete o.config then parsed o else failed
checked usage = usage
checked failed = failed

unfoldable pub arguments : List Bytes → Parsed Options
unfolding parse_args option
arguments args = checked (parse_args option defaults args)

-- How the program ends: its exit code, and the agent where one was run.
pub record Exit : Type 0 where
  pub code : ℕ
  pub agent : Option AgentState.Agent

-- `file`, `socket` and `address` are what the start of the agent finds, `polls` are those before the
-- signal. `agent_run` returns 0.
unfoldable pub main : Bool → Option ℕ → Bool → Bool → System → List Poll → List Bytes → Exit
unfolding arguments AgentRun.init AgentRun.run AgentRun.cleanup
main network file socket address sys polls args = elim (arguments args) [
  | usage ↦ record { code = 0; agent = none }
  | failed ↦ record { code = 1; agent = none }
  | parsed o ↦
      if not network
      then record { code = 1; agent = none }
      else elim (AgentRun.init file socket address o.config (pos o.node_count)) [
        | none ↦ record { code = 1; agent = none }
        | some a ↦ record { code = 0; agent = some (AgentRun.cleanup (AgentRun.run sys polls a)) }
      ]
]
