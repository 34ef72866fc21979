-- ===== src/Tools/Rounds.antt =====
-- The loops over argv of the three programs end, and have rounds enough.
use mathlib.Core.Path.{subst}
use vector_clock_good.Common.{
  ℕ, ◌≤◌, ◌≡◌, refl, arith, ℤ, pos, negsuc, ◌||◌, ◌==◌, ltb, List, length, length-take, Bytes,
  codes, str_eq, atoi,
}
use vector_clock_good.Server.State.{ServerConfig}
use vector_clock_good.Tools.{parsed, stop_usage, stop_failed, args_loop, parse_args}
use vector_clock_good.Tools.Arguments.{
  Keeps, Holds, Keeps-if, Keeps-value_then, parse_args-Holds, args_loop_enough, Ends,
  args_loop-Ends,
}
use vector_clock_good.Tools.Bounds.{IsBounded, option-Keeps}
use vector_clock_good.Tools.Configs.{defaults-IsBounded}
use vector_clock_good.Tools.Agent as AgentTool
use vector_clock_good.Tools.Server as ServerTool
use vector_clock_good.Tools.Server.{with_port}
use vector_clock_good.Tools.Query as QueryTool
use vector_clock_good.Tools.Limits.{IsLimited, query_option-Keeps}

-- A port of 1 to 65535, and a directory that fits its array.
pub record IsServerConfig (c : ServerConfig) : Type 0 where
  pub some_port : 1 ≤ c.port
  pub port : c.port ≤ 65535
  pub storage_dir : length c.storage_dir ≤ 255
  pub node_count : c.node_count ≡ pos 3
  pub timeout : c.timeout_ms ≡ 1000

with_port-Keeps :
    (c : ServerConfig) (rest : List Bytes) (i : ℤ) (n : ℕ)
    → IsServerConfig c
    → length rest ≤ n
    → Keeps IsServerConfig n (with_port c rest i)
with_port-Keeps c rest (negsuc i) n b l = tt
with_port-Keeps c rest (pos i) n b l =
    Keeps-if IsServerConfig n (i == 0 || ltb 65535 i) stop_failed _ (λ e. tt)
      (λ e. (
        record {
          some_port = ground (arith, e);
          port = ground (arith, e);
          storage_dir = b.storage_dir;
          node_count = b.node_count;
          timeout = b.timeout;
        },
        l,
      ))

server_option-Keeps :
    (c : ServerConfig) (arg : Bytes) (rest : List Bytes)
    → IsServerConfig c
    → Keeps IsServerConfig (length rest) (ServerTool.option c arg rest)
unfolding ServerTool.option
server_option-Keeps c arg rest b =
    let n = length rest in
    let P = IsServerConfig in
    Keeps-if P n (str_eq arg (codes "-p")) _ _
      (λ e. Keeps-value_then P rest _ (λ v rest l. with_port-Keeps c rest (atoi v) n b l))
      (λ e.
        Keeps-if P n (str_eq arg (codes "-d")) _ _
          (λ e. Keeps-value_then P rest _ (λ v rest l. (
            record {
              some_port = b.some_port;
              port = b.port;
              storage_dir = omega (arith, length-take 255 v);
              node_count = b.node_count;
              timeout = b.timeout;
            },
            l,
          )))
          (λ e. Keeps-if P n (str_eq arg (codes "-h")) stop_usage stop_failed (λ e. tt) (λ e. tt)))

server_defaults-IsServerConfig : IsServerConfig ServerTool.defaults
server_defaults-IsServerConfig = record {
  some_port = omega arith;
  port = omega arith;
  storage_dir = omega arith;
  node_count = refl;
  timeout = refl;
}

-- Whatever the arguments of the server are: if it goes on, then its port is 1 to 65535, its directory
-- fits the array, it counts 3 nodes and waits one second.
pub arguments-IsServerConfig :
    (args : List Bytes) (c : ServerConfig) → ServerTool.arguments args ≡ parsed c → IsServerConfig c
unfolding ServerTool.arguments
arguments-IsServerConfig args c e = subst (Holds IsServerConfig) e (
    parse_args-Holds IsServerConfig ServerTool.option server_option-Keeps ServerTool.defaults args
      server_defaults-IsServerConfig)

query_defaults-IsLimited : IsLimited QueryTool.defaults
query_defaults-IsLimited = record { some_results = omega arith; storage_dir = omega arith }

-- More rounds than there are arguments change nothing.
rounds_enough :
    (fuel : ℕ) (args : List Bytes)
    → length args ≤ fuel
    → (args_loop AgentTool.option fuel AgentTool.defaults args
        ≡ parse_args AgentTool.option AgentTool.defaults args)
      × (args_loop ServerTool.option fuel ServerTool.defaults args
          ≡ parse_args ServerTool.option ServerTool.defaults args)
      × (args_loop QueryTool.option fuel QueryTool.defaults args
          ≡ parse_args QueryTool.option QueryTool.defaults args)
rounds_enough fuel args h = (
  args_loop_enough IsBounded AgentTool.option option-Keeps fuel AgentTool.defaults args
      defaults-IsBounded h,
  args_loop_enough IsServerConfig ServerTool.option server_option-Keeps fuel ServerTool.defaults
      args server_defaults-IsServerConfig h,
  args_loop_enough IsLimited QueryTool.option query_option-Keeps fuel QueryTool.defaults args
      query_defaults-IsLimited h,
)

-- Whatever the arguments are, the loop over argv ends in each of the three programs: a run of it
-- without a bound on its rounds, which stops only where the arguments are used up or an option ends
-- the program, comes to the result that the model computes.
pub parse_args-Ends :
    (args : List Bytes)
    → Ends AgentTool.option AgentTool.defaults args
        (parse_args AgentTool.option AgentTool.defaults args)
      × Ends ServerTool.option ServerTool.defaults args
          (parse_args ServerTool.option ServerTool.defaults args)
      × Ends QueryTool.option QueryTool.defaults args
          (parse_args QueryTool.option QueryTool.defaults args)
unfolding parse_args
parse_args-Ends args = (
  args_loop-Ends IsBounded AgentTool.option option-Keeps (length args) AgentTool.defaults args
      defaults-IsBounded (omega arith),
  args_loop-Ends IsServerConfig ServerTool.option server_option-Keeps (length args)
      ServerTool.defaults args server_defaults-IsServerConfig (omega arith),
  args_loop-Ends IsLimited QueryTool.option query_option-Keeps (length args) QueryTool.defaults args
      query_defaults-IsLimited (omega arith),
)
