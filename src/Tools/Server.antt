-- ===== src/Tools/Server.antt =====
-- src/main_server.c
use vector_clock_good.Common.{
  ℕ, ◌==◌, if◌then◌else◌, ltb, Bool, ◌||◌, ℤ, pos, negsuc, Option, none, some, List, take, Bytes,
  codes, str_eq, strcmp, atoi, not,
}
use vector_clock_good.Server.State as ServerState
use vector_clock_good.Server.State.{ServerConfig, Answer, Round}
use vector_clock_good.Server.Run as ServerRun
use vector_clock_good.Tools.{
  Parsed, parsed, usage, failed, Next, onward, stop_usage, stop_failed, value_then, parse_args,
}

abbrev pub defaults : ServerConfig
defaults = record {
  port = 9999;
  storage_dir = codes "./logs";
  buffer_size = pos 0;
  node_count = pos 3;
  timeout_ms = 1000;
}

abbrev pub with_port : ServerConfig → List Bytes → ℤ → Next ServerConfig
with_port c rest (negsuc n) = stop_failed
with_port c rest (pos n) =
    if n == 0 || ltb 65535 n then stop_failed else onward (record c { port = n }) rest

-- The body of the loop over argv.
unfoldable pub option : ServerConfig → Bytes → List Bytes → Next ServerConfig
unfolding strcmp atoi
option c arg rest =
    if str_eq arg (codes "-p")
    then value_then rest (λ v rest. with_port c rest (atoi v))
    else if str_eq arg (codes "-d")
    then value_then rest (λ v rest. onward (record c { storage_dir = take 255 v }) rest)
    else if str_eq arg (codes "-h")
    then stop_usage
    else stop_failed

unfoldable pub arguments : List Bytes → Parsed ServerConfig
unfolding parse_args option
arguments args = parse_args option defaults args

-- How the program ends: its exit code, and the server where one was run.
pub record Exit : Type 0 where
  pub code : ℕ
  pub server : Option ServerState.Server

-- `network` and `bound` say whether the start of the network and of the socket succeed, `rounds` are
-- those before the signal. The receive buffer is taken to be allocated, so that `server_run` returns 0.
-- The statistics that are printed are those of the server.
unfoldable pub main : Bool → Bool → (ℕ → Answer) → List Round → List Bytes → Exit
unfolding arguments ServerRun.init ServerRun.run ServerRun.cleanup
main network bound env rounds args = elim (arguments args) [
  | usage ↦ record { code = 0; server = none }
  | failed ↦ record { code = 1; server = none }
  | parsed config ↦
      if not network
      then record { code = 1; server = none }
      else elim (ServerRun.init env bound config) [
        | none ↦ record { code = 1; server = none }
        | some s ↦ record {
          code = 0;
          server = some (ServerRun.cleanup env (ServerRun.run env rounds s));
        }
      ]
]
