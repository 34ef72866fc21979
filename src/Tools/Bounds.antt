-- ===== src/Tools/Bounds.antt =====
-- What each option of the agent's command line keeps.
use mathlib.Core.Option.{some-injective}
use vector_clock_good.Common.{
  ℕ, ◌^◌, ◌≤◌, ◌<◌, ◌≡◌, refl, ap, arith, ℤ, pos, negsuc, Bool, true, false, ◌||◌, ◌==◌, ltb,
  Option, none, some, List, length, length-take, Bytes, codes, str_eq, bind-eq_some, guard, atoi,
}
use vector_clock_good.Entry.{node_id_max_len}
use vector_clock_good.Tools.{stop_usage, stop_failed}
use vector_clock_good.Tools.Arguments.{Keeps, Keeps-if, Keeps-value_then}
use vector_clock_good.Tools.Agent as AgentTool
use vector_clock_good.Tools.Agent.{
  Options, last_colon, port_number, parse_server_addr, with_addr, with_count, interval, uint32,
  is_complete, checked,
}

guard-true : (b : Bool) (u : Unit {0}) → guard b ≡ some u → b ≡ true
guard-true true u h = refl
guard-true false u h = absurd (cc)

ltb-lt : (m n : ℕ) → ltb m n ≡ true → m < n
ltb-lt m n h = ground arith

-- What holds of the agent's options all through the loop.
pub record IsBounded (o : Options) : Type 0 where
  pub node_id : length o.config.node_id ≤ node_id_max_len
  pub log_path : length o.config.log_path ≤ 255
  pub server_host : length o.config.server_host ≤ 127
  pub server_port : o.config.server_port ≤ 65535
  pub some_interval : 1 ≤ o.config.poll_interval_ms
  pub interval : o.config.poll_interval_ms < 2 ^ 32
  pub some_nodes : 1 ≤ o.node_count
  pub nodes : o.node_count ≤ 32

port_number-bounds : (i : ℤ) (p : ℕ) → port_number i ≡ some p → (1 ≤ p) × (p ≤ 65535)
unfolding port_number
port_number-bounds (negsuc n) p h = absurd (cc)
port_number-bounds (pos n) p h = ground (arith, h)

parse_server_addr-bounds :
    (addr : Bytes) (n : ℕ) (host : Bytes) (port : ℕ)
    → parse_server_addr addr n ≡ some (host, port)
    → (length host < n) × (1 ≤ port) × (port ≤ 65535)
unfolding parse_server_addr
parse_server_addr-bounds addr n host port h =
    let (parts, e, h) = bind-eq_some (last_colon addr) _ h in
    let (u, g, h) = bind-eq_some (guard (ltb (length parts.0) n)) _ h in
    let (p, q, h) = bind-eq_some (port_number (atoi parts.1)) _ h in
    let b = port_number-bounds (atoi parts.1) p q in
    let same = some-injective _ _ h in
    let small = guard-true (ltb (length parts.0) n) u g in
    omega (
      arith,
      b.0,
      b.1,
      ltb-lt (length parts.0) n small,
      ap (λ x. length x.0) same,
      ap (λ x. x.1) same,
    )

with_addr-Keeps :
    (o : Options) (rest : List Bytes) (r : Option (Bytes × ℕ)) (n : ℕ)
    → IsBounded o
    → length rest ≤ n
    → ((host : Bytes) (port : ℕ)
        → r ≡ some (host, port)
        → (length host < 128) × (1 ≤ port) × (port ≤ 65535))
    → Keeps IsBounded n (with_addr o rest r)
with_addr-Keeps o rest none n b l h = tt
with_addr-Keeps o rest (some (host, port)) n b l h =
    let (small, low, high) = h host port refl in
    (
      record {
        node_id = b.node_id;
        log_path = b.log_path;
        server_host = omega arith;
        server_port = high;
        some_interval = b.some_interval;
        interval = b.interval;
        some_nodes = b.some_nodes;
        nodes = b.nodes;
      },
      l,
    )

with_count-Keeps :
    (o : Options) (rest : List Bytes) (i : ℤ) (n : ℕ)
    → IsBounded o
    → length rest ≤ n
    → Keeps IsBounded n (with_count o rest i)
with_count-Keeps o rest (negsuc i) n b l = tt
with_count-Keeps o rest (pos i) n b l =
    Keeps-if IsBounded n (i == 0 || ltb 32 i) stop_failed _ (λ e. tt)
      (λ e. (
        record {
          node_id = b.node_id;
          log_path = b.log_path;
          server_host = b.server_host;
          server_port = b.server_port;
          some_interval = b.some_interval;
          interval = b.interval;
          some_nodes = ground (arith, e);
          nodes = ground (arith, e);
        },
        l,
      ))

uint32-bound : (i : ℤ) → uint32 i < 2 ^ 32
uint32-bound (pos n) = omega arith
uint32-bound (negsuc n) = omega arith

pub option-Keeps :
    (o : Options) (arg : Bytes) (rest : List Bytes)
    → IsBounded o
    → Keeps IsBounded (length rest) (AgentTool.option o arg rest)
unfolding AgentTool.option
option-Keeps o arg rest b =
    let n = length rest in
    let P = IsBounded in
    Keeps-if P n (str_eq arg (codes "-n")) _ _
      (λ e. Keeps-value_then P rest _ (λ v rest l. (
        record {
          node_id = omega (arith, length-take node_id_max_len v);
          log_path = b.log_path;
          server_host = b.server_host;
          server_port = b.server_port;
          some_interval = b.some_interval;
          interval = b.interval;
          some_nodes = b.some_nodes;
          nodes = b.nodes;
        },
        l,
      )))
      (λ e.
        Keeps-if P n (str_eq arg (codes "-f")) _ _
          (λ e. Keeps-value_then P rest _ (λ v rest l. (
            record {
              node_id = b.node_id;
              log_path = omega (arith, length-take 255 v);
              server_host = b.server_host;
              server_port = b.server_port;
              some_interval = b.some_interval;
              interval = b.interval;
              some_nodes = b.some_nodes;
              nodes = b.nodes;
            },
            l,
          )))
          (λ e.
            Keeps-if P n (str_eq arg (codes "-s")) _ _
              (λ e. Keeps-value_then P rest _ (λ v rest l.
                with_addr-Keeps o rest (parse_server_addr v 128) n b l
                  (parse_server_addr-bounds v 128)))
              (λ e.
                Keeps-if P n (str_eq arg (codes "-i")) _ _
                  (λ e. Keeps-value_then P rest _ (λ v rest l. (
                    record {
                      node_id = b.node_id;
                      log_path = b.log_path;
                      server_host = b.server_host;
                      server_port = b.server_port;
                      some_interval = ground arith;
                      interval = ground (arith, uint32-bound (atoi v));
                      some_nodes = b.some_nodes;
                      nodes = b.nodes;
                    },
                    l,
                  )))
                  (λ e.
                    Keeps-if P n (str_eq arg (codes "-c")) _ _
                      (λ e.
                        Keeps-value_then P rest _
                          (λ v rest l. with_count-Keeps o rest (atoi v) n b l))
                      (λ e.
                        Keeps-if P n (str_eq arg (codes "-h")) stop_usage stop_failed (λ e. tt)
                          (λ e. tt))))))
