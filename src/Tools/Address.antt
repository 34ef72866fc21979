-- ===== src/Tools/Address.antt =====
-- The address of the server: `parse_server_addr` of src/main_agent.c.
use vector_clock_good.Common.{
  ℕ, ◌≤◌, ◌<◌, ◌≡◌, refl, arith, pos, true, false, ◌==◌, ltb, none, some, [], ◌∷◌, ◌++◌, length,
  Bytes, All, print_nat, print-IsDigit, IsDigit, atoi-print,
}
use vector_clock_good.Tools.Agent.{last_colon, port_number, parse_server_addr}

last_colon-digits : (s : Bytes) → All IsDigit s → last_colon s ≡ none
unfolding last_colon
last_colon-digits [] h = refl
last_colon-digits (c ∷ s) (d, h) =
    let other : (c == b':') ≡ false = ground (arith, d.high) in
    rw (last_colon-digits s h, other) refl

last_colon-append :
    (host s : Bytes) → All IsDigit s → last_colon (host ++ b':' ∷ s) ≡ some (host, s)
unfolding last_colon
last_colon-append [] s h = rw (last_colon-digits s h) refl
last_colon-append (c ∷ host) s h = rw (last_colon-append host s h) refl

port_number-some : (p : ℕ) → 1 ≤ p → p ≤ 65535 → port_number (pos p) ≡ some p
unfolding port_number
port_number-some p h k = ground arith

-- A host and a port, with a colon between them, are read as they are: the host may have colons itself,
-- if it fits the array, and the port is 1 to 65535.
pub parse_server_addr-print :
    (host : Bytes) (port host_len : ℕ)
    → length host < host_len
    → 1 ≤ port
    → port ≤ 65535
    → parse_server_addr (host ++ b':' ∷ print_nat port) host_len ≡ some (host, port)
unfolding parse_server_addr
parse_server_addr-print host port host_len h low high =
    let room : ltb (length host) host_len ≡ true = ground arith in
    rw
      (
        last_colon-append host (print_nat port) (print-IsDigit port),
        room,
        atoi-print port,
        port_number-some port low high,
      )
      refl
