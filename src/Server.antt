-- ===== src/Server.antt =====
-- src/server.c and include/server.h: the server that puts entries into causal order. The socket is not
-- modelled: a datagram is an argument.
pub mod State
pub mod Disk
pub mod Buffer
pub mod Flush
pub mod Run
