-- ===== src/Lib.antt =====
-- LogAgg: logs of several nodes, ordered by vector clocks. Agents stamp the lines of a log file with
-- a vector clock and send them as JSON; a server buffers what arrives out of order, writes entries to
-- a file of the day once their causes are written, and a query tool loads those files into a store.
--
--   Clock (src/vector_clock.c, include/vector_clock.h): the clock as `node_count` and its 32 cells,
--     with vc_init, vc_increment, vc_merge, vc_compare and vc_copy. View gives the count of a node,
--     Compare and Order the causal order, Json the texts that are printed and read.
--   Entry (src/log_entry.c, include/log_entry.h): levels, metadata and comparators; Json is
--     json_escape, log_entry_to_json and log_entry_from_json. Below it, Printed gives the text as a
--     list of pieces, Escape, Braces and Fields read the pieces, RoundTrip and Reprint go there and
--     back, Fits bounds the length, Shorter and Rounds are about the end of its loop over
--     fields.
--   Agent (src/agent.c, include/agent.h): Line is agent_parse_line, State is agent_t with the rules by
--     which a line moves the clock, Run the polling, sending, start and stop. Order, Keeps and Life
--     follow the entries of an agent, Ahead, Delivery and Flow follow them into the server's buffer,
--     Texts, Sending and Wire as datagrams through the server to its disk.
--   Server (src/server.c, include/server.h): State is server_t, Disk the log file of the day, Buffer
--     the sorted list and its tests, Flush the causal flush and the timeout check, Run the main loop,
--     start and cleanup. Below Run, Served takes rounds as events, Causal is about any run, InTime
--     about one in which nothing times out, Wire about its datagrams.
--   Store (src/store.c, include/store.h): the log store with its duplicate table; Load the reading of
--     a file, Compressed the files that are packed with LZ4, Sort the sorts, Graph the edges of the
--     exported graph, Query the linear query, Index the inverted index, Stats the counts of
--     each node.
--   Tools (src/main_query.c, src/main_agent.c, src/main_server.c): the three command lines, as loops
--     over argv that fill a record of options, and what each program does with them.
--   Common: library names, tests on numbers, arrays, C strings, decimals, snprintf, sscanf and fgets.
--   Tests: small clocks, agents, servers and stores on which the laws are tried.
--
-- An agent gives each line of its log the next clock (Agent, Clock) and sends it as JSON (Entry). A
-- server round takes a datagram to an entry (Entry), puts it into the buffer (Buffer), flushes what
-- the committed clock lets through (Flush, Clock) and writes it as JSON (Disk, Entry). The store is
-- filled with the lines of such files (Load), and compares clocks to drop duplicates.
--
-- Numbers are natural numbers; the 64-bit counters, the 32-bit count of steps and the hash wrap where
-- the code does. A C string is the bytes before its NUL. Loops are structural where they walk a list;
-- the others have as many rounds as there are bytes or buffer nodes left, which suffices since each
-- round takes at least one away; for the loops over argv and over JSON fields, whose model answers an
-- error when the rounds run out, a relation without rounds stands beside the model (Tools/Arguments and
-- Entry/Json/Rounds). What the system answers (the date, whether a directory, a file or
-- memory can be had, the time, local time, the datagrams, what the network takes) is an argument, and
-- so is the layout of a clock in memory, which the duplicate table hashes; it is taken to be a function
-- of the count and of all cells, the unused ones among them. An fwrite to an open file is taken to
-- succeed.
--
-- `qsort` is an argument too, and sorts as documented when the comparator is consistent. What
-- LZ4 writes and gives back is an argument of saving and loading compressed files.
--
-- Not modelled: sockets, printing (usage texts and the nodes of the exported graph included), the
-- walk over a directory, the signal handlers, which only stop the loops, and the vendored LZ4.
pub mod Common
pub mod Clock
pub mod Entry
pub mod Agent
pub mod Server
pub mod Store
pub mod Tools
pub mod Tests
