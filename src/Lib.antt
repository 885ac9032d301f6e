-- ===== src/Lib.antt =====
-- A verification library for two programs: the router of 20100117_RouterAssign_1/router, a
-- user-level IP router that gets Ethernet frames from a server, answers ARP and ICMP, and forwards
-- IP packets; and the sender of Assign_3 with its congestion controllers.
--
-- The parts of the router. `main` (sr_main.c) loads the routing table, connects to the server, sets
-- the cache up and then reads messages from the server (sr_vns_comm.c). The server hands frames to
-- `sr_handlepacket` (sr_router.c), which passes them by Ethernet type to `arp_packet` (sr_arp.c) or
-- `IP_packet` (sr_ip.c). An IP packet is checked and then answered (sr_icmp.c) or forwarded: a
-- route from the table (sr_rt.c), the next hop's Ethernet address from the ARP cache
-- (sr_arpcache.c), and the interface (sr_if.c). Where the address is not known the packet waits in
-- the cache's queue of requests, and `handle_arpreq` (sr_arp.c) sends ARP requests. All frames
-- leave by `sr_send_packet` (sr_vns_comm.c). A second thread runs `sr_arpcache_timeout` each
-- second.
--
-- The sender (Assign_3/sender.cc) reacts to what a poller reports: while the window is open it
-- sends datagrams, an acknowledgement goes to the controller, and after a time-out one datagram is
-- sent. The controller (Assign_3/controller.hh) says how large the window is.
--
-- Which file models which part:
--   Base       names of the libraries, Boolean tests, lists over native numbers, and Result: a C
--              call returns, or ends in a fault (a null, wild or dangling pointer, an access out of
--              bounds, a failed assert, a missing return value, fuel used up). Keep proves that a
--              command keeps an order on the states, part by part.
--   Bytes      blocks of memory as lists of bytes, memcpy, byte order on a little-endian host.
--   Protocol   the packed structs of sr_protocol.h, one module each; Struct is their interface: a
--              record of a reading, a writing and their laws, over which `get` and `put` access a
--              header within a block.
--   Checksum   cksum of sr_utils.c; Bits, Fold, Sum and Valid prove it against RFC 1071 and RFC
--              791.
--   CString    strncpy and strncmp as the C standard describes them.
--   Iface      the interface list, sr_if.c; Hardware is the message that fills it (sr_vns_comm.c).
--   Route      sr_rt.c, sr_verify_routing_table of sr_main.c and longest_prefix_sum of sr_ip.c.
--   Cache      sr_arpcache.c: Entries proves the table of addresses, Requests the queue, and Map
--              that the table implements a finite map.
--   Router     struct sr_instance and the operations on it: Send (sr_vns_comm.c), Icmp (sr_icmp.c),
--              Request and Arp (sr_arp.c), Forward and Ip (sr_ip.c), Handle (sr_router.c), Sweep
--              (sr_arpcache.c), Filter (sr_vns_comm.c), Unused (dest_unreach_code.c). Rewriting,
--              Checked, Errors, Answering, Sending, Retrying, Release, Resolving, Returning,
--              Dispatch, Echoing, Sweep.Queue and Sweep.Pointers hold their theorems; Keeping, Keepers,
--              Invariant and Sweep.Keeping show what a frame and a sweep cannot change.
--   Server     the connection: Socket is the two loops that read bytes, Session the rest of struct
--              sr_instance with the files and the input, Reader sr_read_from_server_expect and its
--              handlers, Connect sr_connect_to_server (all sr_vns_comm.c), Main sr_main.c and
--              sr_init of sr_router.c. Stream, Framing, Delivery, Routing, Quiet, Ready, Starting,
--              Steady and Serving hold their theorems. Command is the structs of vnscommand.h as lists of
--              fields, with one reading and writing for all; Layout and Sent hold its theorems.
--   Dump       the log of frames: sr_dumper.c and sr_log_packet (sr_vns_comm.c); Reading reads it
--              back, and Appending says what one call adds. The log is a field of the router.
--   Print      the printing of headers, sr_utils.c, as calls of fprintf; Tables prints the
--              interfaces, the routing table and the ARP cache (sr_if.c, sr_rt.c, sr_arpcache.c).
--   Sender     DatagrumpSender of Assign_3/sender.cc over any Controller, an interface with one
--              law. Aimd (controller_AIMD_best.cc) and Throughput (controller_throughput.cc)
--              implement it; Window and Runs prove the sender's accounting, Lateness what the
--              second counts, and LongDouble is the interface of the floating-point numbers.
--   Examples   (also in Cache, Router, Server, Dump and Sender) the theorems at concrete data.
--
-- A function of the source keeps its name in lower case. A pointer to an interface, route, entry or
-- packet that is only read is the value it points to, or `none` for null. A pointer to a request is
-- the address of its node, looked up at each access. An `int` of 0 or -1 is a Bool. Numbers in a
-- header are those that the host reads, in network order where the source leaves them so.
--
-- What is a parameter: `Env` holds the result of `write`, what a block from `malloc` holds, the
-- memory at an address that the code makes up, and the time that `gettimeofday` gives; `now` is the
-- time, which does not pass during a call; sscanf and inet_aton of `sr_load_rt` are arguments.
-- Memory does not run out. `World` adds what the connection meets: whether the server answers, the
-- file with the key, the digest by sha1.c, what lies in an array that was not written to; `Host`
-- adds what `main` meets. What the socket does is a list of events: bytes arrive, a signal breaks a
-- call, a call fails; at its end the connection is closed. A long double is any ordered type of
-- numbers with the laws of `LongDouble`, which whole numbers meet. What the poller reports, and
-- what the sender reads of a message, are arguments.
--
-- Fuel. The loop of `handle_arpreq` over a request's packets runs on fuel, since in the code it
-- does not end; the theorems are for every amount of it. `sr_arpcache_sweepreqs` takes the number
-- of rounds; the length of the queue is enough. The loops that read from the socket run on fuel:
-- the number of events is enough, if the bytes come. The loop that closes the window of the sender
-- runs on fuel: the size of the window is enough. The main loop runs over a list of turns, each a
-- message that is read or a round of the thread; each turn ends before the next begins. Every other
-- loop is recursion on a list, and the folding of the checksum is recursion on accessibility.
--
-- Not modelled: other output for debugging and the calls of the printing in the code, the mutex of
-- the cache (each operation of the thread is one step), SHA-1 (sha1.c, a copy of another project),
-- the command line of the sender. The socket, the poller and the messages of the sender are not in
-- the repository, and the other assignment is scripts and data.
pub mod Base
pub mod Bytes
pub mod Protocol
pub mod Checksum
pub mod CString
pub mod Iface
pub mod Route
pub mod Cache
pub mod Router
pub mod Server
pub mod Dump
pub mod Print
pub mod Sender
pub mod Examples
