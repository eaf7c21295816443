-- ===== src/Lib.antt =====
-- The NSO layer of a base station (bs/src/bs_lib), which connects a wireless sensor network to
-- network functions on hosts: it registers with the vTSD function, reports its neighbours to the
-- vSON function and takes routes from it, and forwards data packets between devices and functions.
--
-- Parts, and how they interact:
-- - Base, Kernel, Memory: shared names and list lemmas; the vendored headers list.h, hashtable.h
--   and hash_crc.h as a record of operations with their documented behaviour (`Kernel`); the
--   outcome of C code (`Run`: a result, a crash, or a wait for ever), and a C heap of entries.
-- - NsoCommon, NsoIf: bs/src/bs_lib/include/nso_common.h and nso_if.h, device ids, link-layer
--   addresses, interfaces.
-- - Arp, Nbr, Fwd, Bspc: arp.c, neighbor.c, fwding.c and bspc.c with their headers. The C functions
--   keep their names; a table is a record with the heap of its entries, and a function that changes
--   it returns it. Table and Table/Indexed have the loops and steps that the four files share.
-- - Packet: packet.h and nso_packet.h, a packet as its buffer with the offset of `data`; a memcpy
--   beyond the buffer is a crash. Queue: packet_queue.c.
-- - Wifi: wifi_ops.c and the calls of nso_if.h; what sendto gets is a value, what recvfrom delivers
--   an argument.
-- - Nso: nso.c and bs_util.h. Nso/State is nso_layer_t with the sockets and the messages sent so
--   far; Nso/Forward is nso_layer_fwd; Nso/Data has the data packets, and one round of each of the
--   receiving threads, which calls Tsd and Son; Nso/Threads the rounds of the sending thread;
--   Nso/Setup and Nso/Init are __nso_layer_init, with what it holds at each error label.
-- - Tsd, Son: nso_tsd.c with nso_aaa.c, and nso_son.c, the handlers of the two control protocols.
--   Son/RoutingMap is the abstract view of the vSON table, Son/Message the rules as bytes,
--   Son/Advertise the frames of an advertisement, Son/Report a reader of the reports by the format in
--   vson/vSON_southbound.py, Son/TopoReport the packets with them.
-- - Device: nso/src/nso_lib, the same layer on a device, where it differs: beacons and the reply to
--   them (Device/Tsd), route updates (Device/Son), received data and the threads (Device/Data),
--   __nso_layer_init (Device/Init); Device/Layer is its state machine, Device/Joining,
--   Device/Answer and Device/EndToEnd follow a packet over the air.
-- - Layer: the base station as a state machine, whose steps are the rounds of the threads and the
--   calls of the upper layer. Api: api.c. Util: util.h.
-- - Tests: a Kernel of plain lists, concrete tables and packets, and the results at them.
--
-- Numbers: an int or uint32_t that can wrap is kept modulo 2^32 (`size` of a table, `byte_len`
-- where it can be negative), the length field modulo 2^14; bytes are numbers below 256. The bit
-- fields and byte orders are those of a little-endian host.
-- Loops: those over a list are recursion on it. `drain` counts `size` down as the code does.
-- `pq_destroy_loop` has fuel, one round for each entry and one for the last test, and running out of
-- it would be a crash. `update_rules` has `size` as its fuel, of which each round takes 18.
-- Mutexes: a flag; taking one that is held waits for ever, as nothing else runs in between.
--
-- A round of __rx_thread_main does not test the result of nso_if_receive: after a failure it uses and
-- frees addresses that are not set or were freed before, so that what follows is not defined, a crash
-- (rx_thread_round). rx_round is the rest of it, from a packet and addresses that are set.
-- Sockets of network functions: the messages are what the socket takes of them, and recv may fail where
-- the bytes end (`Env`).
--
-- Not modelled: the system calls that open interfaces and sockets, starting the threads in
-- nso_layer_run and their interleaving within a round, logging, malloc of ids and addresses,
-- __process_reg_reply of the base station, which nothing calls; the files of nso/src/nso_lib that
-- are the text of bs/src/bs_lib; the Python services and the web page.
pub mod Base
pub mod Kernel
pub mod Memory
pub mod Table
pub mod NsoCommon
pub mod NsoIf
pub mod Arp
pub mod Nbr
pub mod Fwd
pub mod Bspc
pub mod Packet
pub mod Queue
pub mod Wifi
pub mod Nso
pub mod Tsd
pub mod Son
pub mod Device
pub mod Layer
pub mod Util
pub mod Api
pub mod Tests
