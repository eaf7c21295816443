-- ===== src/Nso.antt =====
-- bs/src/bs_lib/include/nso.h and nso.c: the state of the NSO layer of a base station, and the
-- forwarding of a packet. The data path and the dispatch of received packets are in child modules.
pub mod State
pub mod Forward
pub mod Data
pub mod Threads
pub mod Setup
pub mod Init
