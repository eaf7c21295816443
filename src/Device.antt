-- ===== src/Device.antt =====
-- nso/src/nso_lib: the NSO layer of a device. Its tables, packets, queue and interfaces are the
-- text of bs/src/bs_lib, and so are nso_layer_fwd, nso_layer_send and nso_layer_recv; what differs
-- is in the child modules. The state is that of the base station, whose table of network functions
-- and whose sockets a device does not have and does not read.
pub mod Tsd
pub mod Son
pub mod Data
pub mod Queue
pub mod Beacon
pub mod EndToEnd
pub mod Joining
pub mod Answer
pub mod Reply
pub mod Init
pub mod Routes
pub mod Layer
