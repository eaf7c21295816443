-- ===== src/Layer.antt =====
-- The NSO layer of a base station as a state machine: its steps are the rounds of the threads of
-- bs/src/bs_lib/nso.c and the calls of the upper layer, in any order. A step is one that returns.
pub mod Tables
pub mod Routes
pub mod Safety
pub mod Forwarding
pub mod Registration
pub mod Rules
pub mod Receiving
pub mod Sending
pub mod Runs
pub mod FromInit
pub mod Forwarded
pub mod Heard
pub mod Stuck
use nrg_5_sorbonne.Base.{ℕ, ◌≡◌, Bool, Option, List}
use nrg_5_sorbonne.Kernel.{Kernel}
use nrg_5_sorbonne.Memory.{ok}
use nrg_5_sorbonne.NsoCommon.{DeviceId, L2Addr}
use nrg_5_sorbonne.NsoIf.{NsoIf}
use nrg_5_sorbonne.Packet.{Packet}
use nrg_5_sorbonne.Nso.State.{Env, NsoLayer}
use nrg_5_sorbonne.Nso.Data.{Delivery, rx_round, vnf_rx_round, nso_layer_send, nso_layer_recv}
use nrg_5_sorbonne.Nso.Threads.{tx_register, tx_report}

module _ ⦃K : Kernel⦄ where
  pub data Step (a : NsoLayer) : NsoLayer → Type 0 where
    from_air :
        {b : NsoLayer} (env : Env) (pkt : Packet) (src : Option L2Addr) (iface : Option NsoIf)
        → rx_round env a pkt src iface ≡ ok b
        → Step a b
    from_vnf :
        {b : NsoLayer} (env : Env) (stream rest : List ℕ)
        → vnf_rx_round env a stream ≡ ok (b, rest)
        → Step a b
    registers :
        {b : NsoLayer} (env : Env) (more : Bool) → tx_register env a ≡ ok (more, b) → Step a b
    reports : {b : NsoLayer} (env : Env) (more : Bool) → tx_report env a ≡ ok (more, b) → Step a b
    sends :
        {b : NsoLayer} (env : Env) (buf : List ℕ) (dst : Option DeviceId) (proto sent : ℕ)
        → nso_layer_send env a buf dst proto ≡ ok (sent, b)
        → Step a b
    receives :
        {b : NsoLayer} (size : ℕ) (d : Delivery) → nso_layer_recv a size ≡ ok (d, b) → Step a b

  pub data Reach (a : NsoLayer) : NsoLayer → Type 0 where
    here : Reach a a
    and_then : {b c : NsoLayer} → Reach a b → Step b c → Reach a c
