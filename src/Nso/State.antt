-- ===== src/Nso/State.antt =====
-- The state `nso_layer` of bs/src/bs_lib/include/nso.h, with the sockets that nso_tsd.c and
-- nso_son.c keep, and the messages that have left the base station. The threads' handles, the
-- periods and the condition variables are left out.
use nrg_5_sorbonne.Base.{
  ℕ, Bool, true, false, Option, none, some, List, ◌∷◌, if◌then◌else◌, ltb, get_or, take,
}
use nrg_5_sorbonne.Kernel.{Kernel}
use nrg_5_sorbonne.Memory.{Run, ok, crash, ◌>>=◌, mutex_lock}
use nrg_5_sorbonne.NsoCommon.{DeviceId}
use nrg_5_sorbonne.NsoIf.{NsoIf}
use nrg_5_sorbonne.Packet.{Packet, get_bytes}
use nrg_5_sorbonne.Wifi.{Frame}
use nrg_5_sorbonne.Arp.{ArpTable}
use nrg_5_sorbonne.Fwd.{FwdTable}
use nrg_5_sorbonne.Nbr.{NbrTable}
use nrg_5_sorbonne.Bspc.{BspcTable}
use nrg_5_sorbonne.Queue.{Pq}

pub data DeviceStatus : Type 0 where
  nrg5_unreg nrg5_reg nrg5_connected : DeviceStatus

abbrev pub is_connected : DeviceStatus → Bool
is_connected nrg5_unreg = false
is_connected nrg5_reg = false
is_connected nrg5_connected = true

-- What leaves the base station: bytes to a network function, or a frame on an interface.
pub data Message : Type 0 where
  to_vnf : ℕ → List ℕ → Message
  to_air : Frame → Message

-- What the code does not decide: whether sendto takes a frame; the size that the AAA module claims for
-- the credentials, and the bytes that recv gives of them; the block that malloc gives for a packet
-- (`none` is NULL); whether a local pointer with no value happens to be NULL; how many bytes the socket
-- of a network function takes of a message before send fails, all if it does not; and whether recv
-- fails on such a socket, or waits, where it has no more bytes.
pub record Env : Type 0 where
  pub accepts : Frame → Bool
  pub credentials : List ℕ → ℕ × List ℕ
  pub block : Option (List ℕ)
  pub stray_null : Bool
  pub vnf_takes : ℕ → List ℕ → ℕ
  pub vnf_broken : Bool

-- What the socket of a network function takes of a message.
abbrev pub taken : Env → ℕ → List ℕ → Message
taken env fd bytes = to_vnf fd (take (env.vnf_takes fd bytes) bytes)

-- NSO_MAX_SUPPORTED_IFACES
abbrev pub nso_max_supported_ifaces : ℕ
nso_max_supported_ifaces = 10

module _ ⦃K : Kernel⦄ where
  pub record NsoLayer : Type 0 where
    pub ifaces : List (Option NsoIf)
    pub ifaces_nb : ℕ
    pub arpt : ArpTable
    pub son_fwdt : FwdTable
    pub local_fwdt : FwdTable
    pub nbrt : NbrTable
    pub gw_id : DeviceId
    pub dev_state : DeviceStatus
    pub state_lock : Bool
    pub dev_id : DeviceId
    pub mtu : ℕ
    pub battery : ℕ
    pub data_pq : Pq
    pub data_lock : Bool
    pub aaa_reg_cred : List ℕ
    pub aaa_cred_size : ℕ
    pub bspc_tbl : BspcTable
    pub vtsd_fd : ℕ
    pub vson_fd : ℕ
    -- Last one first.
    pub sent : List Message

  unfoldable pub lock_state : NsoLayer → Run NsoLayer
  lock_state nsol = mutex_lock nsol.state_lock >>= λ l. ok (record nsol { state_lock = l })

  unfoldable pub unlock_state : NsoLayer → NsoLayer
  unlock_state nsol = record nsol { state_lock = false }

  -- `pthread_mutex_lock (…); ret = dev_state == …; pthread_mutex_unlock (…);`
  unfoldable pub check_state : (DeviceStatus → Bool) → NsoLayer → Run Bool
  unfolding lock_state
  check_state test nsol = lock_state nsol >>= λ n. ok (test n.dev_state)

  -- `nsol->ifaces[i]`: NULL in a slot that holds no interface, and a crash beyond the last slot.
  unfoldable pub iface_at : NsoLayer → ℕ → Run (Option NsoIf)
  iface_at nsol i = if ltb i nso_max_supported_ifaces then ok (get_or nsol.ifaces i none) else crash

  -- send_pkt_to_vnf: the loop sends the bytes of the packet until the socket has taken all of them or
  -- fails; no caller reads the result.
  unfoldable pub send_pkt_to_vnf : Env → ℕ → Packet → NsoLayer → Run NsoLayer
  send_pkt_to_vnf env sockfd pkt nsol = do
    bytes ← get_bytes pkt 0 pkt.byte_len
    ok (record nsol { sent = taken env sockfd bytes ∷ nsol.sent })

  -- What a send on an interface adds to the messages.
  abbrev pub log_frame : Option Frame → NsoLayer → NsoLayer
  log_frame none nsol = nsol
  log_frame (some f) nsol = record nsol { sent = to_air f ∷ nsol.sent }
