-- ===== src/Nso/Forward.antt =====
-- nso_layer_fwd of bs/src/bs_lib/nso.c: the route of a packet is the entry of the vSON table for
-- its destination, or else that of the local table; the next hop's address is in the ARP table.
pub mod Routes
use nrg_5_sorbonne.Base.{ℕ, Bool, true, false, Option, none, some, List, [], ◌∷◌, if◌then◌else◌}
use nrg_5_sorbonne.Kernel.{Kernel, Ptr}
use nrg_5_sorbonne.Memory.{Run, ok, crash, ◌>>=◌, load}
use nrg_5_sorbonne.NsoCommon.{DeviceId, L2Addr, alloc_l2addr}
use nrg_5_sorbonne.NsoIf.{NsoIf}
use nrg_5_sorbonne.Packet.{Packet, get_devid, dst_devid_at}
use nrg_5_sorbonne.Wifi.{nso_if_send}
use nrg_5_sorbonne.Arp.{
  ArpTable, arp_table_lock, arp_table_unlock, arp_table_lookup_from_dev_id_unsafe,
}
use nrg_5_sorbonne.Fwd.{FwdTable, fwd_table_lock, fwd_table_unlock, fwd_table_lookup_unsafe}
use nrg_5_sorbonne.Nso.State.{Env, NsoLayer, log_frame}

-- `nxt` and `iface`.
pub record Hop : Type 0 where
  pub nxt : DeviceId
  pub iface : NsoIf

-- The packet as it is left, and whether the function returned 0.
pub record Forwarded ⦃K : Kernel⦄ : Type 0 where
  pub nsol : NsoLayer
  pub pkt : Packet
  pub success : Bool

module _ ⦃K : Kernel⦄ where
  -- `if (fwd_e) { nxt = alloc_device_id (fwd_e->nxthop); iface = fwd_e->interface; }`
  unfoldable pub hop_at : Option Ptr → FwdTable → Run (Option Hop)
  hop_at none tbl = ok none
  hop_at (some p) tbl =
      load tbl.table.heap p >>= λ e. ok (some (record { nxt = e.nxthop; iface = e.interface }))

  -- The lookup of a table, between its lock and unlock.
  unfoldable pub hop_of : FwdTable → DeviceId → Run (Option Hop × FwdTable)
  unfolding fwd_table_lock fwd_table_unlock
  hop_of tbl dst = do
    tbl ← fwd_table_lock tbl
    fwd_e ← fwd_table_lookup_unsafe tbl dst
    hop ← hop_at fwd_e tbl
    ok (hop, fwd_table_unlock tbl)

  -- `if (!nxt) …`: the local table is asked where the vSON table had no entry.
  unfoldable pub find_local : Option Hop → NsoLayer → DeviceId → Run (Option Hop × NsoLayer)
  find_local (some h) nsol dst = ok (some h, nsol)
  find_local none nsol dst = do
    (hop, here) ← hop_of nsol.local_fwdt dst
    ok (hop, record nsol { local_fwdt = here })

  unfoldable pub find_hop : NsoLayer → DeviceId → Run (Option Hop × NsoLayer)
  find_hop nsol dst = do
    (hop, son) ← hop_of nsol.son_fwdt dst
    find_local hop (record nsol { son_fwdt = son }) dst

  -- The jump to `out` before `addr` has a value: freeing it is undefined, unless the variable
  -- happens to be NULL.
  unfoldable pub leave : Env → NsoLayer → Packet → Run Forwarded
  leave env nsol pkt =
      if env.stray_null then ok (record { nsol = nsol; pkt = pkt; success = false }) else crash

  -- Without an ARP entry the jump is made with the ARP lock held.
  unfoldable pub send_to_entry :
      Env → Option Ptr → ArpTable → NsoLayer → Packet → Hop → Run Forwarded
  unfolding leave arp_table_unlock
  send_to_entry env none arpt nsol pkt hop = leave env (record nsol { arpt = arpt }) pkt
  send_to_entry env (some p) arpt nsol pkt hop = do
    e ← load arpt.heap p
    let nsol : NsoLayer = record nsol { arpt = arp_table_unlock arpt }
    sent ← nso_if_send env.accepts hop.iface pkt e.l2addr
    ok (record { nsol = log_frame sent.frame nsol; pkt = sent.pkt; success = true })

  unfoldable pub send_to_hop : Env → NsoLayer → Packet → Hop → Run Forwarded
  unfolding arp_table_lock send_to_entry
  send_to_hop env nsol pkt hop = do
    arpt ← arp_table_lock nsol.arpt
    arp_e ← arp_table_lookup_from_dev_id_unsafe arpt hop.nxt
    send_to_entry env arp_e arpt nsol pkt hop

  unfoldable pub fwd_by : Env → Option Hop → NsoLayer → Packet → Run Forwarded
  unfolding leave send_to_hop
  fwd_by env none nsol pkt = leave env nsol pkt
  fwd_by env (some h) nsol pkt = send_to_hop env nsol pkt h

  unfoldable pub nso_layer_fwd : Env → NsoLayer → Packet → Run Forwarded
  nso_layer_fwd env nsol pkt = do
    dst ← get_devid pkt dst_devid_at
    (hop, nsol) ← find_hop nsol dst
    fwd_by env hop nsol pkt
