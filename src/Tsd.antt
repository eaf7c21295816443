-- ===== src/Tsd.antt =====
-- bs/src/bs_lib/nso_tsd.c: registration. The base station registers itself with the vTSD network
-- function, forwards the beacons of devices that register through it, and is connected once the
-- vTSD's answer is success. Of nso_aaa.c, what aaa_get_credentials does with the answer.
pub mod Reply
pub mod Beacon
pub mod Routes
use nrg_5_sorbonne.Base.{
  ℕ, ◌+◌, Bool, true, false, ◌&&◌, Option, none, some, List, [], ◌∷◌, ◌==◌, if◌then◌else◌, ltb,
  length, take, drop, ◌++◌,
}
use nrg_5_sorbonne.Kernel.{Kernel, Ptr}
use nrg_5_sorbonne.Memory.{Run, ok, crash, ◌>>=◌, non_null, load, store, Heap}
use nrg_5_sorbonne.NsoCommon.{
  DeviceId, L2Addr, to_bytes, device_id_equal, is_broadcast_dev_id, alloc_l2addr,
}
use nrg_5_sorbonne.NsoIf.{NsoIf}
use nrg_5_sorbonne.Table.{active}
use nrg_5_sorbonne.Packet.{
  Packet, alloc_packet, get_byte, put_bytes, put_u16, get_devid, put_devid, htons, with_ver,
  set_len_ver, finish_pkt, nsohdr_size, src_devid_at, dst_devid_at, proto_at, nso_proto_cp_vtsd,
}
use nrg_5_sorbonne.Arp.{
  ArpTable, alloc_arp_entry, set_arp_status, arp_table_lock, arp_table_unlock, arp_table_add,
  arp_table_lookup_from_dev_id_unsafe, arp_table_lookup_from_l2addr_unsafe,
}
use nrg_5_sorbonne.Fwd.{
  FwdTable, alloc_fwd_entry, set_fwd_status, fwd_table_lock, fwd_table_unlock, fwd_table_add,
  fwd_table_lookup_unsafe,
}
use nrg_5_sorbonne.Nso.State.{
  Env, NsoLayer, DeviceStatus, nrg5_unreg, nrg5_reg, nrg5_connected, is_connected, lock_state,
  unlock_state, check_state, send_pkt_to_vnf,
}

-- NSO_TSD_MSG_REG, NSO_TSD_MSG_BS_REG and NSO_TSD_MSG_BS_REG_REPLY
abbrev pub nso_tsd_msg_reg : ℕ
nso_tsd_msg_reg = 0

abbrev pub nso_tsd_msg_bs_reg : ℕ
nso_tsd_msg_bs_reg = 2

abbrev pub nso_tsd_msg_bs_reg_reply : ℕ
nso_tsd_msg_bs_reg_reply = 3

-- NRG5_REG_SUCCESS
abbrev pub nrg5_reg_success : ℕ
nrg5_reg_success = 0

abbrev pub is_unreg : DeviceStatus → Bool
is_unreg nrg5_unreg = true
is_unreg nrg5_reg = false
is_unreg nrg5_connected = false

module _ ⦃K : Kernel⦄ where
  -- The answer of the AAA module is a size, and then at most so many bytes, which recv writes to a
  -- buffer of 1024 bytes; the size is kept whatever has come.
  unfoldable pub aaa_get_credentials : Env → List ℕ → NsoLayer → Run NsoLayer
  aaa_get_credentials env in_buf nsol =
      let size = (env.credentials in_buf).0 in
      let reply = take size (env.credentials in_buf).1 in
      if ltb 1024 (length reply)
      then crash
      else ok (record nsol {
        aaa_reg_cred = reply ++ drop (length reply) nsol.aaa_reg_cred;
        aaa_cred_size = size;
      })

  -- `memcpy` of aaa_cred_size bytes from the buffer: it has no more than its own.
  unfoldable pub cred_bytes : NsoLayer → Run (List ℕ)
  cred_bytes nsol =
      if ltb (length nsol.aaa_reg_cred) nsol.aaa_cred_size
      then crash
      else ok (take nsol.aaa_cred_size nsol.aaa_reg_cred)

  unfoldable pub get_bs_reg_pkt : Env → NsoLayer → Run (Packet × NsoLayer)
  unfolding aaa_get_credentials cred_bytes
  get_bs_reg_pkt env nsol = do
    pkt ← non_null (alloc_packet env.block nsol.mtu)
    pkt ← put_devid src_devid_at nsol.dev_id pkt
    src ← get_devid pkt src_devid_at
    pkt ← put_devid dst_devid_at src pkt
    pkt ← put_u16 proto_at (htons nso_proto_cp_vtsd) pkt
    pkt ← set_len_ver (with_ver 0) pkt
    pkt ← put_bytes nsohdr_size (nso_tsd_msg_bs_reg ∷ []) pkt
    nsol ←
        if nsol.aaa_cred_size == 0 then aaa_get_credentials env (to_bytes 8 src) nsol else ok nsol
    creds ← cred_bytes nsol
    pkt ← put_bytes (nsohdr_size + 1) creds pkt
    pkt ← finish_pkt (nsol.aaa_cred_size + nsohdr_size + 1) pkt
    ok (pkt, nsol)

  unfoldable pub tsd_bs_reg : Env → NsoLayer → Run NsoLayer
  unfolding get_bs_reg_pkt
  tsd_bs_reg env nsol = do
    (pkt, nsol) ← get_bs_reg_pkt env nsol
    send_pkt_to_vnf env nsol.vtsd_fd pkt nsol

  -- What a lookup has found becomes active. Otherwise an entry is added, with the address `src`,
  -- which is read only then; the lock is given back before that, and taken again to add.
  unfoldable pub touch_arp_at : Option Ptr → DeviceId → Option L2Addr → ArpTable → Run ArpTable
  unfolding arp_table_unlock set_arp_status
  touch_arp_at (some p) src_id src arpt = do
    e ← load arpt.heap p
    ok (arp_table_unlock (record arpt { heap = store p (set_arp_status active e) arpt.heap }))
  touch_arp_at none src_id src arpt = non_null src >>= λ mac.
      let (p, h) = alloc_arp_entry src_id (alloc_l2addr (length mac) mac) arpt.heap in
      non_null p >>= λ p. arp_table_add (arp_table_unlock (record arpt { heap = h })) p

  unfoldable pub touch_arp : DeviceId → Option L2Addr → ArpTable → Run ArpTable
  unfolding arp_table_lock touch_arp_at
  touch_arp src_id src arpt = do
    arpt ← arp_table_lock arpt
    arp_e ← arp_table_lookup_from_dev_id_unsafe arpt src_id
    touch_arp_at arp_e src_id src arpt

  unfoldable pub touch_fwd_at :
      Option Ptr → DeviceId → Option DeviceId → Option NsoIf → FwdTable → Run FwdTable
  unfolding fwd_table_unlock set_fwd_status
  touch_fwd_at (some p) src_id nxt_id iface tbl = do
    e ← load tbl.table.heap p
    ok (
        fwd_table_unlock (record tbl {
          table = record tbl.table { heap = store p (set_fwd_status active e) tbl.table.heap };
        }))
  touch_fwd_at none src_id nxt_id iface tbl = do
    let tbl : FwdTable = fwd_table_unlock tbl
    (p, h) ← alloc_fwd_entry src_id nxt_id iface tbl.table.heap
    p ← non_null p
    fwd_table_add (record tbl { table = record tbl.table { heap = h } }) p

  -- The temporary route back to `src_id` becomes active, or a new one is added.
  unfoldable pub touch_fwd : DeviceId → Option DeviceId → Option NsoIf → FwdTable → Run FwdTable
  unfolding fwd_table_lock touch_fwd_at
  touch_fwd src_id nxt_id iface tbl = do
    tbl ← fwd_table_lock tbl
    fwd_e ← fwd_table_lookup_unsafe tbl src_id
    touch_fwd_at fwd_e src_id nxt_id iface tbl

  -- The device from which a frame came, by its link-layer address; exit if it is not known.
  unfoldable pub sender_of : L2Addr → ArpTable → Run (DeviceId × ArpTable)
  unfolding arp_table_lock arp_table_unlock
  sender_of src arpt = do
    arpt ← arp_table_lock arpt
    arp_e ← arp_table_lookup_from_l2addr_unsafe arpt src
    p ← non_null arp_e
    e ← load arpt.heap p
    ok (e.dev_id, arp_table_unlock arpt)

  -- A beacon that is broadcast comes from the device itself, any other from one that forwards it;
  -- the first is addressed to the gateway from now on.
  unfoldable pub learn_sender :
      NsoLayer → Packet → Option L2Addr → Option NsoIf → Run (Packet × NsoLayer)
  unfolding touch_arp touch_fwd sender_of
  learn_sender nsol pkt src iface = do
    dst_id ← get_devid pkt dst_devid_at
    if is_broadcast_dev_id dst_id
        then (do
          pkt ← put_devid dst_devid_at nsol.gw_id pkt
          src_id ← get_devid pkt src_devid_at
          mac ← non_null src
          arpt ← touch_arp src_id (some mac) nsol.arpt
          here ← touch_fwd src_id none iface nsol.local_fwdt
          ok (pkt, record nsol { arpt = arpt; local_fwdt = here }))
        else (do
          mac ← non_null src
          (nxt_id, arpt) ← sender_of mac nsol.arpt
          src_id ← get_devid pkt src_devid_at
          here ← touch_fwd src_id (some nxt_id) iface nsol.local_fwdt
          ok (pkt, record nsol { arpt = arpt; local_fwdt = here }))

  unfoldable pub fwd_beacon : Env → NsoLayer → Packet → Option L2Addr → Option NsoIf → Run NsoLayer
  unfolding learn_sender
  fwd_beacon env nsol pkt src iface = do
    connected ← check_state is_connected nsol
    if connected
        then (do
          (pkt, nsol) ← learn_sender nsol pkt src iface
          send_pkt_to_vnf env nsol.vtsd_fd pkt nsol)
        else ok nsol

  unfoldable pub process_bs_reg_reply : NsoLayer → Packet → Run NsoLayer
  unfolding lock_state unlock_state device_id_equal
  process_bs_reg_reply nsol pkt = do
    dst_id ← get_devid pkt dst_devid_at
    if device_id_equal dst_id nsol.dev_id
        then (do
          nsol ← lock_state nsol
          ans ← get_byte pkt (nsohdr_size + 1)
          if is_unreg nsol.dev_state && (ans == nrg5_reg_success)
              then (do
                gw_id ← get_devid pkt src_devid_at
                ok (unlock_state (record nsol { gw_id = gw_id; dev_state = nrg5_connected })))
              else ok (unlock_state nsol))
        else ok nsol

  -- The second result is whether the function returned 0.
  unfoldable pub tsd_process_rx :
      Env → NsoLayer → Packet → Option L2Addr → Option NsoIf → Run (NsoLayer × Bool)
  unfolding fwd_beacon process_bs_reg_reply
  tsd_process_rx env nsol pkt src iface = do
    type ← get_byte pkt nsohdr_size
    if type == nso_tsd_msg_reg
        then (fwd_beacon env nsol pkt src iface >>= λ n. ok (n, true))
        else (if type == nso_tsd_msg_bs_reg_reply
            then (process_bs_reg_reply nsol pkt >>= λ n. ok (n, true))
            else ok (nsol, false))
