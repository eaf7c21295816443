-- ===== src/Device/Tsd.antt =====
-- nso/src/nso_lib/nso_tsd.c: a device broadcasts beacons until it is registered, forwards the
-- beacons of devices behind it, and takes the answer to its own.
use nrg_5_sorbonne.Base.{
  ℕ, ◌+◌, ◌%◌, Bool, true, false, ◌&&◌, Option, some, [], ◌∷◌, ◌==◌, if◌then◌else◌,
}
use nrg_5_sorbonne.Kernel.{Kernel}
use nrg_5_sorbonne.Memory.{Run, ok, crash, ◌>>=◌, non_null}
use nrg_5_sorbonne.NsoCommon.{DeviceId, L2Addr, to_bytes, device_id_equal, alloc_bc_device_id}
use nrg_5_sorbonne.NsoIf.{NsoIf}
use nrg_5_sorbonne.Packet.{
  Packet, alloc_packet, get_byte, put_bytes, get_devid, finish_pkt, start_pkt, nsohdr_size,
  src_devid_at, dst_devid_at, nso_proto_cp_vtsd,
}
use nrg_5_sorbonne.Wifi.{nso_if_broadcast}
use nrg_5_sorbonne.Fwd.{FwdTable, alloc_fwd_entry, fwd_table_add}
use nrg_5_sorbonne.Nso.State.{
  Env, NsoLayer, nrg5_connected, is_connected, lock_state, unlock_state, check_state, iface_at,
  log_frame,
}
use nrg_5_sorbonne.Nso.Forward.{nso_layer_fwd}
use nrg_5_sorbonne.Tsd.{
  aaa_get_credentials, cred_bytes, learn_sender, sender_of, is_unreg, nso_tsd_msg_reg,
  nrg5_reg_success,
}

-- NSO_TSD_MSG_REG_REPLY
abbrev pub nso_tsd_msg_reg_reply : ℕ
nso_tsd_msg_reg_reply = 1

module _ ⦃K : Kernel⦄ where
  -- `nso_layer_fwd (pkt);`, whose result nothing reads.
  unfoldable pub fwd_on : Env → Packet → NsoLayer → Run NsoLayer
  unfolding nso_layer_fwd
  fwd_on env pkt nsol = nso_layer_fwd env nsol pkt >>= λ f. ok f.nsol

  unfoldable pub get_nso_beacon : Env → NsoLayer → Run (Packet × NsoLayer)
  unfolding aaa_get_credentials cred_bytes alloc_bc_device_id
  get_nso_beacon env nsol = do
    pkt ← non_null (alloc_packet env.block nsol.mtu)
    pkt ← start_pkt nsol.dev_id alloc_bc_device_id nso_proto_cp_vtsd pkt
    pkt ← put_bytes nsohdr_size (nso_tsd_msg_reg ∷ []) pkt
    src ← get_devid pkt src_devid_at
    nsol ←
        if nsol.aaa_cred_size == 0 then aaa_get_credentials env (to_bytes 8 src) nsol else ok nsol
    creds ← cred_bytes nsol
    pkt ← put_bytes (nsohdr_size + 1) creds pkt
    pkt ← finish_pkt (nsol.aaa_cred_size + nsohdr_size + 1) pkt
    ok (pkt, nsol)

  -- `nso_tsd.if_index = (nso_tsd.if_index + 1) % nsol->ifaces_nb`
  unfoldable pub next_if : NsoLayer → ℕ → Run ℕ
  next_if nsol if_index =
      if nsol.ifaces_nb == 0 then crash else ok ((if_index + 1) % nsol.ifaces_nb)

  -- The number is the interface of the next beacon.
  unfoldable pub tsd_broadcast_beacons : Env → NsoLayer → ℕ → Run (NsoLayer × ℕ)
  unfolding get_nso_beacon next_if
  tsd_broadcast_beacons env nsol if_index = do
    (pkt, nsol) ← get_nso_beacon env nsol
    slot ← iface_at nsol if_index
    iface ← non_null slot
    sent ← nso_if_broadcast env.accepts iface pkt
    next ← next_if nsol if_index
    ok (log_frame sent.frame nsol, next)

  unfoldable pub fwd_beacon : Env → NsoLayer → Packet → Option L2Addr → Option NsoIf → Run NsoLayer
  unfolding learn_sender fwd_on
  fwd_beacon env nsol pkt src iface = do
    connected ← check_state is_connected nsol
    if connected
        then (do (pkt, nsol) ← learn_sender nsol pkt src iface; fwd_on env pkt nsol)
        else ok nsol

  -- The route to the gateway `src_id`, by the neighbour with the address `src`.
  unfoldable pub add_gw_route : DeviceId → Option L2Addr → Option NsoIf → NsoLayer → Run NsoLayer
  unfolding sender_of
  add_gw_route src_id src iface nsol = do
    mac ← non_null src
    (nxt_id, arpt) ← sender_of mac nsol.arpt
    (p, h) ← alloc_fwd_entry src_id (some nxt_id) iface nsol.local_fwdt.table.heap
    p ← non_null p
    let tbl : FwdTable = nsol.local_fwdt
    here ← fwd_table_add (record tbl { table = record tbl.table { heap = h } }) p
    ok (record nsol { arpt = arpt; local_fwdt = here })

  unfoldable pub process_reg_reply :
      Env → NsoLayer → Packet → Option L2Addr → Option NsoIf → Run NsoLayer
  unfolding lock_state unlock_state device_id_equal add_gw_route fwd_on
  process_reg_reply env nsol pkt src iface = do
    dst_id ← get_devid pkt dst_devid_at
    if device_id_equal dst_id nsol.dev_id
        then (do
          nsol ← lock_state nsol
          ans ← get_byte pkt (nsohdr_size + 1)
          if is_unreg nsol.dev_state && (ans == nrg5_reg_success)
              then (do
                src_id ← get_devid pkt src_devid_at
                nsol ← add_gw_route src_id src iface nsol
                ok (unlock_state (record nsol { gw_id = src_id; dev_state = nrg5_connected })))
              else ok (unlock_state nsol))
        else (do
          connected ← check_state is_connected nsol
          if connected then fwd_on env pkt nsol else ok nsol)

  -- The second result is whether the function returned 0.
  unfoldable pub tsd_process_rx :
      Env → NsoLayer → Packet → Option L2Addr → Option NsoIf → Run (NsoLayer × Bool)
  unfolding fwd_beacon process_reg_reply
  tsd_process_rx env nsol pkt src iface = do
    type ← get_byte pkt nsohdr_size
    if type == nso_tsd_msg_reg
        then (fwd_beacon env nsol pkt src iface >>= λ n. ok (n, true))
        else (if type == nso_tsd_msg_reg_reply
            then (process_reg_reply env nsol pkt src iface >>= λ n. ok (n, true))
            else ok (nsol, false))
