-- ===== src/Device/Son.antt =====
-- nso/src/nso_lib/nso_son.c: the handlers that differ from the base station's. Reports go to the
-- gateway, and the first routes that arrive connect a registered device.
use nrg_5_sorbonne.Base.{Bool, true, false, Option, none, some, ◌==◌, if◌then◌else◌}
use nrg_5_sorbonne.Kernel.{Kernel, Ptr}
use nrg_5_sorbonne.Memory.{Run, ok, ◌>>=◌, load}
use nrg_5_sorbonne.NsoCommon.{L2Addr, device_id_equal}
use nrg_5_sorbonne.NsoIf.{NsoIf}
use nrg_5_sorbonne.Packet.{Packet, get_byte, get_devid, nsohdr_size, dst_devid_at}
use nrg_5_sorbonne.Fwd.{FwdTable, fwd_table_del, fwd_table_lookup}
use nrg_5_sorbonne.Nso.State.{
  Env, NsoLayer, DeviceStatus, nrg5_unreg, nrg5_reg, nrg5_connected, is_connected, lock_state,
  unlock_state, check_state,
}
use nrg_5_sorbonne.Son.{
  RtRule, rt_action_add, rt_action_del, nso_son_msg_topo, nso_son_msg_rt, nso_son_msg_nbr,
  get_topo_report_pkt, add_route, read_rules, neighbor_maintain,
}
use nrg_5_sorbonne.Device.Tsd.{fwd_on}

-- `if (dev_state == NRG5_REG) dev_state = NRG5_CONNECTED;`
abbrev pub after_routes : DeviceStatus → DeviceStatus
after_routes nrg5_unreg = nrg5_unreg
after_routes nrg5_reg = nrg5_connected
after_routes nrg5_connected = nrg5_connected

module _ ⦃K : Kernel⦄ where
  unfoldable pub son_topo_report : Env → NsoLayer → Run NsoLayer
  unfolding get_topo_report_pkt fwd_on
  son_topo_report env nsol = do (pkt, nsol) ← get_topo_report_pkt env nsol; fwd_on env pkt nsol

  -- free_fwd_entry of nso/src/nso_lib/include/fwding.h gives back the two ids and not the entry.
  unfoldable pub free_fwd_entry : Ptr → FwdTable → Run FwdTable
  free_fwd_entry e tbl = load tbl.table.heap e >>= λ _. ok tbl

  unfoldable pub drop_route : Option Ptr → FwdTable → Run FwdTable
  unfolding free_fwd_entry
  drop_route none tbl = ok tbl
  drop_route (some fwd_e) tbl = free_fwd_entry fwd_e (fwd_table_del tbl fwd_e)

  unfoldable pub apply_rule : RtRule → Option NsoIf → FwdTable → Run FwdTable
  unfolding drop_route add_route
  apply_rule rule iface tbl = do
    fwd_e ← fwd_table_lookup tbl rule.dst_id
    if rule.action == rt_action_add
        then (drop_route fwd_e tbl >>= add_route rule.dst_id rule.nh_id iface)
        else (if rule.action == rt_action_del then drop_route fwd_e tbl else ok tbl)

  -- `pthread_mutex_lock (…); if (…) …; ret = …; pthread_mutex_unlock (…);`
  unfoldable pub accept_routes : NsoLayer → Run NsoLayer
  unfolding lock_state unlock_state
  accept_routes nsol =
      lock_state nsol >>= λ n. ok (unlock_state (record n { dev_state = after_routes n.dev_state }))

  unfoldable pub route_update : Env → NsoLayer → Packet → Run NsoLayer
  unfolding accept_routes read_rules apply_rule device_id_equal fwd_on
  route_update env nsol pkt = do
    pkt_dst_id ← get_devid pkt dst_devid_at
    if device_id_equal pkt_dst_id nsol.dev_id
        then (do
          nsol ← accept_routes nsol
          if is_connected nsol.dev_state then read_rules apply_rule pkt nsol else ok nsol)
        else (do
          connected ← check_state is_connected nsol
          if connected then fwd_on env pkt nsol else ok nsol)

  unfoldable pub fwd_topo_report : Env → NsoLayer → Packet → Run NsoLayer
  unfolding fwd_on
  fwd_topo_report env nsol pkt = do
    connected ← check_state is_connected nsol
    if connected then fwd_on env pkt nsol else ok nsol

  -- The second result is whether the function returned 0.
  unfoldable pub son_process_rx :
      Env → NsoLayer → Packet → Option L2Addr → Option NsoIf → Run (NsoLayer × Bool)
  unfolding route_update neighbor_maintain fwd_topo_report
  son_process_rx env nsol pkt src iface = do
    type ← get_byte pkt nsohdr_size
    if type == nso_son_msg_rt
        then (route_update env nsol pkt >>= λ n. ok (n, true))
        else (if type == nso_son_msg_nbr
            then (neighbor_maintain nsol pkt src iface >>= λ n. ok (n, true))
            else (if type == nso_son_msg_topo
                then (fwd_topo_report env nsol pkt >>= λ n. ok (n, true))
                else ok (nsol, false)))
