-- ===== src/Son.antt =====
-- bs/src/bs_lib/nso_son.c: the topology report to the vSON network function, the advertisement to
-- neighbours, the routes that vSON sends, and the neighbours that advertise themselves.
pub mod Rules
pub mod Entries
pub mod Routes
pub mod RoutingMap
pub mod Message
pub mod Updates
pub mod Neighbours
pub mod Advertise
pub mod Report
pub mod TopoReport
use nrg_5_sorbonne.Base.{
  ℕ, zero, suc, ◌+◌, ◌-◌, ◌%◌, Bool, true, false, Option, none, some, List, [], ◌∷◌, ◌++◌, ◌==◌,
  if◌then◌else◌, ltb, length,
}
use nrg_5_sorbonne.Kernel.{Kernel, Ptr}
use nrg_5_sorbonne.Memory.{Run, ok, crash, ◌>>=◌, non_null, load, store, Heap}
use nrg_5_sorbonne.NsoCommon.{
  DeviceId, L2Addr, to_bytes, device_id_equal, alloc_bc_device_id, alloc_l2addr,
}
use nrg_5_sorbonne.NsoIf.{NsoIf}
use nrg_5_sorbonne.Table.{active}
use nrg_5_sorbonne.Packet.{
  Packet, alloc_packet, get_byte, put_bytes, put_u16, get_devid, put_devid, htons, with_ver,
  set_len_ver, finish_pkt, start_pkt, nsohdr_size, src_devid_at, dst_devid_at, proto_at,
  nso_proto_cp_vson,
}
use nrg_5_sorbonne.Wifi.{Sent, nso_if_broadcast}
use nrg_5_sorbonne.Fwd.{
  FwdTable, alloc_fwd_entry, fwd_table_add, fwd_table_lookup, fwd_table_del, free_fwd_entry,
}
use nrg_5_sorbonne.Nbr.{
  NbrTable, NbrEntry, alloc_nbr_entry, set_nbr_status, nbr_table_lock, nbr_table_unlock,
  nbr_table_size, nbr_table_add, nbr_table_lookup_unsafe,
}
use nrg_5_sorbonne.Tsd.{touch_arp}
use nrg_5_sorbonne.Nso.State.{
  Env, NsoLayer, DeviceStatus, nrg5_unreg, nrg5_reg, nrg5_connected, is_connected, check_state,
  iface_at, send_pkt_to_vnf, log_frame,
}
use nrg_5_sorbonne.Nso.Forward.{Forwarded, nso_layer_fwd}

-- NSO_SON_MSG_TOPO, NSO_SON_MSG_RT and NSO_SON_MSG_NBR
abbrev pub nso_son_msg_topo : ℕ
nso_son_msg_topo = 0

abbrev pub nso_son_msg_rt : ℕ
nso_son_msg_rt = 1

abbrev pub nso_son_msg_nbr : ℕ
nso_son_msg_nbr = 2

-- RT_ACTION_ADD and RT_ACTION_DEL
abbrev pub rt_action_add : ℕ
rt_action_add = 0

abbrev pub rt_action_del : ℕ
rt_action_del = 1

-- rt_rule_t: 18 bytes.
pub record RtRule : Type 0 where
  pub action : ℕ
  pub dst_id : DeviceId
  pub nh_id : DeviceId
  pub if_index : ℕ

abbrev pub rt_rule_size : ℕ
rt_rule_size = 18

unfoldable pub get_rule : Packet → ℕ → Run RtRule
get_rule pkt at = do
  action ← get_byte pkt at
  dst_id ← get_devid pkt (at + 1)
  nh_id ← get_devid pkt (at + 9)
  if_index ← get_byte pkt (at + 17)
  ok (record { action = action; dst_id = dst_id; nh_id = nh_id; if_index = if_index })

abbrev pub takes_routes : DeviceStatus → Bool
takes_routes nrg5_unreg = false
takes_routes nrg5_reg = true
takes_routes nrg5_connected = true

module _ ⦃K : Kernel⦄ where
  -- The bytes of the neighbours in a report, and the bytes of the interfaces.
  unfoldable pub nbr_report : Heap NbrEntry → List Ptr → Run (List ℕ)
  nbr_report h [] = ok []
  nbr_report h (p ∷ ps) = do
    entry ← load h p
    iface ← non_null entry.iface
    rest ← nbr_report h ps
    ok (to_bytes 8 entry.dev_id ++ ((entry.metric.w % 256) ∷ (iface.if_index % 256) ∷ rest))

  unfoldable pub iface_report : ℕ → ℕ → List ℕ
  iface_report zero ifid = []
  iface_report (suc n) ifid = (ifid % 256) ∷ 0 ∷ iface_report n (suc ifid)

  unfoldable pub get_topo_report_pkt : Env → NsoLayer → Run (Packet × NsoLayer)
  unfolding nbr_report iface_report
  get_topo_report_pkt env nsol = do
    pkt ← non_null (alloc_packet env.block nsol.mtu)
    pkt ← start_pkt nsol.dev_id nsol.gw_id nso_proto_cp_vson pkt
    pkt ← put_bytes nsohdr_size (nso_son_msg_topo ∷ []) pkt
    let at = nsohdr_size + 1
    let ifaces = iface_report nsol.ifaces_nb 0
    pkt ← put_bytes at (nsol.battery ∷ (nsol.ifaces_nb % 256) ∷ ifaces) pkt
    let at = at + 2 + length ifaces
    nbrt ← nbr_table_lock nsol.nbrt
    pkt ← put_u16 at (htons (nbr_table_size nbrt)) pkt
    nbrs ← nbr_report nbrt.table.heap (K.entries nbrt.table.ll_head)
    pkt ← put_bytes (at + 2) nbrs pkt
    let nsol : NsoLayer = record nsol { nbrt = nbr_table_unlock nbrt }
    pkt ← finish_pkt (at + 2 + length nbrs) pkt
    ok (pkt, nsol)

  unfoldable pub son_topo_report : Env → NsoLayer → Run NsoLayer
  unfolding get_topo_report_pkt
  son_topo_report env nsol = do
    (pkt, nsol) ← get_topo_report_pkt env nsol
    send_pkt_to_vnf env nsol.vson_fd pkt nsol

  unfoldable pub get_nbr_adv_pkt : Env → NsoLayer → Run Packet
  get_nbr_adv_pkt env nsol = do
    pkt ← non_null (alloc_packet env.block nsol.mtu)
    pkt ← start_pkt nsol.dev_id alloc_bc_device_id nso_proto_cp_vson pkt
    pkt ← put_bytes nsohdr_size (nso_son_msg_nbr ∷ []) pkt
    finish_pkt (nsohdr_size + 1) pkt

  -- `for (i = 0; i < nsol->ifaces_nb; i++)`: the same packet on each interface in turn.
  unfoldable pub advertise_loop : Env → ℕ → ℕ → Packet → NsoLayer → Run NsoLayer
  advertise_loop env zero i pkt nsol = ok nsol
  advertise_loop env (suc n) i pkt nsol = do
    slot ← iface_at nsol i
    iface ← non_null slot
    sent ← nso_if_broadcast env.accepts iface pkt
    advertise_loop env n (suc i) sent.pkt (log_frame sent.frame nsol)

  unfoldable pub son_nbr_advertise : Env → NsoLayer → Run NsoLayer
  unfolding get_nbr_adv_pkt advertise_loop
  son_nbr_advertise env nsol = do
    pkt ← get_nbr_adv_pkt env nsol
    advertise_loop env nsol.ifaces_nb 0 pkt nsol

  -- `if (fwd_e) { fwd_table_del (…); free_fwd_entry (fwd_e); }`
  unfoldable pub drop_route : Option Ptr → FwdTable → Run FwdTable
  drop_route none tbl = ok tbl
  drop_route (some fwd_e) tbl = free_fwd_entry fwd_e (fwd_table_del tbl fwd_e)

  -- The new entry of an add rule.
  unfoldable pub add_route : DeviceId → DeviceId → Option NsoIf → FwdTable → Run FwdTable
  add_route dst_id nh_id iface tbl = do
    (p, h) ← alloc_fwd_entry dst_id (some nh_id) iface tbl.table.heap
    p ← non_null p
    fwd_table_add (record tbl { table = record tbl.table { heap = h } }) p

  -- What a rule does to the vSON table, with the interface of its index.
  unfoldable pub apply_rule : RtRule → Option NsoIf → FwdTable → Run FwdTable
  unfolding drop_route add_route
  apply_rule rule iface tbl = do
    fwd_e ← fwd_table_lookup tbl rule.dst_id
    if rule.action == rt_action_add
        then (drop_route fwd_e tbl >>= add_route rule.dst_id rule.nh_id iface)
        else (if rule.action == rt_action_del then drop_route fwd_e tbl else ok tbl)

  -- `apply_one` is what a rule does to the table.
  module _ (apply_one : RtRule → Option NsoIf → FwdTable → Run FwdTable) where
    unfoldable pub update_rule : Packet → ℕ → NsoLayer → Run NsoLayer
    unfolding get_rule
    update_rule pkt at nsol = do
      rule ← get_rule pkt at
      iface ← iface_at nsol rule.if_index
      son ← apply_one rule iface nsol.son_fwdt
      ok (record nsol { son_fwdt = son })

    -- `while (size > 0)`, then `assert (size == 0)`. The fuel is `size` itself; a rule that is not
    -- whole is still applied, and leaves `size` negative.
    unfoldable pub update_rules : ℕ → ℕ → Packet → ℕ → NsoLayer → Run NsoLayer
    update_rules zero size pkt at nsol = if size == 0 then ok nsol else crash
    update_rules (suc fuel) size pkt at nsol = elim (size == 0) [
      | true ↦ ok nsol
      | false ↦ (do
        nsol ← update_rule pkt at nsol
        elim (ltb size rt_rule_size) [
          | true ↦ crash
          | false ↦ update_rules fuel (size - rt_rule_size) pkt (at + rt_rule_size) nsol
        ])
    ]

    -- From the size on: a packet shorter than its header and type gives a negative size, and fails
    -- the assertion.
    unfoldable pub read_rules : Packet → NsoLayer → Run NsoLayer
    unfolding update_rules
    read_rules pkt nsol =
        let size = pkt.byte_len - nsohdr_size - 1 in
        if ltb pkt.byte_len (nsohdr_size + 1)
        then crash
        else update_rules size size pkt (nsohdr_size + 1) nsol

  unfoldable pub route_update : Env → NsoLayer → Packet → Run NsoLayer
  unfolding read_rules apply_rule device_id_equal
  route_update env nsol pkt = do
    pkt_dst_id ← get_devid pkt dst_devid_at
    if device_id_equal pkt_dst_id nsol.dev_id
        then (do
          ready ← check_state takes_routes nsol
          if ready then read_rules apply_rule pkt nsol else ok nsol)
        else (do
          connected ← check_state is_connected nsol
          if connected then (nso_layer_fwd env nsol pkt >>= λ f. ok f.nsol) else ok nsol)

  unfoldable pub touch_nbr_at : Option Ptr → DeviceId → Option NsoIf → NbrTable → Run NbrTable
  unfolding nbr_table_unlock set_nbr_status
  touch_nbr_at (some p) dev_id iface tbl = do
    e ← load tbl.table.heap p
    ok (
        nbr_table_unlock (record tbl {
          table = record tbl.table { heap = store p (set_nbr_status active e) tbl.table.heap };
        }))
  touch_nbr_at none dev_id iface tbl =
      let tbl : NbrTable = nbr_table_unlock tbl in
      let (p, h) = alloc_nbr_entry dev_id (record { w = 1 }) iface tbl.table.heap in
      non_null p >>= λ p. nbr_table_add (record tbl { table = record tbl.table { heap = h } }) p

  -- The neighbour becomes active, or a new one is added with metric 1.
  unfoldable pub touch_nbr : DeviceId → Option NsoIf → NbrTable → Run NbrTable
  unfolding nbr_table_lock touch_nbr_at
  touch_nbr dev_id iface tbl = do
    tbl ← nbr_table_lock tbl
    nbr_e ← nbr_table_lookup_unsafe tbl dev_id
    touch_nbr_at nbr_e dev_id iface tbl

  unfoldable pub neighbor_maintain : NsoLayer → Packet → Option L2Addr → Option NsoIf → Run NsoLayer
  unfolding touch_nbr touch_arp
  neighbor_maintain nsol pkt src iface = do
    dev_id ← get_devid pkt src_devid_at
    arpt ← touch_arp dev_id src nsol.arpt
    nbrt ← touch_nbr dev_id iface nsol.nbrt
    ok (record nsol { arpt = arpt; nbrt = nbrt })

  unfoldable pub fwd_topo_report : Env → NsoLayer → Packet → Run NsoLayer
  fwd_topo_report env nsol pkt = do
    connected ← check_state is_connected nsol
    if connected then send_pkt_to_vnf env nsol.vson_fd pkt nsol else ok nsol

  -- The second result is whether the function returned 0.
  unfoldable pub son_process_rx :
      Env → NsoLayer → Packet → Option L2Addr → Option NsoIf → Run (NsoLayer × Bool)
  unfolding route_update neighbor_maintain fwd_topo_report
  son_process_rx env nsol pkt src iface = do
    type ← get_byte pkt nsohdr_size
    if type == nso_son_msg_rt
        then (route_update env nsol pkt >>= λ n. ok (n, true))
        else (if type == nso_son_msg_nbr
            then (neighbor_maintain nsol pkt src iface >>= λ n. ok (n, true))
            else (if type == nso_son_msg_topo
                then (fwd_topo_report env nsol pkt >>= λ n. ok (n, true))
                else ok (nsol, false)))
