-- ===== src/Layer/Receiving.antt =====
-- The handlers of nso_son.c and nso.c of bs/src/bs_lib for packets from the air and from a network
-- function, as parts of a step.
use nrg_5_sorbonne.Base.{ℕ, refl, Bool, true, Option, none, List, ◌==◌}
use nrg_5_sorbonne.Kernel.{Kernel}
use nrg_5_sorbonne.Memory.{
  Run, ok, ◌>>=◌, non_null, load, Ensures, returned, Ensures-bind, Ensures-then, Ensures-if,
}
use nrg_5_sorbonne.NsoCommon.{L2Addr, device_id_equal}
use nrg_5_sorbonne.NsoIf.{NsoIf}
use nrg_5_sorbonne.Packet.{
  Packet, get_devid, get_byte, get_u16, htons, nso_proto_cp_vtsd, nso_proto_cp_vson,
}
use nrg_5_sorbonne.Bspc.{bspc_table_lookup}
use nrg_5_sorbonne.Nso.State.{Env, NsoLayer, is_connected, check_state}
use nrg_5_sorbonne.Son.{
  nso_son_msg_topo, nso_son_msg_rt, nso_son_msg_nbr, takes_routes, apply_rule, route_update,
  neighbor_maintain, fwd_topo_report, son_process_rx,
}
use nrg_5_sorbonne.Nso.Data.{
  data_process_rx, rx_round, vnf_process_rx, vnf_rx_round, read_pkt_from_vnf,
}
use nrg_5_sorbonne.Layer.Tables.{touch_arp-IsArpTable, touch_nbr-IsNbrTable}
use nrg_5_sorbonne.Layer.Routes.{apply_rule-IsRoutes}
use nrg_5_sorbonne.Layer.Rules.{read_rules-Safe}
use nrg_5_sorbonne.Layer.Safety.{IsLayer, Safe, Safe-refl, Safe-same}
use nrg_5_sorbonne.Layer.Forwarding.{fwd_on-Safe, send_pkt_to_vnf-Safe}
use nrg_5_sorbonne.Layer.Registration.{taken, tsd_process_rx-Safe}

module _ ⦃K : Kernel⦄ where
  pub dropped :
      {n : NsoLayer} {r : Run (NsoLayer × Bool)}
      → Ensures (λ q. Safe n q.0) r
      → Ensures (Safe n) (r >>= λ q. ok q.0)
  dropped h = Ensures-then h λ q s. returned s

  route_update-Safe :
      (env : Env) (n : NsoLayer) (pkt : Packet)
      → IsLayer n
      → Ensures (Safe n) (route_update env n pkt)
  unfolding route_update
  route_update-Safe env n pkt w = Ensures-bind (get_devid pkt 8) _ λ dst _.
      Ensures-if (device_id_equal dst n.dev_id)
        (Ensures-bind (check_state takes_routes n) _ λ ready _.
          Ensures-if ready (read_rules-Safe apply_rule apply_rule-IsRoutes pkt n w)
            (returned (Safe-refl n w)))
        (Ensures-bind (check_state is_connected n) _
          λ c _. Ensures-if c (fwd_on-Safe env n pkt w) (returned (Safe-refl n w)))

  pub neighbor_maintain-Safe :
      (n : NsoLayer) (pkt : Packet) (src : Option L2Addr) (iface : Option NsoIf)
      → IsLayer n
      → Ensures (Safe n) (neighbor_maintain n pkt src iface)
  unfolding neighbor_maintain
  neighbor_maintain-Safe n pkt src iface w = Ensures-bind (get_devid pkt 0) _ λ id _.
      Ensures-then (touch_arp-IsArpTable id src n.arpt w.arp) λ a wa.
        Ensures-then (touch_nbr-IsNbrTable id iface n.nbrt w.nbr)
          λ b wb. returned (Safe-same n _ w wa w.son w.local wb refl refl refl refl refl)

  fwd_topo_report-Safe :
      (env : Env) (n : NsoLayer) (pkt : Packet)
      → IsLayer n
      → Ensures (Safe n) (fwd_topo_report env n pkt)
  unfolding fwd_topo_report
  fwd_topo_report-Safe env n pkt w =
      Ensures-bind (check_state is_connected n) _
        λ c _. Ensures-if c (send_pkt_to_vnf-Safe env n.vson_fd pkt n w) (returned (Safe-refl n w))

  son_process_rx-Safe :
      (env : Env) (n : NsoLayer) (pkt : Packet) (src : Option L2Addr) (iface : Option NsoIf)
      → IsLayer n
      → Ensures (λ r. Safe n r.0) (son_process_rx env n pkt src iface)
  unfolding son_process_rx
  son_process_rx-Safe env n pkt src iface w = Ensures-bind (get_byte pkt 20) _ λ type _.
      Ensures-if (type == nso_son_msg_rt) (taken true (route_update-Safe env n pkt w)) (
        Ensures-if (type == nso_son_msg_nbr) (taken true (neighbor_maintain-Safe n pkt src iface w))
          (Ensures-if (type == nso_son_msg_topo) (taken true (fwd_topo_report-Safe env n pkt w))
            (returned (Safe-refl n w))))

  data_process_rx-Safe :
      (env : Env) (n : NsoLayer) (pkt : Packet)
      → IsLayer n
      → Ensures (Safe n) (data_process_rx env n pkt)
  unfolding data_process_rx
  data_process_rx-Safe env n pkt w = Ensures-bind (check_state is_connected n) _ λ c _.
      Ensures-if c
        (Ensures-bind (get_devid pkt 8) _ λ dst _.
          Ensures-if (device_id_equal dst n.dev_id)
            (Ensures-bind (get_u16 pkt 16) _ λ proto _.
              Ensures-bind (bspc_table_lookup n.bspc_tbl (htons proto)) _ λ o _.
                Ensures-bind (non_null o) _ λ p _.
                  Ensures-bind (load n.bspc_tbl.heap p) _
                    λ e _. send_pkt_to_vnf-Safe env e.sockfd pkt n w)
            (fwd_on-Safe env n pkt w))
        (returned (Safe-refl n w))

  pub rx_round-Safe :
      (env : Env) (n : NsoLayer) (pkt : Packet) (src : Option L2Addr) (iface : Option NsoIf)
      → IsLayer n
      → Ensures (Safe n) (rx_round env n pkt src iface)
  unfolding rx_round
  rx_round-Safe env n pkt src iface w = Ensures-bind (get_u16 pkt 16) _ λ proto _.
      Ensures-if (htons proto == nso_proto_cp_vtsd)
        (dropped (tsd_process_rx-Safe env n pkt src iface w))
        (Ensures-if (htons proto == nso_proto_cp_vson)
          (dropped (son_process_rx-Safe env n pkt src iface w)) (data_process_rx-Safe env n pkt w))

  vnf_process_rx-Safe :
      (env : Env) (n : NsoLayer) (pkt : Packet)
      → IsLayer n
      → Ensures (Safe n) (vnf_process_rx env n pkt)
  unfolding vnf_process_rx
  vnf_process_rx-Safe env n pkt w = Ensures-bind (get_devid pkt 8) _ λ dst _.
      Ensures-if (device_id_equal dst n.dev_id)
        (Ensures-bind (get_u16 pkt 16) _ λ proto _.
          Ensures-if (htons proto == nso_proto_cp_vtsd)
            (dropped (tsd_process_rx-Safe env n pkt none none w))
            (Ensures-if (htons proto == nso_proto_cp_vson)
              (dropped (son_process_rx-Safe env n pkt none none w)) (returned (Safe-refl n w))))
        (fwd_on-Safe env n pkt w)

  pub vnf_rx_round-Safe :
      (env : Env) (n : NsoLayer) (stream : List ℕ)
      → IsLayer n
      → Ensures (λ r. Safe n r.0) (vnf_rx_round env n stream)
  unfolding vnf_rx_round
  vnf_rx_round-Safe env n stream w =
      Ensures-bind (read_pkt_from_vnf env n.mtu stream) _
        λ q _. Ensures-then (vnf_process_rx-Safe env n q.0 w) λ m s. returned s
