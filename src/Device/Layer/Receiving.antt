-- ===== src/Device/Layer/Receiving.antt =====
-- The handlers of nso_son.c and nso.c of nso/src/nso_lib, as parts of a step.
use nrg_5_sorbonne.Base.{ℕ, ◌≡◌, ◌≢◌, refl, true, Option, ◌==◌}
use nrg_5_sorbonne.Kernel.{Kernel}
use nrg_5_sorbonne.Memory.{
  mutex_lock, Ensures, returned, Ensures-bind, Ensures-then, Ensures-mono, Ensures-if,
}
use nrg_5_sorbonne.NsoCommon.{L2Addr, device_id_equal}
use nrg_5_sorbonne.NsoIf.{NsoIf}
use nrg_5_sorbonne.Packet.{
  Packet, packet_clone, get_devid, get_byte, get_u16, htons, nso_proto_cp_vtsd, nso_proto_cp_vson,
}
use nrg_5_sorbonne.Queue.{pq_put_packet}
use nrg_5_sorbonne.Nso.State.{
  Env, NsoLayer, DeviceStatus, nrg5_unreg, nrg5_reg, nrg5_connected, is_connected, check_state,
  unlock_state,
}
use nrg_5_sorbonne.Son.{nso_son_msg_topo, nso_son_msg_rt, nso_son_msg_nbr}
use nrg_5_sorbonne.Tsd.{is_unreg}
use nrg_5_sorbonne.Layer.Routes.{rule-IsRoutes}
use nrg_5_sorbonne.Layer.Rules.{Keeps, read_rules-Safe}
use nrg_5_sorbonne.Layer.Safety.{IsLayer, Safe, Safe-trans, Safe-refl, Safe-same}
use nrg_5_sorbonne.Layer.Forwarding.{fwd_on-Safe}
use nrg_5_sorbonne.Layer.Registration.{taken, lock_state-same}
use nrg_5_sorbonne.Layer.Receiving.{dropped, neighbor_maintain-Safe}
use nrg_5_sorbonne.Layer.Sending.{get_topo_report_pkt-Safe, son_nbr_advertise-Safe}
use nrg_5_sorbonne.Device.Tsd.{fwd_on}
use nrg_5_sorbonne.Device.Son.{
  drop_route, apply_rule, after_routes, accept_routes, route_update, fwd_topo_report,
  son_topo_report, son_process_rx,
}
use nrg_5_sorbonne.Device.Data.{enqueue, data_process_rx, rx_round, tx_register, tx_report}
use nrg_5_sorbonne.Device.Routes.{drop_route-Replaced}
use nrg_5_sorbonne.Device.Layer.Registration.{tsd_process_rx-Safe, tsd_broadcast_beacons-Safe}

after_routes-same : (s : DeviceStatus) → s ≢ nrg5_reg → after_routes s ≡ s
after_routes-same nrg5_unreg h = refl
after_routes-same nrg5_reg h = absurd (h refl)
after_routes-same nrg5_connected h = refl

module _ ⦃K : Kernel⦄ where
  apply_rule-Keeps : Keeps apply_rule
  unfolding apply_rule
  apply_rule-Keeps rule iface t w = rule-IsRoutes drop_route drop_route-Replaced rule iface t w

  accept_routes-Safe :
      (n : NsoLayer) → IsLayer n → n.dev_state ≢ nrg5_reg → Ensures (Safe n) (accept_routes n)
  unfolding accept_routes unlock_state
  accept_routes-Safe n w known = Ensures-then (lock_state-same n) λ m e. rw e (
      returned (
        Safe-same n _ w w.arp w.son w.local w.nbr refl (after_routes-same n.dev_state known) refl
          refl refl))

  route_update-Safe :
      (env : Env) (n : NsoLayer) (pkt : Packet)
      → IsLayer n
      → n.dev_state ≢ nrg5_reg
      → Ensures (Safe n) (route_update env n pkt)
  unfolding route_update fwd_on
  route_update-Safe env n pkt w known = Ensures-bind (get_devid pkt 8) _ λ dst _.
      Ensures-if (device_id_equal dst n.dev_id)
        (Ensures-then (accept_routes-Safe n w known) λ m s.
          Ensures-if (is_connected m.dev_state)
            (Ensures-mono (read_rules-Safe apply_rule apply_rule-Keeps pkt m s.layer)
              λ q t. Safe-trans s t)
            (returned s))
        (Ensures-bind (check_state is_connected n) _
          λ c _. Ensures-if c (fwd_on-Safe env n pkt w) (returned (Safe-refl n w)))

  fwd_topo_report-Safe :
      (env : Env) (n : NsoLayer) (pkt : Packet)
      → IsLayer n
      → Ensures (Safe n) (fwd_topo_report env n pkt)
  unfolding fwd_topo_report fwd_on
  fwd_topo_report-Safe env n pkt w =
      Ensures-bind (check_state is_connected n) _
        λ c _. Ensures-if c (fwd_on-Safe env n pkt w) (returned (Safe-refl n w))

  son_process_rx-Safe :
      (env : Env) (n : NsoLayer) (pkt : Packet) (src : Option L2Addr) (iface : Option NsoIf)
      → IsLayer n
      → n.dev_state ≢ nrg5_reg
      → Ensures (λ r. Safe n r.0) (son_process_rx env n pkt src iface)
  unfolding son_process_rx
  son_process_rx-Safe env n pkt src iface w known = Ensures-bind (get_byte pkt 20) _ λ type _.
      Ensures-if (type == nso_son_msg_rt) (taken true (route_update-Safe env n pkt w known)) (
        Ensures-if (type == nso_son_msg_nbr) (taken true (neighbor_maintain-Safe n pkt src iface w))
          (Ensures-if (type == nso_son_msg_topo) (taken true (fwd_topo_report-Safe env n pkt w))
            (returned (Safe-refl n w))))

  data_process_rx-Safe :
      (env : Env) (n : NsoLayer) (pkt : Packet)
      → IsLayer n
      → Ensures (Safe n) (data_process_rx env n pkt)
  unfolding data_process_rx enqueue fwd_on
  data_process_rx-Safe env n pkt w = Ensures-bind (check_state is_connected n) _ λ c _.
      Ensures-if c
        (Ensures-bind (get_devid pkt 8) _ λ dst _.
          Ensures-if (device_id_equal dst n.dev_id)
            (Ensures-bind (mutex_lock n.data_lock) _ λ held _.
              Ensures-bind (packet_clone env.block pkt) _ λ copy _.
                Ensures-bind (pq_put_packet n.data_pq copy) _ λ pq _.
                  returned (Safe-same n _ w w.arp w.son w.local w.nbr refl refl refl refl refl))
            (fwd_on-Safe env n pkt w))
        (returned (Safe-refl n w))

  pub rx_round-Safe :
      (env : Env) (n : NsoLayer) (pkt : Packet) (src : Option L2Addr) (iface : Option NsoIf)
      → IsLayer n
      → n.dev_state ≢ nrg5_reg
      → Ensures (Safe n) (rx_round env n pkt src iface)
  unfolding rx_round
  rx_round-Safe env n pkt src iface w known = Ensures-bind (get_u16 pkt 16) _ λ proto _.
      Ensures-if (htons proto == nso_proto_cp_vtsd)
        (dropped (tsd_process_rx-Safe env n pkt src iface w))
        (Ensures-if (htons proto == nso_proto_cp_vson)
          (dropped (son_process_rx-Safe env n pkt src iface w known))
          (data_process_rx-Safe env n pkt w))

  pub tx_register-Safe :
      (env : Env) (n : NsoLayer) (i : ℕ)
      → IsLayer n
      → Ensures (λ r. Safe n r.1) (tx_register env n i)
  unfolding tx_register
  tx_register-Safe env n i w = Ensures-bind (check_state is_unreg n) _ λ unreg _.
      Ensures-if unreg (Ensures-then (tsd_broadcast_beacons-Safe env n i w) λ r s. returned s)
        (returned (Safe-refl n w))

  pub son_topo_report-Safe :
      (env : Env) (n : NsoLayer) → IsLayer n → Ensures (Safe n) (son_topo_report env n)
  unfolding son_topo_report fwd_on
  son_topo_report-Safe env n w =
      Ensures-then (get_topo_report_pkt-Safe env n w)
        λ r s. Ensures-mono (fwd_on-Safe env r.1 r.0 s.layer) λ m t. Safe-trans s t

  pub tx_report-Safe :
      (env : Env) (n : NsoLayer) → IsLayer n → Ensures (λ r. Safe n r.1) (tx_report env n)
  unfolding tx_report
  tx_report-Safe env n w = Ensures-bind (check_state is_connected n) _ λ c _.
      Ensures-if c
        (Ensures-then (son_topo_report-Safe env n w) λ m s.
          Ensures-then (son_nbr_advertise-Safe env m s.layer) λ q t. returned (Safe-trans s t))
        (returned (Safe-refl n w))
