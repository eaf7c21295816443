-- ===== src/Layer/Sending.antt =====
-- The rounds of the sending thread and the calls of the upper layer of bs/src/bs_lib, as parts of a
-- step.
use nrg_5_sorbonne.Base.{
  ℕ, zero, suc, ◌+◌, ◌≡◌, refl, true, false, Bool-cases, inl, inr, Option, none, some, List, [],
  ◌∷◌, ◌==◌, ◌%◌, length,
}
use nrg_5_sorbonne.Kernel.{Kernel}
use nrg_5_sorbonne.Memory.{
  non_null, mutex_lock, Ensures, returned, crashes, waits, Ensures-bind, Ensures-then, Ensures-mono,
  Ensures-if,
}
use nrg_5_sorbonne.NsoCommon.{DeviceId, to_bytes}
use nrg_5_sorbonne.Packet.{
  Packet, alloc_packet, start_pkt, finish_pkt, put_devid, get_devid, put_bytes, put_u16, htons,
  set_len_ver, with_ver, nso_proto_cp_vtsd, nso_proto_cp_vson,
}
use nrg_5_sorbonne.Wifi.{nso_if_broadcast}
use nrg_5_sorbonne.Nbr.{NbrTable, nbr_table_lock, nbr_table_unlock, nbr_table_size}
use nrg_5_sorbonne.Queue.{pq_empty, pq_get_packet}
use nrg_5_sorbonne.Nso.State.{Env, NsoLayer, is_connected, check_state, iface_at, log_frame}
use nrg_5_sorbonne.Nso.Data.{make_data_pkt, deliver, nso_layer_send, nso_layer_recv}
use nrg_5_sorbonne.Nso.Threads.{tx_register, tx_report}
use nrg_5_sorbonne.Tsd.{
  nso_tsd_msg_bs_reg, is_unreg, aaa_get_credentials, cred_bytes, get_bs_reg_pkt, tsd_bs_reg,
}
use nrg_5_sorbonne.Son.{
  nso_son_msg_topo, nbr_report, iface_report, get_topo_report_pkt, son_topo_report, get_nbr_adv_pkt,
  advertise_loop, son_nbr_advertise,
}
use nrg_5_sorbonne.Layer.Safety.{
  IsLayer, Safe, Safe-trans, Safe-refl, Safe-same, Safe-nbrt, Safe-log,
}
use nrg_5_sorbonne.Layer.Forwarding.{nso_layer_fwd-Safe, send_pkt_to_vnf-Safe}

module _ ⦃K : Kernel⦄ where
  pub aaa_get_credentials-Safe :
      (env : Env) (bytes : List ℕ) (n : NsoLayer)
      → IsLayer n
      → Ensures (Safe n) (aaa_get_credentials env bytes n)
  unfolding aaa_get_credentials
  aaa_get_credentials-Safe env bytes n w =
      Ensures-if _ crashes
        (returned (Safe-same n _ w w.arp w.son w.local w.nbr refl refl refl refl refl))

  get_bs_reg_pkt-Safe :
      (env : Env) (n : NsoLayer) → IsLayer n → Ensures (λ r. Safe n r.1) (get_bs_reg_pkt env n)
  unfolding get_bs_reg_pkt
  get_bs_reg_pkt-Safe env n w = Ensures-bind (non_null (alloc_packet env.block n.mtu)) _ λ p0 _.
      Ensures-bind (put_devid 0 n.dev_id p0) _ λ p1 _. Ensures-bind (get_devid p1 0) _ λ src _.
        Ensures-bind (put_devid 8 src p1) _ λ p2 _.
          Ensures-bind (put_u16 16 (htons nso_proto_cp_vtsd) p2) _ λ p3 _.
            Ensures-bind (set_len_ver (with_ver 0) p3) _ λ p4 _.
              Ensures-bind (put_bytes 20 (nso_tsd_msg_bs_reg ∷ []) p4) _ λ p5 _.
                Ensures-then
                  (Ensures-if (n.aaa_cred_size == 0)
                    (aaa_get_credentials-Safe env (to_bytes 8 src) n w) (returned (Safe-refl n w)))
                  λ m s. Ensures-bind (cred_bytes m) _ λ cs _.
                    Ensures-bind (put_bytes 21 cs p5) _ λ p6 _.
                      Ensures-bind (finish_pkt (m.aaa_cred_size + 20 + 1) p6) _ λ p7 _. returned s

  advertise_loop-Safe :
      (env : Env) (k i : ℕ) (pkt : Packet) (n : NsoLayer)
      → IsLayer n
      → Ensures (Safe n) (advertise_loop env k i pkt n)
  unfolding advertise_loop
  advertise_loop-Safe env zero i pkt n w = returned (Safe-refl n w)
  advertise_loop-Safe env (suc k) i pkt n w = Ensures-bind (iface_at n i) _ λ slot _.
      Ensures-bind (non_null slot) _ λ iface _.
        Ensures-bind (nso_if_broadcast env.accepts iface pkt) _ λ sent _.
          let s = Safe-log n w sent.frame in
          Ensures-mono (advertise_loop-Safe env k (suc i) sent.pkt (log_frame sent.frame n) s.layer)
            λ m t. Safe-trans s t

  nbr_table_lock-same :
      (t : NbrTable) → Ensures (λ t'. t' ≡ record t { nbrt_lock = true }) (nbr_table_lock t)
  unfolding nbr_table_lock
  nbr_table_lock-same t = elim (Bool-cases t.nbrt_lock) [
    | inl held ↦ rw held waits
    | inr free ↦ rw free (returned refl)
  ]

  pub get_topo_report_pkt-Safe :
      (env : Env) (n : NsoLayer) → IsLayer n → Ensures (λ r. Safe n r.1) (get_topo_report_pkt env n)
  unfolding get_topo_report_pkt nbr_table_unlock nbr_table_size
  get_topo_report_pkt-Safe env n w =
      let ifaces = iface_report n.ifaces_nb 0 in
      Ensures-bind (non_null (alloc_packet env.block n.mtu)) _ λ p0 _.
        Ensures-bind (start_pkt n.dev_id n.gw_id nso_proto_cp_vson p0) _ λ p1 _.
          Ensures-bind (put_bytes 20 (nso_son_msg_topo ∷ []) p1) _ λ p2 _.
            Ensures-bind (put_bytes 21 (n.battery ∷ (n.ifaces_nb % 256) ∷ ifaces) p2) _ λ p3 _.
              Ensures-then (nbr_table_lock-same n.nbrt) λ t e. rw e (
                Ensures-bind (put_u16 (21 + 2 + length ifaces) (htons (nbr_table_size n.nbrt)) p3) _
                  λ p4 _.
                    Ensures-bind (nbr_report n.nbrt.table.heap (K.entries n.nbrt.table.ll_head)) _
                      λ nbrs _.
                        Ensures-bind (put_bytes (21 + 2 + length ifaces + 2) nbrs p4) _ λ p5 _.
                          Ensures-bind (finish_pkt (21 + 2 + length ifaces + 2 + length nbrs) p5) _
                            λ p6 _.
                              returned (Safe-nbrt n w (record n.nbrt { nbrt_lock = false }) w.nbr))

  pub son_nbr_advertise-Safe :
      (env : Env) (n : NsoLayer) → IsLayer n → Ensures (Safe n) (son_nbr_advertise env n)
  unfolding son_nbr_advertise
  son_nbr_advertise-Safe env n w =
      Ensures-bind (get_nbr_adv_pkt env n) _ λ pkt _. advertise_loop-Safe env n.ifaces_nb 0 pkt n w

  pub tx_register-Safe :
      (env : Env) (n : NsoLayer) → IsLayer n → Ensures (λ r. Safe n r.1) (tx_register env n)
  unfolding tx_register tsd_bs_reg
  tx_register-Safe env n w = Ensures-bind (check_state is_unreg n) _ λ unreg _.
      Ensures-if unreg
        (Ensures-then
          (Ensures-then (get_bs_reg_pkt-Safe env n w) λ r s.
            Ensures-mono (send_pkt_to_vnf-Safe env r.1.vtsd_fd r.0 r.1 s.layer)
              λ m t. Safe-trans s t)
          λ m s. returned s)
        (returned (Safe-refl n w))

  pub tx_report-Safe :
      (env : Env) (n : NsoLayer) → IsLayer n → Ensures (λ r. Safe n r.1) (tx_report env n)
  unfolding tx_report son_topo_report
  tx_report-Safe env n w = Ensures-bind (check_state is_connected n) _ λ c _.
      Ensures-if c
        (Ensures-then
          (Ensures-then (get_topo_report_pkt-Safe env n w) λ r s.
            Ensures-mono (send_pkt_to_vnf-Safe env r.1.vson_fd r.0 r.1 s.layer)
              λ m t. Safe-trans s t)
          λ m s.
            Ensures-then (son_nbr_advertise-Safe env m s.layer) λ q t. returned (Safe-trans s t))
        (returned (Safe-refl n w))

  pub nso_layer_send-Safe :
      (env : Env) (n : NsoLayer) (buf : List ℕ) (dst : Option DeviceId) (proto : ℕ)
      → IsLayer n
      → Ensures (λ r. Safe n r.1) (nso_layer_send env n buf dst proto)
  unfolding nso_layer_send
  nso_layer_send-Safe env n buf dst proto w = Ensures-bind (check_state is_connected n) _ λ c _.
      Ensures-if c
        (Ensures-bind (make_data_pkt env n buf (elim dst [ none ↦ n.gw_id | some d ↦ d ]) proto) _
          λ pkt _. Ensures-then (nso_layer_fwd-Safe env n pkt w) λ f s. returned s)
        waits

  pub nso_layer_recv-Safe :
      (n : NsoLayer) (size : ℕ) → IsLayer n → Ensures (λ r. Safe n r.1) (nso_layer_recv n size)
  unfolding nso_layer_recv
  nso_layer_recv-Safe n size w = Ensures-bind (check_state is_connected n) _ λ c _.
      Ensures-if c
        (Ensures-bind (mutex_lock n.data_lock) _ λ held _. Ensures-if (pq_empty n.data_pq) waits (
          Ensures-bind (pq_get_packet n.data_pq) _ λ r _. Ensures-bind (non_null r.0) _ λ pkt _.
            Ensures-bind (deliver size pkt) _
              λ d _. returned (Safe-same n _ w w.arp w.son w.local w.nbr refl refl refl refl refl)))
        waits
