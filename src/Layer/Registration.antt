-- ===== src/Layer/Registration.antt =====
-- The handlers of bs/src/bs_lib/nso_tsd.c, as parts of a step.
use nrg_5_sorbonne.Base.{
  ◌≡◌, refl, Bool, true, false, Bool-cases, inl, inr, Option, none, some, ◌&&◌, ◌==◌,
}
use nrg_5_sorbonne.Kernel.{Kernel}
use nrg_5_sorbonne.Memory.{
  Run, ok, ◌>>=◌, non_null, Ensures, returned, waits, Ensures-bind, Ensures-then, Ensures-mono,
  Ensures-if,
}
use nrg_5_sorbonne.NsoCommon.{L2Addr, device_id_equal, is_broadcast_dev_id}
use nrg_5_sorbonne.NsoIf.{NsoIf}
use nrg_5_sorbonne.Packet.{Packet, get_devid, get_byte, put_devid}
use nrg_5_sorbonne.Nso.State.{
  Env, NsoLayer, DeviceStatus, nrg5_unreg, nrg5_reg, nrg5_connected, is_connected, check_state,
  lock_state, unlock_state,
}
use nrg_5_sorbonne.Tsd.{
  nso_tsd_msg_reg, nso_tsd_msg_bs_reg_reply, is_unreg, learn_sender, fwd_beacon,
  process_bs_reg_reply, tsd_process_rx,
}
use nrg_5_sorbonne.Layer.Tables.{touch_arp-IsArpTable, touch_fwd-IsFwdTable, sender_of-same}
use nrg_5_sorbonne.Tsd.Beacon.{relock}
use nrg_5_sorbonne.Layer.Safety.{IsLayer, Safe, joins, Safe-trans, Safe-refl, Safe-same}
use nrg_5_sorbonne.Layer.Forwarding.{send_pkt_to_vnf-Safe}

pub is_unreg-eq : (s : DeviceStatus) (b : Bool) → (is_unreg s && b) ≡ true → s ≡ nrg5_unreg
is_unreg-eq nrg5_unreg b h = refl
is_unreg-eq nrg5_reg b h = cc
is_unreg-eq nrg5_connected b h = cc

module _ ⦃K : Kernel⦄ where
  -- The first result of a handler that says whether it took the packet.
  pub taken :
      {n : NsoLayer} {r : Run NsoLayer} (b : Bool)
      → Ensures (Safe n) r
      → Ensures {A = NsoLayer × Bool} (λ q. Safe n q.0) (r >>= λ m. ok (m, b))
  taken b h = Ensures-then h λ m s. returned s

  pub learn_sender-Safe :
      (n : NsoLayer) (pkt : Packet) (src : Option L2Addr) (iface : Option NsoIf)
      → IsLayer n
      → Ensures (λ r. Safe n r.1) (learn_sender n pkt src iface)
  unfolding learn_sender
  learn_sender-Safe n pkt src iface w = Ensures-bind (get_devid pkt 8) _ λ dst _.
      Ensures-if (is_broadcast_dev_id dst)
        (Ensures-bind (put_devid 8 n.gw_id pkt) _ λ p _. Ensures-bind (get_devid p 0) _ λ id _.
          Ensures-bind (non_null src) _ λ mac _.
            Ensures-then (touch_arp-IsArpTable id (some mac) n.arpt w.arp) λ a wa.
              Ensures-then (touch_fwd-IsFwdTable id none iface n.local_fwdt w.local)
                λ l wl. returned (Safe-same n _ w wa w.son wl w.nbr refl refl refl refl refl))
        (Ensures-bind (non_null src) _ λ mac _. Ensures-then (sender_of-same mac n.arpt) λ q same.
          Ensures-bind (get_devid pkt 0) _ λ id _.
            Ensures-then (touch_fwd-IsFwdTable id (some q.0) iface n.local_fwdt w.local) λ l wl.
              returned (
                Safe-same n _ w (rw same (relock false w.arp)) w.son wl w.nbr refl refl refl refl
                  refl))

  fwd_beacon-Safe :
      (env : Env) (n : NsoLayer) (pkt : Packet) (src : Option L2Addr) (iface : Option NsoIf)
      → IsLayer n
      → Ensures (Safe n) (fwd_beacon env n pkt src iface)
  unfolding fwd_beacon
  fwd_beacon-Safe env n pkt src iface w = Ensures-bind (check_state is_connected n) _ λ c _.
      Ensures-if c
        (Ensures-then (learn_sender-Safe n pkt src iface w) λ r s.
          Ensures-mono (send_pkt_to_vnf-Safe env r.1.vtsd_fd r.0 r.1 s.layer) λ m t. Safe-trans s t)
        (returned (Safe-refl n w))

  pub lock_state-same :
      (n : NsoLayer) → Ensures (λ m. m ≡ record n { state_lock = true }) (lock_state n)
  unfolding lock_state
  lock_state-same n = elim (Bool-cases n.state_lock) [
    | inl held ↦ rw held waits
    | inr free ↦ rw free (returned refl)
  ]

  process_bs_reg_reply-Safe :
      (n : NsoLayer) (pkt : Packet) → IsLayer n → Ensures (Safe n) (process_bs_reg_reply n pkt)
  unfolding process_bs_reg_reply unlock_state
  process_bs_reg_reply-Safe n pkt w = Ensures-bind (get_devid pkt 8) _ λ dst _.
      Ensures-if (device_id_equal dst n.dev_id)
        (Ensures-then (lock_state-same n) λ m e. rw e (
          Ensures-bind (get_byte pkt 21) _ λ ans _.
            elim (Bool-cases (is_unreg n.dev_state && (ans == 0))) [
              | inl ready ↦ rw ready (
                  Ensures-bind (get_devid pkt 0) _ λ gw _. returned (record {
                    layer = record {
                      arp = w.arp;
                      son = w.son;
                      local = w.local;
                      nbr = w.nbr;
                      bspc = w.bspc;
                    };
                    status = joins (is_unreg-eq n.dev_state (ans == 0) ready) refl;
                    dev_id = refl;
                    mtu = refl;
                  }))
              | inr unready ↦
                  rw unready
                    (returned (Safe-same n _ w w.arp w.son w.local w.nbr refl refl refl refl refl))
            ]))
        (returned (Safe-refl n w))

  pub tsd_process_rx-Safe :
      (env : Env) (n : NsoLayer) (pkt : Packet) (src : Option L2Addr) (iface : Option NsoIf)
      → IsLayer n
      → Ensures (λ r. Safe n r.0) (tsd_process_rx env n pkt src iface)
  unfolding tsd_process_rx
  tsd_process_rx-Safe env n pkt src iface w = Ensures-bind (get_byte pkt 20) _ λ type _.
      Ensures-if (type == nso_tsd_msg_reg) (taken true (fwd_beacon-Safe env n pkt src iface w)) (
        Ensures-if (type == nso_tsd_msg_bs_reg_reply)
          (taken true (process_bs_reg_reply-Safe n pkt w)) (returned (Safe-refl n w)))
