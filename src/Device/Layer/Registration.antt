-- ===== src/Device/Layer/Registration.antt =====
-- The handlers of nso/src/nso_lib/nso_tsd.c, as parts of a step.
use nrg_5_sorbonne.Base.{
  ℕ, ◌+◌, ◌≡◌, refl, Bool, true, false, Bool-cases, inl, inr, Option, none, some, [], ◌∷◌, ◌&&◌,
  ◌==◌, arith,
}
use nrg_5_sorbonne.Kernel.{Kernel}
use nrg_5_sorbonne.Memory.{
  non_null, Ensures, returned, crashes, Ensures-bind, Ensures-then, Ensures-mono, Ensures-if,
  Returns-Ensures,
}
use nrg_5_sorbonne.Memory.Laws.{malloc-some, malloc-none}
use nrg_5_sorbonne.NsoCommon.{DeviceId, L2Addr, device_id_equal, to_bytes, alloc_bc_device_id}
use nrg_5_sorbonne.NsoIf.{NsoIf}
use nrg_5_sorbonne.Packet.{
  Packet, alloc_packet, start_pkt, finish_pkt, get_devid, get_byte, put_bytes, nso_proto_cp_vtsd,
}
use nrg_5_sorbonne.Wifi.{nso_if_broadcast}
use nrg_5_sorbonne.Table.{active}
use nrg_5_sorbonne.Fwd.{FwdEntry, alloc_fwd_entry}
use nrg_5_sorbonne.Fwd.New.{add_new-AddedNew}
use nrg_5_sorbonne.Nso.State.{Env, NsoLayer, is_connected, check_state, unlock_state, iface_at}
use nrg_5_sorbonne.Tsd.{is_unreg, nso_tsd_msg_reg, cred_bytes}
use nrg_5_sorbonne.Tsd.Beacon.{relock}
use nrg_5_sorbonne.Layer.Tables.{sender_of-same}
use nrg_5_sorbonne.Layer.Safety.{IsLayer, Safe, joins, Safe-trans, Safe-refl, Safe-same, Safe-log}
use nrg_5_sorbonne.Layer.Forwarding.{fwd_on-Safe}
use nrg_5_sorbonne.Layer.Registration.{is_unreg-eq, taken, learn_sender-Safe, lock_state-same}
use nrg_5_sorbonne.Layer.Sending.{aaa_get_credentials-Safe}
use nrg_5_sorbonne.Device.Tsd.{
  nso_tsd_msg_reg_reply, fwd_on, get_nso_beacon, next_if, tsd_broadcast_beacons, fwd_beacon,
  add_gw_route, process_reg_reply, tsd_process_rx,
}

module _ ⦃K : Kernel⦄ where
  fwd_beacon-Safe :
      (env : Env) (n : NsoLayer) (pkt : Packet) (src : Option L2Addr) (iface : Option NsoIf)
      → IsLayer n
      → Ensures (Safe n) (fwd_beacon env n pkt src iface)
  unfolding fwd_beacon fwd_on
  fwd_beacon-Safe env n pkt src iface w = Ensures-bind (check_state is_connected n) _ λ c _.
      Ensures-if c
        (Ensures-then (learn_sender-Safe n pkt src iface w)
          λ r s. Ensures-mono (fwd_on-Safe env r.1 r.0 s.layer) λ m t. Safe-trans s t)
        (returned (Safe-refl n w))

  relayer : (n : NsoLayer) (b : Bool) → IsLayer n → IsLayer (record n { state_lock = b })
  relayer n b w = record { arp = w.arp; son = w.son; local = w.local; nbr = w.nbr; bspc = w.bspc }

  -- The tables stay well formed, and the registration, the id and the MTU are as before.
  add_gw_route-Safe :
      (gw : DeviceId) (src : Option L2Addr) (iface : Option NsoIf) (n : NsoLayer)
      → IsLayer n
      → Ensures
          (λ m. IsLayer m × (m.dev_state ≡ n.dev_state) × (m.dev_id ≡ n.dev_id) × (m.mtu ≡ n.mtu))
          (add_gw_route gw src iface n)
  unfolding add_gw_route alloc_fwd_entry
  add_gw_route-Safe gw src none n w =
      Ensures-bind (non_null src) _
        λ mac _. Ensures-then (sender_of-same mac n.arpt) λ q same. crashes
  add_gw_route-Safe gw src (some i) n w = Ensures-bind (non_null src) _ λ mac _.
      Ensures-then (sender_of-same mac n.arpt) λ q same.
        let l = n.local_fwdt in
        let e : FwdEntry = record { dest = gw; nxthop = q.0; interface = i; status = active } in
        elim (Bool-cases (l.table.heap.room == 0)) [
          | inl full ↦ rw (malloc-none l.table.heap e (ground arith)) crashes
          | inr room ↦ rw (malloc-some l.table.heap e (ground arith)) (
              Ensures-then (Returns-Ensures (add_new-AddedNew l e l.fwdt_lock w.local)) λ l' a.
                returned (
                  record {
                    arp = rw same (relock false w.arp);
                    son = w.son;
                    local = a.valid;
                    nbr = w.nbr;
                    bspc = w.bspc;
                  },
                  refl,
                  refl,
                  refl,
                ))
        ]

  process_reg_reply-Safe :
      (env : Env) (n : NsoLayer) (pkt : Packet) (src : Option L2Addr) (iface : Option NsoIf)
      → IsLayer n
      → Ensures (Safe n) (process_reg_reply env n pkt src iface)
  unfolding process_reg_reply unlock_state fwd_on
  process_reg_reply-Safe env n pkt src iface w = Ensures-bind (get_devid pkt 8) _ λ dst _.
      Ensures-if (device_id_equal dst n.dev_id)
        (Ensures-then (lock_state-same n) λ m e. rw e (
          Ensures-bind (get_byte pkt 21) _ λ ans _.
            elim (Bool-cases (is_unreg n.dev_state && (ans == 0))) [
              | inl ready ↦ rw ready (
                  Ensures-bind (get_devid pkt 0) _ λ gw _.
                    Ensures-then
                      (add_gw_route-Safe gw src iface (record n { state_lock = true })
                        (relayer n true w))
                      λ m (v, _, id, mtu). returned (record {
                        layer = record {
                          arp = v.arp;
                          son = v.son;
                          local = v.local;
                          nbr = v.nbr;
                          bspc = v.bspc;
                        };
                        status = joins (is_unreg-eq n.dev_state (ans == 0) ready) refl;
                        dev_id = id;
                        mtu = mtu;
                      }))
              | inr unready ↦
                  rw unready
                    (returned (Safe-same n _ w w.arp w.son w.local w.nbr refl refl refl refl refl))
            ]))
        (Ensures-bind (check_state is_connected n) _
          λ c _. Ensures-if c (fwd_on-Safe env n pkt w) (returned (Safe-refl n w)))

  pub tsd_process_rx-Safe :
      (env : Env) (n : NsoLayer) (pkt : Packet) (src : Option L2Addr) (iface : Option NsoIf)
      → IsLayer n
      → Ensures (λ r. Safe n r.0) (tsd_process_rx env n pkt src iface)
  unfolding tsd_process_rx
  tsd_process_rx-Safe env n pkt src iface w = Ensures-bind (get_byte pkt 20) _ λ type _.
      Ensures-if (type == nso_tsd_msg_reg) (taken true (fwd_beacon-Safe env n pkt src iface w)) (
        Ensures-if (type == nso_tsd_msg_reg_reply)
          (taken true (process_reg_reply-Safe env n pkt src iface w)) (returned (Safe-refl n w)))

  get_nso_beacon-Safe :
      (env : Env) (n : NsoLayer) → IsLayer n → Ensures (λ r. Safe n r.1) (get_nso_beacon env n)
  unfolding get_nso_beacon
  get_nso_beacon-Safe env n w = Ensures-bind (non_null (alloc_packet env.block n.mtu)) _ λ p0 _.
      Ensures-bind (start_pkt n.dev_id alloc_bc_device_id nso_proto_cp_vtsd p0) _ λ p1 _.
        Ensures-bind (put_bytes 20 (nso_tsd_msg_reg ∷ []) p1) _ λ p2 _.
          Ensures-bind (get_devid p2 0) _ λ src _.
            Ensures-then
              (Ensures-if (n.aaa_cred_size == 0) (aaa_get_credentials-Safe env (to_bytes 8 src) n w)
                (returned (Safe-refl n w)))
              λ m s. Ensures-bind (cred_bytes m) _ λ cs _.
                Ensures-bind (put_bytes 21 cs p2) _ λ p3 _.
                  Ensures-bind (finish_pkt (m.aaa_cred_size + 20 + 1) p3) _ λ p4 _. returned s

  pub tsd_broadcast_beacons-Safe :
      (env : Env) (n : NsoLayer) (i : ℕ)
      → IsLayer n
      → Ensures (λ r. Safe n r.0) (tsd_broadcast_beacons env n i)
  unfolding tsd_broadcast_beacons
  tsd_broadcast_beacons-Safe env n i w = Ensures-then (get_nso_beacon-Safe env n w) λ r s.
      Ensures-bind (iface_at r.1 i) _ λ slot _. Ensures-bind (non_null slot) _ λ iface _.
        Ensures-bind (nso_if_broadcast env.accepts iface r.0) _ λ sent _.
          Ensures-bind (next_if r.1 i) _
            λ next _. returned (Safe-trans s (Safe-log r.1 s.layer sent.frame))
