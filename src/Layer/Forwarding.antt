-- ===== src/Layer/Forwarding.antt =====
-- nso_layer_fwd of bs/src/bs_lib/nso.c and the sending to a network function, as parts of a step.
use nrg_5_sorbonne.Base.{ℕ, refl, true, false, Option, none, some}
use nrg_5_sorbonne.Kernel.{Kernel, Ptr}
use nrg_5_sorbonne.Memory.{
  ok, ◌>>=◌, load, Ensures, returned, crashes, Ensures-bind, Ensures-then, Ensures-mono, Ensures-if,
}
use nrg_5_sorbonne.NsoCommon.{DeviceId}
use nrg_5_sorbonne.Packet.{Packet, get_devid, get_bytes}
use nrg_5_sorbonne.Wifi.{nso_if_send}
use nrg_5_sorbonne.Arp.{arp_table_unlock, arp_table_lookup_from_dev_id_unsafe}
use nrg_5_sorbonne.Tsd.Beacon.{relock}
use nrg_5_sorbonne.Nso.State.{Env, NsoLayer, send_pkt_to_vnf}
use nrg_5_sorbonne.Nso.Forward.{
  Hop, find_hop, find_local, leave, send_to_entry, send_to_hop, fwd_by, nso_layer_fwd,
}
use nrg_5_sorbonne.Layer.Tables.{hop_of-same, arp_table_lock-same}
use nrg_5_sorbonne.Layer.Routes.{IsRoutes-lock}
use nrg_5_sorbonne.Layer.Safety.{
  IsLayer, Safe, Safe-trans, Safe-refl, Safe-same, Safe-arpt, Safe-son, Safe-local, Safe-log,
}

module _ ⦃K : Kernel⦄ where
  -- The tables as the lookups of a hop leave them.
  find_local-Safe :
      (o : Option Hop) (n : NsoLayer) (dst : DeviceId)
      → IsLayer n
      → Ensures (λ r. Safe n r.1) (find_local o n dst)
  unfolding find_local
  find_local-Safe (some h) n dst w = returned (Safe-refl n w)
  find_local-Safe none n dst w =
      Ensures-then (hop_of-same n.local_fwdt dst)
        λ r same. returned (Safe-local n w r.1 (rw same w.local))

  find_hop-Safe :
      (n : NsoLayer) (dst : DeviceId) → IsLayer n → Ensures (λ r. Safe n r.1) (find_hop n dst)
  unfolding find_hop
  find_hop-Safe n dst w = Ensures-then (hop_of-same n.son_fwdt dst) λ r same.
      let s = Safe-son n w r.1 (rw same (IsRoutes-lock false n.son_fwdt w.son)) in
      Ensures-mono (find_local-Safe r.0 (record n { son_fwdt = r.1 }) dst s.layer)
        λ q t. Safe-trans s t

  leave-Safe :
      (env : Env) (n : NsoLayer) (pkt : Packet)
      → IsLayer n
      → Ensures (λ f. Safe n f.nsol) (leave env n pkt)
  unfolding leave
  leave-Safe env n pkt w = Ensures-if env.stray_null (returned (Safe-refl n w)) crashes

  send_to_entry-Safe :
      (env : Env) (o : Option Ptr) (n : NsoLayer) (pkt : Packet) (hop : Hop)
      → IsLayer n
      → Ensures
          (λ f. Safe n f.nsol)
          (send_to_entry env o (record n.arpt { arpt_lock = true }) n pkt hop)
  unfolding send_to_entry arp_table_unlock
  send_to_entry-Safe env none n pkt hop w =
      let s = Safe-arpt n w (record n.arpt { arpt_lock = true }) (relock true w.arp) in
      Ensures-mono
        (leave-Safe env (record n { arpt = record n.arpt { arpt_lock = true } }) pkt s.layer)
        λ f t. Safe-trans s t
  send_to_entry-Safe env (some p) n pkt hop w =
      let s = Safe-arpt n w (record n.arpt { arpt_lock = false }) (relock false w.arp) in
      let n1 : NsoLayer = record n { arpt = record n.arpt { arpt_lock = false } } in
      Ensures-bind (load n.arpt.heap p) _ λ e _.
        Ensures-bind (nso_if_send env.accepts hop.iface pkt e.l2addr) _
          λ sent _. returned (Safe-trans s (Safe-log n1 s.layer sent.frame))

  fwd_by-Safe :
      (env : Env) (o : Option Hop) (n : NsoLayer) (pkt : Packet)
      → IsLayer n
      → Ensures (λ f. Safe n f.nsol) (fwd_by env o n pkt)
  unfolding fwd_by send_to_hop
  fwd_by-Safe env none n pkt w = leave-Safe env n pkt w
  fwd_by-Safe env (some hop) n pkt w = Ensures-then (arp_table_lock-same n.arpt) λ t e. rw e (
      Ensures-bind
        (arp_table_lookup_from_dev_id_unsafe (record n.arpt { arpt_lock = true }) hop.nxt) _
        λ o _. send_to_entry-Safe env o n pkt hop w)

  pub nso_layer_fwd-Safe :
      (env : Env) (n : NsoLayer) (pkt : Packet)
      → IsLayer n
      → Ensures (λ f. Safe n f.nsol) (nso_layer_fwd env n pkt)
  unfolding nso_layer_fwd
  nso_layer_fwd-Safe env n pkt w = Ensures-bind (get_devid pkt 8) _ λ dst _.
      Ensures-then (find_hop-Safe n dst w)
        λ r s. Ensures-mono (fwd_by-Safe env r.0 r.1 pkt s.layer) λ f t. Safe-trans s t

  -- The same, where only the state is used.
  pub fwd_on-Safe :
      (env : Env) (n : NsoLayer) (pkt : Packet)
      → IsLayer n
      → Ensures (Safe n) (nso_layer_fwd env n pkt >>= λ f. ok f.nsol)
  fwd_on-Safe env n pkt w = Ensures-then (nso_layer_fwd-Safe env n pkt w) λ f s. returned s

  pub send_pkt_to_vnf-Safe :
      (env : Env) (fd : ℕ) (pkt : Packet) (n : NsoLayer)
      → IsLayer n
      → Ensures (Safe n) (send_pkt_to_vnf env fd pkt n)
  unfolding send_pkt_to_vnf
  send_pkt_to_vnf-Safe env fd pkt n w =
      Ensures-bind (get_bytes pkt 0 pkt.byte_len) _
        λ bytes _. returned (Safe-same n _ w w.arp w.son w.local w.nbr refl refl refl refl refl)
