-- ===== src/Layer/Heard.antt =====
-- What a base station of bs/src/bs_lib that is not busy makes of an advertisement of a neighbour and
-- of the beacon of a device: rounds of __rx_thread_main that return.
use nrg_5_sorbonne.Base.{
  ℕ, ◌≤◌, ◌≡◌, ◌≢◌, refl, ap, sym, ◌∙◌, inl, true, false, Option, none, some, ◌∷◌, arith,
}
use nrg_5_sorbonne.Kernel.{Kernel}
use nrg_5_sorbonne.Memory.{ok, Returns, returns, Returns-bind}
use nrg_5_sorbonne.NsoCommon.{
  DeviceId, L2Addr, to_bytes, of_bytes, device_id_equal, is_broadcast_dev_id, alloc_bc_device_id,
}
use nrg_5_sorbonne.NsoIf.{NsoIf}
use nrg_5_sorbonne.Packet.{Packet, get_devid, get_byte, get_u16, htons, peek, poke}
use nrg_5_sorbonne.Packet.Bytes.{peek-poke_apart}
use nrg_5_sorbonne.Packet.Header.{Fits, Fits-poke, put_devid-ok, get_devid-ok, get_bytes-ok}
use nrg_5_sorbonne.Nso.State.{
  Env, NsoLayer, nrg5_connected, is_connected, check_state, lock_state, send_pkt_to_vnf, taken,
}
use nrg_5_sorbonne.Nso.Data.{rx_round}
use nrg_5_sorbonne.Tsd.{tsd_process_rx, fwd_beacon, learn_sender}
use nrg_5_sorbonne.Tsd.Beacon.{Touched, touch_arp-Touched}
use nrg_5_sorbonne.Tsd.Routes.{RouteBack, touch_fwd-HasRoute}
use nrg_5_sorbonne.Son.{son_process_rx, neighbor_maintain}
use nrg_5_sorbonne.Son.Neighbours.{NeighbourHeard, touch_nbr-HasNeighbour}
use nrg_5_sorbonne.Layer.Safety.{IsLayer}

module _ ⦃K : Kernel⦄ where
  -- The locks of the tables and of the state are free, and the heaps have room.
  pub record IsIdle (n : NsoLayer) : Type 0 where
    pub layer : IsLayer n
    pub arp_free : n.arpt.arpt_lock ≡ false
    pub nbr_free : n.nbrt.nbrt_lock ≡ false
    pub local_free : n.local_fwdt.fwdt_lock ≡ false
    pub state_free : n.state_lock ≡ false
    pub arp_room : n.arpt.heap.room ≢ 0
    pub nbr_room : n.nbrt.table.heap.room ≢ 0
    pub local_room : n.local_fwdt.table.heap.room ≢ 0

  -- The station knows the neighbour and its address, and nothing else has changed.
  pub record Heard (id : DeviceId) (mac : L2Addr) (iface : Option NsoIf) (n b : NsoLayer)
      : Type 0 where
    pub arp : Touched id mac n.arpt b.arpt
    pub nbr : NeighbourHeard id iface n.nbrt b.nbrt
    pub rest : b ≡ record n { arpt = b.arpt; nbrt = b.nbrt }

  -- Let the tables of the base station be well formed, no two vSON routes be for one destination,
  -- the locks of the state, the ARP table, the neighbour table and the local table be free, and
  -- their heaps have room. A packet of the vSON protocol, of the type of an advertisement,
  -- received from an address, is processed: the ARP table has an active entry for the sender,
  -- with the address of the entry that it had for it or, if it had none, that of the frame, and
  -- the neighbour table has an active entry for the sender, with the metric and the interface of
  -- the entry that it had for it or, if it had none, the metric 1 and the interface of the frame,
  -- both tables well formed and unlocked; the rest of the state is as before.
  pub rx_round-Heard :
      (env : Env) (n : NsoLayer) (pkt : Packet) (mac : L2Addr) (iface : Option NsoIf) (id proto : ℕ)
      → IsIdle n
      → get_u16 pkt 16 ≡ ok proto
      → htons proto ≡ 0xF001
      → get_byte pkt 20 ≡ ok 2
      → get_devid pkt 0 ≡ ok id
      → Returns (Heard id mac iface n) (rx_round env n pkt (some mac) iface)
  unfolding rx_round son_process_rx neighbor_maintain
  rx_round-Heard env n pkt mac iface id proto w p son type src =
      rw (p, son, type, src)
        (Returns-bind
          (Returns-bind
            (Returns-bind (touch_arp-Touched id mac n.arpt w.layer.arp w.arp_free w.arp_room) λ a t.
              Returns-bind
                (touch_nbr-HasNeighbour id iface n.nbrt w.layer.nbr w.nbr_free w.nbr_room)
                λ b h. returns (record { arp = t; nbr = h; rest = refl }))
            λ m h. returns h)
          λ q h. returns h)

  -- The station knows the device and has a route back to it; the beacon, now addressed to the
  -- gateway, is the last message, to vTSD.
  pub record BeaconForwarded (env : Env) (id : DeviceId) (mac : L2Addr) (iface : NsoIf)
      (pkt : Packet) (n b : NsoLayer) : Type 0 where
    pub arp : Touched id mac n.arpt b.arpt
    pub route : RouteBack id id iface n.local_fwdt b.local_fwdt
    pub sent :
        b.sent
        ≡ taken env n.vtsd_fd (peek (poke 8 (to_bytes 8 n.gw_id) pkt) 0 pkt.byte_len) ∷ n.sent
    pub rest : b ≡ record n { arpt = b.arpt; local_fwdt = b.local_fwdt; sent = b.sent }

  connected-free :
      (n : NsoLayer)
      → n.dev_state ≡ nrg5_connected
      → n.state_lock ≡ false
      → check_state is_connected n ≡ ok true
  unfolding check_state lock_state
  connected-free n c free = rw (free, c) refl

  -- What a beacon that comes from the device itself leaves.
  record Learned (id : DeviceId) (mac : L2Addr) (iface : NsoIf) (pkt : Packet) (n : NsoLayer)
      (r : Packet × NsoLayer) : Type 0 where
    pub arp : Touched id mac n.arpt r.1.arpt
    pub route : RouteBack id id iface n.local_fwdt r.1.local_fwdt
    pub readdressed : r.0 ≡ poke 8 (to_bytes 8 n.gw_id) pkt
    pub rest : r.1 ≡ record n { arpt = r.1.arpt; local_fwdt = r.1.local_fwdt }

  learn_sender-Learned :
      (n : NsoLayer) (pkt : Packet) (mac : L2Addr) (iface : NsoIf) (id : ℕ)
      → IsIdle n
      → Fits pkt pkt.byte_len
      → 20 ≤ pkt.byte_len
      → get_devid pkt 0 ≡ ok id
      → get_devid pkt 8 ≡ ok alloc_bc_device_id
      → Returns (Learned id mac iface pkt n) (learn_sender n pkt (some mac) (some iface))
  unfolding learn_sender is_broadcast_dev_id device_id_equal alloc_bc_device_id
  learn_sender-Learned n pkt mac iface id w f len src dst =
      let to = to_bytes 8 n.gw_id in
      let q = poke 8 to pkt in
      let fq = Fits-poke pkt f 8 to in
      let same : get_devid q 0 ≡ ok id =
        get_devid-ok q fq 0 (omega arith)
        ∙ ap (λ bs. ok (of_bytes bs)) (peek-poke_apart pkt 8 to 0 8 (inl (omega arith)))
        ∙ sym (get_devid-ok pkt f 0 (omega arith))
        ∙ src in
      rw (dst, put_devid-ok pkt f 8 n.gw_id (omega arith), same)
        (Returns-bind (touch_arp-Touched id mac n.arpt w.layer.arp w.arp_free w.arp_room) λ a t.
          Returns-bind
            (touch_fwd-HasRoute id none iface n.local_fwdt w.layer.local w.local_free w.local_room)
            λ l h. returns (record { arp = t; route = h; readdressed = refl; rest = refl }))

  fwd_beacon-BeaconForwarded :
      (env : Env) (n : NsoLayer) (pkt : Packet) (mac : L2Addr) (iface : NsoIf) (id : ℕ)
      → IsIdle n
      → n.dev_state ≡ nrg5_connected
      → Fits pkt pkt.byte_len
      → 20 ≤ pkt.byte_len
      → get_devid pkt 0 ≡ ok id
      → get_devid pkt 8 ≡ ok alloc_bc_device_id
      → Returns
          (BeaconForwarded env id mac iface pkt n)
          (fwd_beacon env n pkt (some mac) (some iface))
  unfolding fwd_beacon send_pkt_to_vnf poke
  fwd_beacon-BeaconForwarded env n pkt mac iface id w c f len src dst =
      let q = poke 8 (to_bytes 8 n.gw_id) pkt in
      let fq = Fits-poke pkt f 8 (to_bytes 8 n.gw_id) in
      rw (connected-free n c w.state_free) (
        Returns-bind (learn_sender-Learned n pkt mac iface id w f len src dst) λ (p, m) l.
          let bytes = peek q 0 pkt.byte_len in
          rw (l.readdressed, get_bytes-ok q fq 0 pkt.byte_len (omega arith))
            (returns (record {
              arp = l.arp;
              route = l.route;
              sent = ap (λ x. taken env x.vtsd_fd bytes ∷ x.sent) l.rest;
              rest =
                  ap (λ (x : NsoLayer). record x { sent = taken env m.vtsd_fd bytes ∷ m.sent })
                    l.rest;
            })))

  -- Let the base station be connected, its tables well formed, no two vSON routes be for one
  -- destination, the locks of the state, the ARP table, the neighbour table and the local table
  -- be free, and their heaps have room. A packet of 20 bytes or more of the vTSD protocol, of the
  -- type of a beacon, broadcast by a device and received from an address on an interface, is
  -- processed: the ARP table has an active entry for the device, with the address of the entry
  -- that it had for it or, if it had none, that of the frame, and the local table an active route
  -- to it, with the next hop and the interface of the entry that it had for it or, if it had
  -- none, the device itself and the interface of the frame, both tables well formed and unlocked;
  -- what the socket takes of the bytes of the packet with the gateway as its destination is the
  -- last message, to vTSD; the rest of the state is as before.
  pub rx_round-BeaconForwarded :
      (env : Env) (n : NsoLayer) (pkt : Packet) (mac : L2Addr) (iface : NsoIf) (id proto : ℕ)
      → IsIdle n
      → n.dev_state ≡ nrg5_connected
      → Fits pkt pkt.byte_len
      → 20 ≤ pkt.byte_len
      → get_u16 pkt 16 ≡ ok proto
      → htons proto ≡ 0xF000
      → get_byte pkt 20 ≡ ok 0
      → get_devid pkt 0 ≡ ok id
      → get_devid pkt 8 ≡ ok alloc_bc_device_id
      → Returns
          (BeaconForwarded env id mac iface pkt n)
          (rx_round env n pkt (some mac) (some iface))
  unfolding rx_round tsd_process_rx
  rx_round-BeaconForwarded env n pkt mac iface id proto w c f len p tsd type src dst =
      rw (p, tsd, type)
        (Returns-bind
          (Returns-bind (fwd_beacon-BeaconForwarded env n pkt mac iface id w c f len src dst)
            λ m h. returns h)
          λ q h. returns h)
