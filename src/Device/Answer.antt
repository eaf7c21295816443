-- ===== src/Device/Answer.antt =====
-- The answer to a registration on its way from vTSD to the device: a round of __vnf_rx_thread_main of
-- bs/src/bs_lib/nso.c, a frame, and a round of __rx_thread_main of nso/src/nso_lib/nso.c.
use nrg_5_sorbonne.Base.{
  ℕ, ◌≤◌, ◌≡◌, ◌≢◌, refl, ◌∙◌, false, none, some, List, arith, take, ne→==, ==_refl,
}
use nrg_5_sorbonne.Kernel.{Kernel}
use nrg_5_sorbonne.Memory.{ok, Returns, returns, Returns-bind, Returns-mono}
use nrg_5_sorbonne.NsoCommon.{DeviceId, L2Addr, device_id_equal}
use nrg_5_sorbonne.NsoIf.{NsoIf}
use nrg_5_sorbonne.Packet.{Packet, get_devid, get_byte, get_u16, htons}
use nrg_5_sorbonne.Packet.Header.{Fits}
use nrg_5_sorbonne.Packet.Contents.{
  SameBytes, get_byte-SameBytes, get_u16-SameBytes, get_devid-SameBytes,
}
use nrg_5_sorbonne.Wifi.{Frame, wifi_receive}
use nrg_5_sorbonne.Arp.Invariant.{IsArpTable}
use nrg_5_sorbonne.Fwd.Laws.{IsFwdTable}
use nrg_5_sorbonne.Nso.State.{Env, NsoLayer, nrg5_unreg, log_frame}
use nrg_5_sorbonne.Nso.Forward.{Hop}
use nrg_5_sorbonne.Nso.Forward.Routes.{RouteOf, by_local, no_entry}
use nrg_5_sorbonne.Nso.Data.{read_pkt_from_vnf, vnf_process_rx, vnf_rx_round}
use nrg_5_sorbonne.Tsd.Routes.{HasRoute}
use nrg_5_sorbonne.Layer.Forwarded.{Adjacent, KnownAt, Sendable, nso_layer_fwd-Delivered}
use nrg_5_sorbonne.Device.Tsd.{tsd_process_rx}
use nrg_5_sorbonne.Device.Data.{rx_round}
use nrg_5_sorbonne.Device.Reply.{Neighbour, Joined, process_reg_reply-Joined}

abbrev pub hop_mac : Hop → L2Addr
hop_mac h = take 6 h.iface.handle.if_mac

-- A packet with the answer success of the gateway `gw` to the device `id`.
pub record IsAnswer (gw id : DeviceId) (pkt : Packet) : Type 0 where
  pub proto : ℕ
  pub src : get_devid pkt 0 ≡ ok gw
  pub dst : get_devid pkt 8 ≡ ok id
  pub of_proto : get_u16 pkt 16 ≡ ok proto
  pub is_vtsd : htons proto ≡ 0xF000
  pub type : get_byte pkt 20 ≡ ok 1
  pub answer : get_byte pkt 21 ≡ ok 0

IsAnswer-SameBytes :
    {gw id : DeviceId} {p q : Packet}
    → Fits p p.byte_len
    → 22 ≤ p.byte_len
    → IsAnswer gw id p
    → SameBytes p.byte_len p q
    → IsAnswer gw id q
IsAnswer-SameBytes f long a s = record {
  proto = a.proto;
  src = get_devid-SameBytes s f 0 (omega arith) ∙ a.src;
  dst = get_devid-SameBytes s f 8 (omega arith) ∙ a.dst;
  of_proto = get_u16-SameBytes s f 16 (omega arith) ∙ a.of_proto;
  is_vtsd = a.is_vtsd;
  type = get_byte-SameBytes s f 20 (omega arith) ∙ a.type;
  answer = get_byte-SameBytes s f 21 (omega arith) ∙ a.answer;
}

module _ ⦃K : Kernel⦄ where
  -- A station with a route back to the device, such as its beacon leaves, whose next hops are all
  -- in the ARP table.
  pub record CanReach (n : NsoLayer) (id : DeviceId) : Type 0 where
    pub son : IsFwdTable n.son_fwdt
    pub arp : IsArpTable n.arpt
    pub son_free : n.son_fwdt.fwdt_lock ≡ false
    pub arp_free : n.arpt.arpt_lock ≡ false
    pub route : HasRoute id n.local_fwdt
    pub near : (h : Hop) → RouteOf n id (some h) → Adjacent n.arpt h

  -- An unregistered device that is not busy.
  pub record IsWaiting (dev : NsoLayer) : Type 0 where
    pub unreg : dev.dev_state ≡ nrg5_unreg
    pub state_free : dev.state_lock ≡ false
    pub arp : IsArpTable dev.arpt
    pub arp_free : dev.arpt.arpt_lock ≡ false
    pub local : IsFwdTable dev.local_fwdt
    pub room : dev.local_fwdt.table.heap.room ≢ 0

  pub HasRoute-some_way :
      (n : NsoLayer) (id : DeviceId) → HasRoute id n.local_fwdt → ¬ RouteOf n id none
  unfolding device_id_equal
  HasRoute-some_way n id r (by_local s (no_entry absent)) =
      ground (arith, absent r.at r.entry r.listed r.cell, r.of_id, ==_refl id)

  rx_round-Joined :
      (env : Env) (dev : NsoLayer) (pkt : Packet) (gw : DeviceId) (mac : L2Addr) (iface : NsoIf)
      {id : DeviceId}
      → IsWaiting dev
      → IsAnswer gw dev.dev_id pkt
      → Neighbour dev.arpt mac id
      → Returns (Joined dev gw mac iface) (rx_round env dev pkt (some mac) (some iface))
  unfolding rx_round tsd_process_rx
  rx_round-Joined env dev pkt gw mac iface w a known =
      rw (a.of_proto, a.is_vtsd, a.type)
        (Returns-bind
          (Returns-bind
            (process_reg_reply-Joined env dev pkt gw mac iface w.unreg w.state_free a.src a.dst
              a.answer w.arp w.arp_free known w.local w.room)
            λ m j. returns j)
          λ r j. returns j)

  -- What the answer does: the station sends a frame by a route to the device and is otherwise as
  -- before, and the device that receives the frame has joined.
  pub record AnswerTaken (env : Env) (n dev : NsoLayer) (buffer : Packet) (gw : DeviceId)
      (iface : NsoIf) (m : NsoLayer) : Type 0 where
    pub hop : Hop
    pub way : RouteOf n dev.dev_id (some hop)
    pub frame : Frame
    pub to : L2Addr
    pub on : frame.sockfd ≡ hop.iface.handle.sockfd
    pub next_hop : KnownAt n.arpt hop.nxt to
    pub logged : m ≡ log_frame (some frame) n
    pub received :
        Returns
          (λ q.
            (q.addrs ≡ some (hop_mac hop, take 6 to))
            × Returns
                (Joined dev gw (hop_mac hop) iface)
                (rx_round env dev q.pkt (some (hop_mac hop)) (some iface)))
          (wifi_receive frame.bytes buffer)

  -- Let read_pkt_from_vnf return a packet of at least 22 bytes with the answer success of a
  -- gateway for a device other than the station, with 14 bytes before its data, less than 2^32 -
  -- 14 bytes long and within its buffer, as is the receive buffer large enough; let the station
  -- have well-formed and unlocked tables, an active local route to the device, and an ARP entry
  -- with addresses of 6 bytes for every next hop of the device; let the device be unregistered,
  -- with well-formed tables, its ARP and state locks free, room on its heap, and an ARP entry for
  -- the address of each interface that the routes of the station to it go by. Then the round of
  -- the station returns with the rest of the stream and no change but one frame given to sendto
  -- on the socket of the interface of a route of the device, to an address that the ARP table has
  -- for the next hop; wifi_receive of that frame returns with the address of its interface as the
  -- sender and that address as the destination; and the round of the device's receiving thread
  -- with it returns with the device connected to that gateway, and an active route to it on the
  -- receiving interface by the neighbour with that address.
  pub answer_over_air :
      (env : Env) (n : NsoLayer) (stream rest : List ℕ) (pkt : Packet) (gw : DeviceId) (env' : Env)
      (dev : NsoLayer) (buffer : Packet) (iface : NsoIf)
      → read_pkt_from_vnf env n.mtu stream ≡ ok (pkt, rest)
      → IsAnswer gw dev.dev_id pkt
      → 22 ≤ pkt.byte_len
      → Sendable pkt buffer
      → dev.dev_id ≢ n.dev_id
      → CanReach n dev.dev_id
      → IsWaiting dev
      → ((h : Hop)
          → RouteOf n dev.dev_id (some h)
          → (id : DeviceId) × Neighbour dev.arpt (hop_mac h) id)
      → Returns
          (λ r. AnswerTaken env' n dev buffer gw iface r.0 × (r.1 ≡ rest))
          (vnf_rx_round env n stream)
  unfolding vnf_rx_round vnf_process_rx device_id_equal
  answer_over_air env n stream rest pkt gw env' dev buffer iface read a long s other c w known =
      rw (read, a.dst, ne→== dev.dev_id n.dev_id other)
        (Returns-bind
          (Returns-bind
            (nso_layer_fwd-Delivered env n pkt buffer dev.dev_id a.dst c.son c.route.valid c.arp
              c.son_free c.route.unlocked c.arp_free (HasRoute-some_way n dev.dev_id c.route) c.near
              s)
            λ r (h, way, d).
              let taken : AnswerTaken env' n dev buffer gw iface r.nsol = record {
                hop = h;
                way = way;
                frame = d.frame;
                to = d.to;
                on = d.on;
                next_hop = d.next_hop;
                logged = d.logged;
                received = Returns-mono d.received λ q g. (
                  g.addrs,
                  rx_round-Joined env' dev q.pkt gw (hop_mac h) iface w
                      (IsAnswer-SameBytes s.fits long a g.same) ((known h way).1),
                );
              } in
              returns taken)
          λ m taken. returns (taken, refl))
