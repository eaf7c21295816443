-- ===== src/Layer/Forwarded.antt =====
-- nso_layer_fwd of bs/src/bs_lib/nso.c where every next hop has an ARP entry: the frame, and what a
-- receiver with a large enough buffer gets of it.
use nrg_5_sorbonne.Base.{
  ◌+◌, ◌^◌, ◌≤◌, ◌<◌, ◌≡◌, refl, true, false, Option, none, some, arith, length, mem, Option-cases,
  inl, inr, subst,
}
use nrg_5_sorbonne.Kernel.{Kernel, Ptr}
use nrg_5_sorbonne.Memory.{ok, Returns, returns, Returns-bind, Returns-mono}
use nrg_5_sorbonne.Memory.Laws.{load-ok}
use nrg_5_sorbonne.NsoCommon.{DeviceId, L2Addr}
use nrg_5_sorbonne.Packet.{Packet, get_devid}
use nrg_5_sorbonne.Packet.Header.{Fits}
use nrg_5_sorbonne.Wifi.{Frame, nso_if_send, wifi_receive}
use nrg_5_sorbonne.Wifi.RoundTrip.{ReceivedAs, wifi_send-wifi_receive_on}
use nrg_5_sorbonne.Table.Lookup.{Found, Found-some, Found-none, Found-Returns}
use nrg_5_sorbonne.Arp.{ArpEntry, ArpTable, arp_table_lock, arp_table_unlock}
use nrg_5_sorbonne.Arp.Invariant.{IsArpTable, arp_entries}
use nrg_5_sorbonne.Arp.Operations.{has_dev_id, arp_table_lookup_from_dev_id_unsafe-Found}
use nrg_5_sorbonne.Fwd.Laws.{IsFwdTable}
use nrg_5_sorbonne.Tsd.Beacon.{relock}
use nrg_5_sorbonne.Nso.State.{Env, NsoLayer, log_frame}
use nrg_5_sorbonne.Nso.Forward.{Hop, Forwarded, nso_layer_fwd, fwd_by, send_to_hop, send_to_entry}
use nrg_5_sorbonne.Nso.Forward.Routes.{RouteOf, find_hop-RouteOf}

-- A packet with space for the frame's header, and a buffer that takes it.
pub record Sendable (pkt buffer : Packet) : Type 0 where
  pub head : 14 ≤ pkt.data_at
  pub fits : Fits pkt pkt.byte_len
  pub to_head : 14 ≤ buffer.data_at
  pub to_fits : Fits buffer pkt.byte_len
  pub room : pkt.byte_len ≤ buffer.size
  pub small : pkt.byte_len + 14 < 2 ^ 32

module _ ⦃K : Kernel⦄ where
  -- The ARP table knows the next hop, and the addresses have 6 bytes.
  pub record Adjacent (t : ArpTable) (h : Hop) : Type 0 where
    pub at : Ptr
    pub entry : ArpEntry
    pub listed : mem at (arp_entries t) ≡ true
    pub cell : t.heap.cell at ≡ some entry
    pub of_id : has_dev_id h.nxt entry ≡ true
    pub macs :
        (p : Ptr) (e : ArpEntry)
        → mem p (arp_entries t) ≡ true
        → t.heap.cell p ≡ some e
        → has_dev_id h.nxt e ≡ true
        → 6 ≤ length e.l2addr
    pub own : 6 ≤ length h.iface.handle.if_mac

  -- The ARP table has an entry for `id` with the address `a`.
  pub record KnownAt (t : ArpTable) (id : DeviceId) (a : L2Addr) : Type 0 where
    pub at : Ptr
    pub entry : ArpEntry
    pub listed : mem at (arp_entries t) ≡ true
    pub cell : t.heap.cell at ≡ some entry
    pub of_id : has_dev_id id entry ≡ true
    pub address : a ≡ entry.l2addr

  Adjacent-Found :
      (h : Hop) (t : ArpTable) (o : Option Ptr)
      → Adjacent t h
      → Found (has_dev_id h.nxt) t.heap.cell (arp_entries t) (ok o)
      → (p : Ptr) × (o ≡ some p)
        × (e : ArpEntry) × (t.heap.cell p ≡ some e)
        × (6 ≤ length e.l2addr)
        × KnownAt t h.nxt e.l2addr
  Adjacent-Found h t none k f =
      absurd (ground (arith, Found-none f k.at k.entry k.listed k.cell, k.of_id))
  Adjacent-Found h t (some p) k f =
      let (e, m, c, is) = Found-some p f in
      (
        p,
        refl,
        e,
        c,
        k.macs p e m c is,
        record { at = p; entry = e; listed = m; cell = c; of_id = is; address = refl },
      )

  -- What was sent: a frame on the interface of the hop, to an address that the ARP table has for the
  -- next hop, from which the buffer gets the packet, and no other change.
  pub record Delivered (n : NsoLayer) (pkt buffer : Packet) (h : Hop) (r : Forwarded) : Type 0 where
    pub frame : Frame
    pub to : L2Addr
    pub on : frame.sockfd ≡ h.iface.handle.sockfd
    pub next_hop : KnownAt n.arpt h.nxt to
    pub success : r.success ≡ true
    pub logged : r.nsol ≡ log_frame (some frame) n
    pub received :
        Returns
          (ReceivedAs buffer pkt pkt.byte_len h.iface.handle.if_mac to)
          (wifi_receive frame.bytes buffer)

  send_to_hop-Delivered :
      (env : Env) (n : NsoLayer) (pkt buffer : Packet) (h : Hop)
      → IsArpTable n.arpt
      → n.arpt.arpt_lock ≡ false
      → Adjacent n.arpt h
      → Sendable pkt buffer
      → Returns (Delivered n pkt buffer h) (send_to_hop env n pkt h)
  unfolding send_to_hop send_to_entry arp_table_lock arp_table_unlock nso_if_send
  send_to_hop-Delivered env n pkt buffer h w free k s =
      let t1 : ArpTable = record n.arpt { arpt_lock = true } in
      rw free (
        Returns-bind
          (Found-Returns (arp_table_lookup_from_dev_id_unsafe-Found t1 h.nxt (relock true w)))
          λ o f.
            let (p, is, e, c, long, at) = Adjacent-Found h n.arpt o k f in
            rw (is, load-ok n.arpt.heap p c)
              (Returns-bind
                (wifi_send-wifi_receive_on env.accepts h.iface.handle pkt e.l2addr buffer s.head
                  s.fits k.own long s.to_head s.to_fits s.room s.small)
                λ q (fr, given, on, back). rw given (
                  returns (record {
                    frame = fr;
                    to = e.l2addr;
                    on = on;
                    next_hop = record {
                      at = at.at;
                      entry = at.entry;
                      listed = at.listed;
                      cell = at.cell;
                      of_id = at.of_id;
                      address = at.address;
                    };
                    success = refl;
                    logged = refl;
                    received = back;
                  }))))

  -- Let the destination of the packet be read, the forwarding tables and the ARP table be well
  -- formed and unlocked, the destination have a route, every hop of it have an ARP entry and
  -- addresses of 6 bytes, the packet have 14 bytes before its data, be less than 2^32 - 14 bytes
  -- long and lie within its buffer, and the receive buffer be large enough. Then nso_layer_fwd
  -- returns success, with no change of the layer but a frame given to sendto on the socket of the
  -- interface of such a hop, to the address of an ARP entry for it, and wifi_receive of that
  -- frame into the buffer returns the same bytes, their number, the address of the interface and
  -- that of the ARP entry.
  pub nso_layer_fwd-Delivered :
      (env : Env) (n : NsoLayer) (pkt buffer : Packet) (dst : DeviceId)
      → get_devid pkt 8 ≡ ok dst
      → IsFwdTable n.son_fwdt
      → IsFwdTable n.local_fwdt
      → IsArpTable n.arpt
      → n.son_fwdt.fwdt_lock ≡ false
      → n.local_fwdt.fwdt_lock ≡ false
      → n.arpt.arpt_lock ≡ false
      → ¬ RouteOf n dst none
      → ((h : Hop) → RouteOf n dst (some h) → Adjacent n.arpt h)
      → Sendable pkt buffer
      → Returns
          (λ r. (h : Hop) × RouteOf n dst (some h) × Delivered n pkt buffer h r)
          (nso_layer_fwd env n pkt)
  unfolding nso_layer_fwd fwd_by
  nso_layer_fwd-Delivered env n pkt buffer dst d ws wl wa fs fl fa some_way all s = rw d (
      Returns-bind (find_hop-RouteOf n dst ws wl fs fl) λ r (route, same). elim (Option-cases r.0) [
        | inl lost ↦ absurd (some_way (subst (RouteOf n dst) lost route))
        | inr (h, is) ↦
            let way = subst (RouteOf n dst) is route in
            rw (is, same)
              (Returns-mono (send_to_hop-Delivered env n pkt buffer h wa fa (all h way) s)
                λ m x. (h, way, x))
      ])
