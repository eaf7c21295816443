-- ===== src/Device/Reply.antt =====
-- __process_reg_reply of nso/src/nso_lib/nso_tsd.c: the answer to the registration of a device, and
-- the route to the gateway that it leaves.
use nrg_5_sorbonne.Base.{
  ◌≡◌, ◌≢◌, refl, true, false, Option, none, some, [], ◌∷◌, ◌++◌, arith, mem, ==_refl,
}
use nrg_5_sorbonne.Kernel.{Kernel, Ptr}
use nrg_5_sorbonne.Memory.{ok, Returns, returns, Returns-bind}
use nrg_5_sorbonne.Memory.Laws.{malloc-some, load-ok}
use nrg_5_sorbonne.NsoCommon.{DeviceId, L2Addr, device_id_equal}
use nrg_5_sorbonne.NsoIf.{NsoIf}
use nrg_5_sorbonne.Packet.{Packet, get_devid, get_byte}
use nrg_5_sorbonne.Table.{active}
use nrg_5_sorbonne.Table.Lookup.{Found, Found-some, Found-none, Found-Returns}
use nrg_5_sorbonne.Arp.{ArpEntry, ArpTable, arp_table_unlock}
use nrg_5_sorbonne.Arp.Invariant.{IsArpTable, arp_entries}
use nrg_5_sorbonne.Arp.Operations.{arp_table_lookup_from_l2addr_unsafe-Found, has_l2addr}
use nrg_5_sorbonne.Fwd.{FwdEntry, FwdTable, alloc_fwd_entry}
use nrg_5_sorbonne.Fwd.New.{add_new-AddedNew}
use nrg_5_sorbonne.Fwd.Laws.{IsFwdTable, fwd_members, fwd_cell}
use nrg_5_sorbonne.Tsd.{sender_of}
use nrg_5_sorbonne.Tsd.Beacon.{relock}
use nrg_5_sorbonne.Nso.State.{Env, NsoLayer, nrg5_unreg, nrg5_connected, lock_state, unlock_state}
use nrg_5_sorbonne.Device.Tsd.{add_gw_route, process_reg_reply}

module _ ⦃K : Kernel⦄ where
  -- An entry of the ARP table with this address and this id.
  pub record Neighbour (t : ArpTable) (mac : L2Addr) (id : DeviceId) : Type 0 where
    pub at : Ptr
    pub entry : ArpEntry
    pub listed : mem at (arp_entries t) ≡ true
    pub cell : t.heap.cell at ≡ some entry
    pub of_mac : has_l2addr mac entry ≡ true
    pub is_id : entry.dev_id ≡ id

  -- The last entry of the local table: an active route to the gateway by the neighbour with the
  -- address `mac`.
  pub record GwRoute (t : ArpTable) (gw : DeviceId) (mac : L2Addr) (iface : NsoIf) (l l' : FwdTable)
      : Type 0 where
    pub valid : IsFwdTable l'
    pub at : Ptr
    pub entry : FwdEntry
    pub order : fwd_members l' ≡ fwd_members l ++ at ∷ []
    pub cell : fwd_cell l' at ≡ some entry
    pub to_gw : entry.dest ≡ gw
    pub by : Neighbour t mac entry.nxthop
    pub on : entry.interface ≡ iface
    pub is_active : entry.status ≡ active

  -- Where the table has an entry with this address, the lookup finds one.
  sender-Found :
      (mac : L2Addr) (t : ArpTable) {id : DeviceId} (o : Option Ptr)
      → Neighbour t mac id
      → Found (has_l2addr mac) t.heap.cell (arp_entries t) (ok o)
      → (p : Ptr) × (o ≡ some p)
        × (e : ArpEntry) × (mem p (arp_entries t) ≡ true)
        × (t.heap.cell p ≡ some e)
        × (has_l2addr mac e ≡ true)
  sender-Found mac t none k f =
      absurd (ground (arith, Found-none f k.at k.entry k.listed k.cell, k.of_mac))
  sender-Found mac t (some p) k f = let (e, m, c, is) = Found-some p f in (p, refl, e, m, c, is)

  sender_of-Neighbour :
      (mac : L2Addr) (t : ArpTable) {id : DeviceId}
      → IsArpTable t
      → t.arpt_lock ≡ false
      → Neighbour t mac id
      → Returns
          (λ r. Neighbour t mac r.0 × (r.1 ≡ record t { arpt_lock = false }))
          (sender_of mac t)
  unfolding sender_of arp_table_unlock
  sender_of-Neighbour mac t w free known =
      let t1 : ArpTable = record t { arpt_lock = true } in
      rw free (
        Returns-bind
          (Found-Returns (arp_table_lookup_from_l2addr_unsafe-Found t1 mac (relock true w)))
          λ o f.
            let (p, is, e, m, c, a) = sender-Found mac t o known f in
            rw (is, load-ok t.heap p c)
              (returns (
                record { at = p; entry = e; listed = m; cell = c; of_mac = a; is_id = refl },
                refl,
              )))

  add_gw_route-GwRoute :
      (gw : DeviceId) (mac : L2Addr) (iface : NsoIf) (n : NsoLayer) {id : DeviceId}
      → IsArpTable n.arpt
      → n.arpt.arpt_lock ≡ false
      → Neighbour n.arpt mac id
      → IsFwdTable n.local_fwdt
      → n.local_fwdt.table.heap.room ≢ 0
      → Returns
          (λ m.
            GwRoute n.arpt gw mac iface n.local_fwdt m.local_fwdt
            × (m ≡ record n {
              arpt = record n.arpt { arpt_lock = false };
              local_fwdt = m.local_fwdt;
            }))
          (add_gw_route gw (some mac) (some iface) n)
  unfolding add_gw_route alloc_fwd_entry
  add_gw_route-GwRoute gw mac iface n w free known wl room =
      Returns-bind (sender_of-Neighbour mac n.arpt w free known) λ r (k, same).
        let e : FwdEntry = record { dest = gw; nxthop = r.0; interface = iface; status = active } in
        let l = n.local_fwdt in
        rw (malloc-some l.table.heap e room, same)
          (Returns-bind (add_new-AddedNew l e l.fwdt_lock wl) λ l' i. returns (
            record {
              valid = i.valid;
              at = l.table.heap.next;
              entry = e;
              order = i.order;
              cell = i.cell;
              to_gw = refl;
              by = k;
              on = refl;
              is_active = refl;
            },
            refl,
          ))

  -- What a reply of success leaves: the device is connected, the rest of the state but the ARP
  -- lock is as before.
  pub record Joined (n : NsoLayer) (gw : DeviceId) (mac : L2Addr) (iface : NsoIf) (m : NsoLayer)
      : Type 0 where
    pub route : GwRoute n.arpt gw mac iface n.local_fwdt m.local_fwdt
    pub rest : m ≡ record n {
      arpt = record n.arpt { arpt_lock = false };
      local_fwdt = m.local_fwdt;
      gw_id = gw;
      dev_state = nrg5_connected;
      state_lock = false;
    }

  -- Let the device be unregistered, its state lock and ARP lock free, its ARP table and its local
  -- table well formed, with room on the heap, and the frame come from an address in the ARP table
  -- on an interface. Then a reply of success for it returns with the device connected to the
  -- sender of the reply as its gateway, and the local table well formed, with one more entry at
  -- the end: an active route to the gateway on that interface, whose next hop is the id of an
  -- entry with that address. The rest of the state is as before.
  pub process_reg_reply-Joined :
      (env : Env) (n : NsoLayer) (pkt : Packet) (gw : DeviceId) (mac : L2Addr) (iface : NsoIf)
      {id : DeviceId}
      → n.dev_state ≡ nrg5_unreg
      → n.state_lock ≡ false
      → get_devid pkt 0 ≡ ok gw
      → get_devid pkt 8 ≡ ok n.dev_id
      → get_byte pkt 21 ≡ ok 0
      → IsArpTable n.arpt
      → n.arpt.arpt_lock ≡ false
      → Neighbour n.arpt mac id
      → IsFwdTable n.local_fwdt
      → n.local_fwdt.table.heap.room ≢ 0
      → Returns (Joined n gw mac iface) (process_reg_reply env n pkt (some mac) (some iface))
  unfolding process_reg_reply lock_state unlock_state device_id_equal
  process_reg_reply-Joined env n pkt gw mac iface unreg free s d a w unlocked known wl room =
      rw (d, ==_refl n.dev_id, free, a, unreg, s)
        (Returns-bind
          (add_gw_route-GwRoute gw mac iface
            (record n { dev_state = nrg5_unreg; state_lock = true }) w unlocked known wl room)
          λ m (r, same). rw same (returns (record { route = r; rest = refl })))
