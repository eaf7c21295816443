-- ===== src/Layer/Stuck.antt =====
-- nso_layer_fwd of bs/src/bs_lib/nso.c where the next hop has no ARP entry.
use nrg_5_sorbonne.Base.{◌≡◌, refl, Bool-cases, inl, inr, true, false, Option, none, some, mem}
use nrg_5_sorbonne.Kernel.{Kernel, Ptr}
use nrg_5_sorbonne.Memory.{ok, crash}
use nrg_5_sorbonne.NsoCommon.{DeviceId, L2Addr}
use nrg_5_sorbonne.NsoIf.{NsoIf}
use nrg_5_sorbonne.Packet.{Packet, get_devid}
use nrg_5_sorbonne.Table.Lookup.{Found-absent}
use nrg_5_sorbonne.Arp.{ArpEntry, ArpTable, arp_table_lock, arp_table_lookup_from_dev_id_unsafe}
use nrg_5_sorbonne.Arp.Invariant.{IsArpTable, arp_entries}
use nrg_5_sorbonne.Arp.Operations.{has_dev_id, arp_table_lookup_from_dev_id_unsafe-Found}
use nrg_5_sorbonne.Tsd.{touch_arp}
use nrg_5_sorbonne.Tsd.Beacon.{relock}
use nrg_5_sorbonne.Nso.State.{Env, NsoLayer}
use nrg_5_sorbonne.Nso.Forward.{
  Hop, Forwarded, find_hop, nso_layer_fwd, fwd_by, send_to_hop, send_to_entry, leave,
}
use nrg_5_sorbonne.Son.{neighbor_maintain}
use nrg_5_sorbonne.Son.Rules.{Fails, waits, Fails-bind}

module _ ⦃K : Kernel⦄ where
  -- The program stops, or the packet is dropped and the next advertisement of a neighbour waits for
  -- ever.
  pub data Stuck (env : Env) (n : NsoLayer) (pkt : Packet) : Type 0 where
    stops : nso_layer_fwd env n pkt ≡ crash → Stuck env n pkt
    keeps_lock :
        (f : Forwarded)
        → nso_layer_fwd env n pkt ≡ ok f
        → f.success ≡ false
        → ((pkt' : Packet) (src : Option L2Addr) (iface : Option NsoIf)
            → Fails (neighbor_maintain f.nsol pkt' src iface))
        → Stuck env n pkt

  -- No entry of the table has this id.
  abbrev pub IsUnknown : DeviceId → ArpTable → Type 0
  IsUnknown id t =
      (p : Ptr) (e : ArpEntry)
      → mem p (arp_entries t) ≡ true
      → t.heap.cell p ≡ some e
      → has_dev_id id e ≡ false

  lookup-none :
      (id : DeviceId) (t : ArpTable)
      → IsArpTable t
      → IsUnknown id t
      → arp_table_lookup_from_dev_id_unsafe t id ≡ ok none
  lookup-none id t w u = Found-absent (arp_table_lookup_from_dev_id_unsafe-Found t id w) u

  locked-Fails :
      (n : NsoLayer) (pkt : Packet) (src : Option L2Addr) (iface : Option NsoIf)
      → n.arpt.arpt_lock ≡ true
      → Fails (neighbor_maintain n pkt src iface)
  unfolding neighbor_maintain touch_arp
  locked-Fails n pkt src iface held = Fails-bind (get_devid pkt 0) _ λ id. rw held waits

  -- If the lookups of nso_layer_fwd give a next hop, the ARP table is well formed and unlocked,
  -- and has no entry for that hop, then nso_layer_fwd crashes, or it returns an error in a state
  -- in which __neighbor_maintain does not return for any packet.
  pub nso_layer_fwd-Stuck :
      (env : Env) (n m : NsoLayer) (pkt : Packet) (dst : DeviceId) (hop : Hop)
      → get_devid pkt 8 ≡ ok dst
      → find_hop n dst ≡ ok (some hop, m)
      → IsArpTable m.arpt
      → m.arpt.arpt_lock ≡ false
      → IsUnknown hop.nxt m.arpt
      → Stuck env n pkt
  unfolding nso_layer_fwd fwd_by send_to_hop send_to_entry leave arp_table_lock
  nso_layer_fwd-Stuck env n m pkt dst hop d found w free u =
      let t1 : ArpTable = record m.arpt { arpt_lock = true } in
      let miss = lookup-none hop.nxt t1 (relock true w) u in
      elim (Bool-cases env.stray_null) [
        | inl null ↦
            keeps_lock (record { nsol = record m { arpt = t1 }; pkt = pkt; success = false })
              (rw (d, found, free, miss, null) refl) refl
              λ q src iface. locked-Fails (record m { arpt = t1 }) q src iface refl
        | inr set ↦ stops (rw (d, found, free, miss, set) refl)
      ]
