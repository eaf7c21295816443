-- ===== src/Tsd/Beacon.antt =====
-- The ARP table in __fwd_beacon of bs/src/bs_lib/nso_tsd.c.
use nrg_5_sorbonne.Base.{
  Bool-cases, inl, inr, ◌≡◌, ◌≢◌, refl, sym, Bool, true, false, Option, none, some, List, arith,
  mem, ◌==◌, length,
}
use nrg_5_sorbonne.Base.Members.{mem-head}
use nrg_5_sorbonne.Kernel.{Kernel, Ptr}
use nrg_5_sorbonne.Memory.{ok, store, Returns, returns, Returns-bind, Returns-mono}
use nrg_5_sorbonne.Memory.Laws.{
  malloc-some, load-ok, grown, grown-IsHeap, grown-old, grown-new, store-IsHeap, next-fresh,
}
use nrg_5_sorbonne.NsoCommon.{DeviceId, L2Addr, alloc_l2addr}
use nrg_5_sorbonne.NsoCommon.Bytes.{device_id_equal-eq}
use nrg_5_sorbonne.Packet.Contents.{take-all}
use nrg_5_sorbonne.Table.{active}
use nrg_5_sorbonne.Table.Lookup.{Found, Found-some, Found-none, Found-Returns}
use nrg_5_sorbonne.Arp.{ArpEntry, ArpTable, set_arp_status, alloc_arp_entry}
use nrg_5_sorbonne.Arp.Invariant.{IsArpTable, arp_entries}
use nrg_5_sorbonne.Arp.Operations.{
  arp_table_lookup_from_dev_id_unsafe-Found, has_dev_id, arp_table_add-ArpAdded,
}
use nrg_5_sorbonne.Arp.Ages.{IsArpTable-keep}
use nrg_5_sorbonne.Tsd.{touch_arp, touch_arp_at}

whole-l2addr : (mac : L2Addr) → alloc_l2addr (length mac) mac ≡ mac
unfolding alloc_l2addr
whole-l2addr mac = take-all (length mac) mac (omega arith)

module _ ⦃K : Kernel⦄ where
  -- The table has an active entry with this id.
  pub record HasActive (id : DeviceId) (t : ArpTable) : Type 0 where
    pub at : Ptr
    pub entry : ArpEntry
    pub listed : mem at (arp_entries t) ≡ true
    pub cell : t.heap.cell at ≡ some entry
    pub of_id : entry.dev_id ≡ id
    pub is_active : entry.status ≡ active

  -- Where the address of the device comes from: the entry that the table had for it keeps its own;
  -- for a device that had none it is the address that the frame came from.
  pub data AddressFrom (id : DeviceId) (mac : L2Addr) (ps : List Ptr) (cell : Ptr → Option ArpEntry)
      (a : L2Addr) : Type 0 where
    kept :
        (p : Ptr) (e : ArpEntry)
        → mem p ps ≡ true
        → cell p ≡ some e
        → has_dev_id id e ≡ true
        → a ≡ e.l2addr
        → AddressFrom id mac ps cell a
    of_frame :
        ((p : Ptr) (e : ArpEntry) → mem p ps ≡ true → cell p ≡ some e → has_dev_id id e ≡ false)
        → a ≡ mac
        → AddressFrom id mac ps cell a

  pub record TouchedIn (id : DeviceId) (mac : L2Addr) (ps : List Ptr) (cell : Ptr → Option ArpEntry)
      (t' : ArpTable) : Type 0 where
    pub valid : IsArpTable t'
    pub has : HasActive id t'
    pub address : AddressFrom id mac ps cell has.entry.l2addr
    pub unlocked : t'.arpt_lock ≡ false

  -- What the table `t` becomes when `id` is heard of from the address `mac`.
  abbrev pub Touched : DeviceId → L2Addr → ArpTable → ArpTable → Type 0
  Touched id mac t = TouchedIn id mac (arp_entries t) t.heap.cell

  pub relock : {t : ArpTable} (b : Bool) → IsArpTable t → IsArpTable (record t { arpt_lock = b })
  relock b w = record {
    listed = w.listed;
    by_dev_id = w.by_dev_id;
    by_l2addr = w.by_l2addr;
    allocated = w.allocated;
  }

  pub touch_arp_at-Touched :
      (o : Option Ptr) (id : DeviceId) (mac : L2Addr) (t : ArpTable)
      → IsArpTable t
      → (o ≡ none → t.heap.room ≢ 0)
      → Found (has_dev_id id) t.heap.cell (arp_entries t) (ok o)
      → Returns (Touched id mac t) (touch_arp_at o id (some mac) t)
  unfolding touch_arp_at alloc_arp_entry store set_arp_status
  touch_arp_at-Touched (some p) id mac t w room f =
      let (e, m, c, is) = Found-some p f in
      let e' = set_arp_status active e in
      rw (load-ok t.heap p c) (
        returns (record {
          valid = relock false (
              IsArpTable-keep t (store p e' t.heap) w (store-IsHeap p e' t.heap w.allocated c)
                (λ q g here d. elim (Bool-cases (q == p)) [
                  | inl same ↦ (e', ground arith, ground arith, ground arith)
                  | inr other ↦ (g, ground arith, refl, refl)
                ]));
          has = record {
            at = p;
            entry = e';
            listed = m;
            cell = ground arith;
            of_id = sym (device_id_equal-eq id e.dev_id is);
            is_active = refl;
          };
          address = kept p e m c is refl;
          unlocked = refl;
        }))
  touch_arp_at-Touched none id mac t w room f =
      let e : ArpEntry = record {
        dev_id = id;
        l2addr = alloc_l2addr (length mac) mac;
        status = active;
      } in
      let fresh = next-fresh t.heap (arp_entries t) w.allocated w.listed.live in
      let v =
        IsArpTable-keep t (grown e t.heap) w (grown-IsHeap e t.heap w.allocated)
          (λ q g here d. (g, grown-old e t.heap q w.allocated d, refl, refl)) in
      rw (malloc-some t.heap e (room refl)) (
        Returns-mono
          (arp_table_add-ArpAdded (record t { heap = grown e t.heap; arpt_lock = false })
            t.heap.next e (relock false v) refl (grown-new e t.heap) fresh)
          λ t' a. record {
            valid = a.valid;
            has = record {
              at = t.heap.next;
              entry = e;
              listed = rw a.front (mem-head t.heap.next (arp_entries t));
              cell = rw a.same_heap (grown-new e t.heap);
              of_id = refl;
              is_active = refl;
            };
            address = of_frame (Found-none f) (whole-l2addr mac);
            unlocked = a.unlocked;
          })

  -- On a well-formed, unlocked ARP table, with room on the heap: after a device is heard of, the
  -- table is well formed and unlocked, and has an active entry with the device's id: with the
  -- address of the entry that it had for it or, if it had none, with the address of the frame.
  pub touch_arp-Touched :
      (id : DeviceId) (mac : L2Addr) (t : ArpTable)
      → IsArpTable t
      → t.arpt_lock ≡ false
      → t.heap.room ≢ 0
      → Returns (Touched id mac t) (touch_arp id (some mac) t)
  unfolding touch_arp
  touch_arp-Touched id mac t w free room =
      let t1 : ArpTable = record t { arpt_lock = true } in
      rw free (
        Returns-bind
          (Found-Returns (arp_table_lookup_from_dev_id_unsafe-Found t1 id (relock true w)))
          λ o f. touch_arp_at-Touched o id mac t1 (relock true w) (λ _. room) f)
