-- ===== src/Arp/Operations.antt =====
-- The operations of bs/src/bs_lib/arp.c but aging and destroying.
use nrg_5_sorbonne.Base.{
  ◌≡◌, refl, sym, ap, Bool, true, false, some, [], ◌∷◌, mem, distinct, remove, is_some,
}
use nrg_5_sorbonne.Kernel.{Ptr, Kernel}
use nrg_5_sorbonne.Memory.{ok, Returns, Returns-bind, returns}
use nrg_5_sorbonne.Memory.Laws.{IsHeap, load-ok}
use nrg_5_sorbonne.NsoCommon.{
  DeviceId, L2Addr, device_id_equal, l2addr_equal, hash_device_id, hash_l2addr,
}
use nrg_5_sorbonne.NsoCommon.Bytes.{device_id_equal-eq, l2addr_equal-eq}
use nrg_5_sorbonne.Table.Linked.{Linked-add, Linked-del, Linked-empty, Listed-cons, Listed-del}
use nrg_5_sorbonne.Table.Lookup.{Found, lookup-Found, Found-Returns}
use nrg_5_sorbonne.Arp.{
  ArpEntry, ArpTable, arp_table_init, arp_table_add, arp_table_del, arp_table_del_nolock,
  arp_table_lookup_from_dev_id_unsafe, arp_table_lookup_from_l2addr_unsafe,
  arp_table_lookup_from_dev_id, arp_table_lookup_from_l2addr,
}
use nrg_5_sorbonne.Arp.Invariant.{IsArpTable, arp_entries, dev_id_key, l2addr_key}

module _ ⦃K : Kernel⦄ where
  -- A new table is well formed, empty and unlocked, whatever the block held before.
  pub arp_table_init-IsArpTable :
      (t : ArpTable)
      → IsHeap t.heap
      → IsArpTable (arp_table_init t)
        × (arp_entries (arp_table_init t) ≡ [])
        × ((arp_table_init t).arpt_lock ≡ false)
  unfolding arp_table_init mem distinct
  arp_table_init-IsArpTable t w = (
    record {
      listed = rw K.entries-init (record { live = λ p m. cc; once = refl; count = refl });
      by_dev_id = rw K.entries-init (Linked-empty dev_id_key (λ j. K.chain-init 10 j));
      by_l2addr = rw K.entries-init (Linked-empty l2addr_key (λ j. K.chain-init 10 j));
      allocated = w;
    },
    K.entries-init,
    refl,
  )

  pub record ArpAdded (t : ArpTable) (p : Ptr) (t' : ArpTable) : Type 0 where
    pub valid : IsArpTable t'
    pub front : arp_entries t' ≡ p ∷ arp_entries t
    pub same_heap : t'.heap ≡ t.heap
    pub unlocked : t'.arpt_lock ≡ false

  -- Adding an allocated entry that is not in a well-formed and unlocked ARP table returns a
  -- well-formed and unlocked table with that entry in front, on the same heap.
  pub arp_table_add-ArpAdded :
      (t : ArpTable) (p : Ptr) (e : ArpEntry)
      → IsArpTable t
      → t.arpt_lock ≡ false
      → t.heap.cell p ≡ some e
      → mem p (arp_entries t) ≡ false
      → Returns (ArpAdded t p) (arp_table_add t p)
  unfolding arp_table_add mem
  arp_table_add-ArpAdded t p e w free c fresh =
      let front = K.entries-add p t.ll_head fresh in
      rw (free, load-ok t.heap p c)
        (returns (record {
          valid = record {
            listed = rw front (Listed-cons w.listed p fresh (ap is_some c));
            by_dev_id = rw front (Linked-add dev_id_key w.by_dev_id p e c fresh _ (λ q. refl));
            by_l2addr = rw front (Linked-add l2addr_key w.by_l2addr p e c fresh _ (λ q. refl));
            allocated = w.allocated;
          };
          front = front;
          same_heap = refl;
          unlocked = refl;
        }))

  abbrev pub has_dev_id : DeviceId → ArpEntry → Bool
  has_dev_id id e = device_id_equal id e.dev_id

  abbrev pub has_l2addr : L2Addr → ArpEntry → Bool
  has_l2addr a e = l2addr_equal a e.l2addr

  pub arp_table_lookup_from_dev_id_unsafe-Found :
      (t : ArpTable) (id : DeviceId)
      → IsArpTable t
      → Found (has_dev_id id) t.heap.cell (arp_entries t) (arp_table_lookup_from_dev_id_unsafe t id)
  unfolding arp_table_lookup_from_dev_id_unsafe
  arp_table_lookup_from_dev_id_unsafe-Found t id w =
      lookup-Found dev_id_key (has_dev_id id) t.heap (hash_device_id id) w.listed w.by_dev_id
        λ e h. ap hash_device_id (sym (device_id_equal-eq id e.dev_id h))

  pub arp_table_lookup_from_l2addr_unsafe-Found :
      (t : ArpTable) (a : L2Addr)
      → IsArpTable t
      → Found (has_l2addr a) t.heap.cell (arp_entries t) (arp_table_lookup_from_l2addr_unsafe t a)
  unfolding arp_table_lookup_from_l2addr_unsafe
  arp_table_lookup_from_l2addr_unsafe-Found t a w =
      lookup-Found l2addr_key (has_l2addr a) t.heap (hash_l2addr a) w.listed w.by_l2addr
        λ e h. ap hash_l2addr (sym (l2addr_equal-eq a e.l2addr h))

  -- On a well-formed and unlocked ARP table the lookup by device id returns an entry of the table
  -- with that id, or NULL if no entry has it; the table is unlocked and as before.
  pub arp_table_lookup_from_dev_id-Found :
      (t : ArpTable) (id : DeviceId)
      → IsArpTable t
      → t.arpt_lock ≡ false
      → Returns
          (λ (r, t').
            (t' ≡ record t { arpt_lock = false })
            × Found (has_dev_id id) t.heap.cell (arp_entries t) (ok r))
          (arp_table_lookup_from_dev_id t id)
  unfolding arp_table_lookup_from_dev_id arp_table_lookup_from_dev_id_unsafe
  arp_table_lookup_from_dev_id-Found t id w free = rw free (
      Returns-bind (Found-Returns (arp_table_lookup_from_dev_id_unsafe-Found t id w))
        λ r f. returns (refl, f))

  -- On a well-formed and unlocked ARP table the lookup by link-layer address returns an entry of
  -- the table with that address, or NULL if no entry has it; the table is unlocked and as before.
  pub arp_table_lookup_from_l2addr-Found :
      (t : ArpTable) (a : L2Addr)
      → IsArpTable t
      → t.arpt_lock ≡ false
      → Returns
          (λ (r, t').
            (t' ≡ record t { arpt_lock = false })
            × Found (has_l2addr a) t.heap.cell (arp_entries t) (ok r))
          (arp_table_lookup_from_l2addr t a)
  unfolding arp_table_lookup_from_l2addr arp_table_lookup_from_l2addr_unsafe
  arp_table_lookup_from_l2addr-Found t a w free = rw free (
      Returns-bind (Found-Returns (arp_table_lookup_from_l2addr_unsafe-Found t a w))
        λ r f. returns (refl, f))

  -- Deleting an entry takes it out of the list and both hash tables, and leaves it allocated.
  pub arp_table_del_nolock-IsArpTable :
      (t : ArpTable) (p : Ptr)
      → IsArpTable t
      → mem p (arp_entries t) ≡ true
      → IsArpTable (arp_table_del_nolock t p)
        × (arp_entries (arp_table_del_nolock t p) ≡ remove p (arp_entries t))
  unfolding arp_table_del_nolock
  arp_table_del_nolock-IsArpTable t p w here =
      let left = K.entries-del p t.ll_head here in
      (
        record {
          listed = rw left (Listed-del w.listed p here);
          by_dev_id = rw left (Linked-del dev_id_key w.by_dev_id p);
          by_l2addr = rw left (Linked-del l2addr_key w.by_l2addr p);
          allocated = w.allocated;
        },
        left,
      )

  pub record ArpDeleted (t : ArpTable) (p : Ptr) (t' : ArpTable) : Type 0 where
    pub valid : IsArpTable t'
    pub left : arp_entries t' ≡ remove p (arp_entries t)
    pub same_heap : t'.heap ≡ t.heap
    pub unlocked : t'.arpt_lock ≡ false

  -- Deleting an entry of a well-formed and unlocked ARP table returns a well-formed and unlocked
  -- table without it, on the same heap: the entry stays allocated.
  pub arp_table_del-ArpDeleted :
      (t : ArpTable) (p : Ptr)
      → IsArpTable t
      → t.arpt_lock ≡ false
      → mem p (arp_entries t) ≡ true
      → Returns (ArpDeleted t p) (arp_table_del t p)
  unfolding arp_table_del arp_table_del_nolock
  arp_table_del-ArpDeleted t p w free here =
      let (v, left) = arp_table_del_nolock-IsArpTable t p w here in
      rw free (
        returns (record {
          valid = record {
            listed = v.listed;
            by_dev_id = v.by_dev_id;
            by_l2addr = v.by_l2addr;
            allocated = w.allocated;
          };
          left = left;
          same_heap = refl;
          unlocked = refl;
        }))
