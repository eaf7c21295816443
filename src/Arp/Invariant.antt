-- ===== src/Arp/Invariant.antt =====
-- When an ARP table is well formed.
use nrg_5_sorbonne.Base.{ℕ, List}
use nrg_5_sorbonne.Kernel.{Ptr, Kernel}
use nrg_5_sorbonne.Memory.Laws.{IsHeap}
use nrg_5_sorbonne.NsoCommon.{hash_device_id, hash_l2addr}
use nrg_5_sorbonne.Table.Linked.{Listed, Linked}
use nrg_5_sorbonne.Arp.{ArpEntry, ArpTable}

module _ ⦃K : Kernel⦄ where
  abbrev pub arp_entries : ArpTable → List Ptr
  arp_entries t = K.entries t.ll_head

  abbrev pub dev_id_key : ArpEntry → ℕ
  dev_id_key e = hash_device_id e.dev_id

  abbrev pub l2addr_key : ArpEntry → ℕ
  l2addr_key e = hash_l2addr e.l2addr

  -- The list holds each entry once, all of them allocated, `size` counts them, and each hash
  -- table holds the same entries in the buckets of their keys.
  pub record IsArpTable (t : ArpTable) : Type 0 where
    pub listed : Listed t.heap.cell (arp_entries t) t.size
    pub by_dev_id : Linked dev_id_key t.heap.cell (arp_entries t) t.ht_dev_id
    pub by_l2addr : Linked l2addr_key t.heap.cell (arp_entries t) t.ht_l2addr
    pub allocated : IsHeap t.heap
