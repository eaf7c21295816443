-- ===== src/Arp.antt =====
-- bs/src/bs_lib/arp.c and include/arp.h: the ARP table, from device ids to link-layer addresses
-- and back. A table is a value with the heap that its entries are on. The functions of arp.c take
-- the lock and give it back; `…_unsafe` and `…_nolock` do neither.
pub mod Invariant
pub mod Operations
pub mod Ages
use nrg_5_sorbonne.Base.{
  ℕ, zero, suc, Bool, true, false, Option, none, some, List, [], ◌∷◌, if◌then◌else◌,
}
use nrg_5_sorbonne.Kernel.{Ptr, Kernel}
use nrg_5_sorbonne.Memory.{Run, ok, crash, ◌>>=◌, mutex_lock, Heap, malloc, load, store, free}
use nrg_5_sorbonne.NsoCommon.{
  DeviceId, L2Addr, device_id_equal, l2addr_equal, hash_device_id, hash_l2addr,
}
use nrg_5_sorbonne.Table.{
  EntryStatus, active, expired, is_expired, incr, decr, scan, mark, sweep, drain,
}
use nrg_5_sorbonne.Table.Destroy.{first}

pub record ArpEntry : Type 0 where
  pub dev_id : DeviceId
  pub l2addr : L2Addr
  pub status : EntryStatus

unfoldable pub alloc_arp_entry : DeviceId → L2Addr → Heap ArpEntry → Option Ptr × Heap ArpEntry
alloc_arp_entry dev_id l2addr h =
    malloc (record { dev_id = dev_id; l2addr = l2addr; status = active }) h

-- ARPT_HASH_BITS
abbrev pub arpt_hash_bits : ℕ
arpt_hash_bits = 10

module _ ⦃K : Kernel⦄ where
  pub record ArpTable : Type 0 where
    pub size : ℕ
    pub ll_head : K.ListHead
    pub ht_dev_id : K.HashTable
    pub ht_l2addr : K.HashTable
    pub arpt_lock : Bool
    pub heap : Heap ArpEntry

  unfoldable pub arp_table_init : ArpTable → ArpTable
  arp_table_init tbl = record tbl {
    size = 0;
    ll_head = K.init_list_head;
    ht_dev_id = K.hash_init arpt_hash_bits;
    ht_l2addr = K.hash_init arpt_hash_bits;
    arpt_lock = false;
  }

  -- The argument is what malloc returned, with whatever the block holds.
  unfoldable pub arp_table_create : Option ArpTable → Option ArpTable
  unfolding arp_table_init
  arp_table_create none = none
  arp_table_create (some arpt) = some (arp_table_init arpt)

  unfoldable pub arp_table_lock : ArpTable → Run ArpTable
  arp_table_lock arpt = mutex_lock arpt.arpt_lock >>= λ l. ok (record arpt { arpt_lock = l })

  unfoldable pub arp_table_unlock : ArpTable → ArpTable
  arp_table_unlock arpt = record arpt { arpt_lock = false }

  unfoldable pub arp_table_add : ArpTable → Ptr → Run ArpTable
  unfolding arp_table_lock arp_table_unlock
  arp_table_add tbl e = do
    tbl ← arp_table_lock tbl
    entry ← load tbl.heap e
    ok (
        arp_table_unlock (record tbl {
          ll_head = K.list_add e tbl.ll_head;
          ht_dev_id = K.hash_add e (hash_device_id entry.dev_id) tbl.ht_dev_id;
          ht_l2addr = K.hash_add e (hash_l2addr entry.l2addr) tbl.ht_l2addr;
          size = incr tbl.size;
        }))

  unfoldable pub arp_table_lookup_from_dev_id_unsafe : ArpTable → DeviceId → Run (Option Ptr)
  arp_table_lookup_from_dev_id_unsafe tbl dev_id =
      scan (λ pos. device_id_equal dev_id pos.dev_id) tbl.heap
        (K.chain tbl.ht_dev_id (hash_device_id dev_id))

  unfoldable pub arp_table_lookup_from_l2addr_unsafe : ArpTable → L2Addr → Run (Option Ptr)
  arp_table_lookup_from_l2addr_unsafe tbl addr =
      scan (λ pos. l2addr_equal addr pos.l2addr) tbl.heap (K.chain tbl.ht_l2addr (hash_l2addr addr))

  unfoldable pub arp_table_lookup_from_dev_id : ArpTable → DeviceId → Run (Option Ptr × ArpTable)
  unfolding arp_table_lock arp_table_unlock
  arp_table_lookup_from_dev_id tbl dev_id = do
    tbl ← arp_table_lock tbl
    pos ←
        scan (λ pos. device_id_equal dev_id pos.dev_id) tbl.heap
          (K.chain tbl.ht_dev_id (hash_device_id dev_id))
    ok (pos, arp_table_unlock tbl)

  unfoldable pub arp_table_lookup_from_l2addr : ArpTable → L2Addr → Run (Option Ptr × ArpTable)
  unfolding arp_table_lock arp_table_unlock
  arp_table_lookup_from_l2addr tbl addr = do
    tbl ← arp_table_lock tbl
    pos ←
        scan (λ pos. l2addr_equal addr pos.l2addr) tbl.heap
          (K.chain tbl.ht_l2addr (hash_l2addr addr))
    ok (pos, arp_table_unlock tbl)

  unfoldable pub arp_table_del_nolock : ArpTable → Ptr → ArpTable
  arp_table_del_nolock tbl e = record tbl {
    ll_head = K.list_del e tbl.ll_head;
    ht_dev_id = K.hash_del e tbl.ht_dev_id;
    ht_l2addr = K.hash_del e tbl.ht_l2addr;
    size = decr tbl.size;
  }

  unfoldable pub arp_table_del : ArpTable → Ptr → Run ArpTable
  unfolding arp_table_lock arp_table_unlock
  arp_table_del tbl e = do
    tbl ← arp_table_lock tbl
    ok (
        arp_table_unlock (record tbl {
          ll_head = K.list_del e tbl.ll_head;
          ht_dev_id = K.hash_del e tbl.ht_dev_id;
          ht_l2addr = K.hash_del e tbl.ht_l2addr;
          size = decr tbl.size;
        }))

  -- free_arp_entry of an entry that is not NULL.
  unfoldable pub free_arp_entry : Ptr → ArpTable → Run ArpTable
  free_arp_entry e tbl = free e tbl.heap >>= λ h. ok (record tbl { heap = h })

  -- `pos->status = …`
  unfoldable pub set_arp_status : EntryStatus → ArpEntry → ArpEntry
  set_arp_status s e = record e { status = s }

  unfoldable pub arp_age_out : Ptr → ArpTable → Run ArpTable
  unfolding arp_table_del_nolock free_arp_entry
  arp_age_out e tbl = free_arp_entry e (arp_table_del_nolock tbl e)

  -- `given`: whether malloc gives the array for `rec`, which is never freed.
  unfoldable pub arp_table_aging : Bool → ArpTable → Run ArpTable
  unfolding arp_table_lock arp_table_unlock arp_age_out set_arp_status
  arp_table_aging given tbl = do
    tbl ← arp_table_lock tbl
    (rec, h) ←
        mark given (λ e. is_expired e.status) (set_arp_status expired) (K.entries tbl.ll_head) []
          tbl.heap
    tbl ← sweep arp_age_out rec (record tbl { heap = h })
    ok (arp_table_unlock tbl)

  unfoldable pub arp_destroy_first : Ptr → ArpTable → Run ArpTable
  unfolding free_arp_entry
  arp_destroy_first e tbl = free_arp_entry e (record tbl {
    ll_head = K.list_del e tbl.ll_head;
    ht_dev_id = K.hash_del e tbl.ht_dev_id;
    ht_l2addr = K.hash_del e tbl.ht_l2addr;
  })

  -- The loop tests `tbl->size` before it counts down, so it leaves -1.
  unfoldable pub arp_table_destroy : ArpTable → Run ArpTable
  unfolding arp_destroy_first
  arp_table_destroy tbl = do
    tbl ← drain (λ t. first (K.entries t.ll_head)) arp_destroy_first tbl.size tbl
    ok (record tbl { size = decr 0 })

  -- The table itself is given back to malloc; what is left is the heap of the entries.
  unfoldable pub arp_table_free : ArpTable → Run (Heap ArpEntry)
  unfolding arp_table_destroy
  arp_table_free tbl = arp_table_destroy tbl >>= λ t. ok t.heap
