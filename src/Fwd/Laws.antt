-- ===== src/Fwd/Laws.antt =====
-- The operations of bs/src/bs_lib/fwding.c on a forwarding table.
use nrg_5_sorbonne.Base.{
  ◌-◌, ◌<◌, ◌^◌, ◌≡◌, refl, sym, ap, Bool, true, false, Option, some, List, [], ◌∷◌, ◌++◌, mem,
  remove, length,
}
use nrg_5_sorbonne.Kernel.{Ptr, Kernel}
use nrg_5_sorbonne.Memory.{Returns, returns, Returns-bind}
use nrg_5_sorbonne.Memory.Laws.{IsHeap}
use nrg_5_sorbonne.NsoCommon.{DeviceId, device_id_equal, hash_device_id}
use nrg_5_sorbonne.NsoCommon.Bytes.{device_id_equal-eq}
use nrg_5_sorbonne.Table.{is_expired, expired}
use nrg_5_sorbonne.Table.Lookup.{Found}
use nrg_5_sorbonne.Table.Destroy.{Drained}
use nrg_5_sorbonne.Table.Indexed.Laws.{
  members, cells, IsIndexed, clear-IsIndexed, Inserted, insert_back-Inserted, find-Found,
  unlink-IsIndexed,
}
use nrg_5_sorbonne.Table.Indexed.Ages.{Aged, age-Aged, destroy-Drained}
use nrg_5_sorbonne.Fwd.{
  FwdEntry, FwdTable, fwd_key, fwd_table_init, fwd_table_add, fwd_table_lookup,
  fwd_table_lookup_unsafe, fwd_table_del, fwd_table_aging, set_fwd_status, fwd_table_destroy,
}

module _ ⦃K : Kernel⦄ where
  abbrev pub IsFwdTable : FwdTable → Type 0
  IsFwdTable t = IsIndexed fwd_key t.table

  abbrev pub fwd_members : FwdTable → List Ptr
  fwd_members t = members t.table

  abbrev pub fwd_cell : FwdTable → Ptr → Option FwdEntry
  fwd_cell t = cells t.table

  abbrev pub fwd_has : DeviceId → FwdEntry → Bool
  fwd_has id e = device_id_equal id e.dest

  pub fwd_table_init-IsFwdTable :
      (t : FwdTable)
      → IsHeap t.table.heap
      → IsFwdTable (fwd_table_init t) × (fwd_members (fwd_table_init t) ≡ [])
  unfolding fwd_table_init
  fwd_table_init-IsFwdTable t w = clear-IsIndexed fwd_key 12 t.table w

  -- Adding an allocated entry that is not in a well-formed forwarding table returns a well-formed
  -- table with that entry at the end, on the same heap; the lock is as before.
  pub fwd_table_add-Inserted :
      (t : FwdTable) (p : Ptr) (e : FwdEntry)
      → IsFwdTable t
      → fwd_cell t p ≡ some e
      → mem p (fwd_members t) ≡ false
      → Returns
          (λ t'.
            Inserted fwd_key t.table (fwd_members t ++ p ∷ []) t'.table
            × (t'.fwdt_lock ≡ t.fwdt_lock))
          (fwd_table_add t p)
  unfolding fwd_table_add
  fwd_table_add-Inserted t p e w c fresh =
      (Returns-bind (insert_back-Inserted fwd_key t.table p e w c fresh) λ t1 i. returns (i, refl))

  pub fwd_table_lookup_unsafe-Found :
      (t : FwdTable) (id : DeviceId)
      → IsFwdTable t
      → Found (fwd_has id) (fwd_cell t) (fwd_members t) (fwd_table_lookup_unsafe t id)
  unfolding fwd_table_lookup_unsafe
  fwd_table_lookup_unsafe-Found t id w =
      find-Found fwd_key t.table (hash_device_id id) (fwd_has id) w
        λ e h. ap hash_device_id (sym (device_id_equal-eq id e.dest h))

  -- On a well-formed forwarding table the lookup, which takes no lock, returns an entry of the
  -- table for the destination, or NULL if there is none.
  pub fwd_table_lookup-Found :
      (t : FwdTable) (id : DeviceId)
      → IsFwdTable t
      → Found (fwd_has id) (fwd_cell t) (fwd_members t) (fwd_table_lookup t id)
  unfolding fwd_table_lookup fwd_table_lookup_unsafe
  fwd_table_lookup-Found t id w = fwd_table_lookup_unsafe-Found t id w

  -- Deleting an entry of a well-formed forwarding table leaves a well-formed table without it, on
  -- the same heap: the entry stays allocated.
  pub fwd_table_del-IsFwdTable :
      (t : FwdTable) (p : Ptr)
      → IsFwdTable t
      → mem p (fwd_members t) ≡ true
      → IsFwdTable (fwd_table_del t p)
        × (fwd_members (fwd_table_del t p) ≡ remove p (fwd_members t))
        × ((fwd_table_del t p).table.heap ≡ t.table.heap)
  unfolding fwd_table_del
  fwd_table_del-IsFwdTable t p w here = unlink-IsIndexed fwd_key t.table p w here

  abbrev pub fwd_is_old : FwdEntry → Bool
  fwd_is_old e = is_expired e.status

  -- Where malloc gives the array for the expired entries, aging of a well-formed forwarding table
  -- returns a well-formed table with the lock as before: the entries that were expired are out of
  -- the list and freed, the others are expired now.
  pub fwd_table_aging-Aged :
      (t : FwdTable)
      → IsFwdTable t
      → Returns
          (λ t'.
            Aged fwd_key fwd_is_old (set_fwd_status expired) t.table t'.table
            × (t'.fwdt_lock ≡ t.fwdt_lock))
          (fwd_table_aging true t)
  unfolding fwd_table_aging set_fwd_status
  fwd_table_aging-Aged t w =
      Returns-bind (age-Aged fwd_key fwd_is_old (set_fwd_status expired) (λ e. refl) t.table w)
        λ t1 a. returns (a, refl)

  -- Destroying a well-formed forwarding table of less than 2^32 entries returns an empty list;
  -- the entries are freed, no other block changes, and `size` is -1 as a 32-bit pattern.
  pub fwd_table_destroy-Drained :
      (t : FwdTable)
      → IsFwdTable t
      → length (fwd_members t) < 2 ^ 32
      → Returns
          (λ t'. Drained members cells t.table t'.table × (t'.table.size ≡ 2 ^ 32 - 1))
          (fwd_table_destroy t)
  unfolding fwd_table_destroy
  fwd_table_destroy-Drained t w small =
      Returns-bind (destroy-Drained fwd_key t.table w small) λ t1 d. returns d
