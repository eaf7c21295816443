-- ===== src/Nbr/Laws.antt =====
-- The operations of bs/src/bs_lib/neighbor.c on the neighbour table.
use nrg_5_sorbonne.Base.{
  ◌-◌, ◌<◌, ◌^◌, ◌≡◌, refl, sym, ap, Bool, true, false, Option, some, List, [], ◌∷◌, mem, remove,
  length,
}
use nrg_5_sorbonne.Kernel.{Ptr, Kernel}
use nrg_5_sorbonne.Memory.{ok, Returns, returns, Returns-bind}
use nrg_5_sorbonne.Memory.Laws.{IsHeap}
use nrg_5_sorbonne.NsoCommon.{DeviceId, device_id_equal, hash_device_id}
use nrg_5_sorbonne.NsoCommon.Bytes.{device_id_equal-eq}
use nrg_5_sorbonne.Table.{is_expired, expired}
use nrg_5_sorbonne.Table.Lookup.{Found, Found-Returns}
use nrg_5_sorbonne.Table.Destroy.{Drained}
use nrg_5_sorbonne.Table.Indexed.Laws.{
  members, cells, IsIndexed, clear-IsIndexed, Inserted, insert_front-Inserted, find-Found,
  unlink-IsIndexed,
}
use nrg_5_sorbonne.Table.Indexed.Ages.{Aged, age-Aged, destroy-Drained}
use nrg_5_sorbonne.Nbr.{
  NbrEntry, NbrTable, nbr_key, nbr_table_init, nbr_table_add, nbr_table_lookup,
  nbr_table_lookup_unsafe, nbr_table_del, nbr_table_aging, set_nbr_status, nbr_table_destroy,
}

module _ ⦃K : Kernel⦄ where
  abbrev pub IsNbrTable : NbrTable → Type 0
  IsNbrTable t = IsIndexed nbr_key t.table

  abbrev pub nbr_members : NbrTable → List Ptr
  nbr_members t = members t.table

  abbrev pub nbr_cell : NbrTable → Ptr → Option NbrEntry
  nbr_cell t = cells t.table

  abbrev pub nbr_has : DeviceId → NbrEntry → Bool
  nbr_has id e = device_id_equal id e.dev_id

  pub nbr_table_init-IsNbrTable :
      (t : NbrTable)
      → IsHeap t.table.heap
      → IsNbrTable (nbr_table_init t) × (nbr_members (nbr_table_init t) ≡ [])
  unfolding nbr_table_init
  nbr_table_init-IsNbrTable t w = clear-IsIndexed nbr_key 10 t.table w

  -- Adding an allocated entry that is not in a well-formed and unlocked neighbour table returns a
  -- well-formed and unlocked table with that entry in front, on the same heap.
  pub nbr_table_add-Inserted :
      (t : NbrTable) (p : Ptr) (e : NbrEntry)
      → IsNbrTable t
      → t.nbrt_lock ≡ false
      → nbr_cell t p ≡ some e
      → mem p (nbr_members t) ≡ false
      → Returns
          (λ t'. Inserted nbr_key t.table (p ∷ nbr_members t) t'.table × (t'.nbrt_lock ≡ false))
          (nbr_table_add t p)
  unfolding nbr_table_add
  nbr_table_add-Inserted t p e w free c fresh =
      rw free (
        Returns-bind (insert_front-Inserted nbr_key t.table p e w c fresh)
          λ t1 i. returns (i, refl))

  pub nbr_table_lookup_unsafe-Found :
      (t : NbrTable) (id : DeviceId)
      → IsNbrTable t
      → Found (nbr_has id) (nbr_cell t) (nbr_members t) (nbr_table_lookup_unsafe t id)
  unfolding nbr_table_lookup_unsafe
  nbr_table_lookup_unsafe-Found t id w =
      find-Found nbr_key t.table (hash_device_id id) (nbr_has id) w
        λ e h. ap hash_device_id (sym (device_id_equal-eq id e.dev_id h))

  -- On a well-formed and unlocked neighbour table the lookup returns an entry of the table with
  -- the device id, or NULL if no entry has it; the table is unlocked and as before.
  pub nbr_table_lookup-Found :
      (t : NbrTable) (id : DeviceId)
      → IsNbrTable t
      → t.nbrt_lock ≡ false
      → Returns
          (λ (r, t').
            (t' ≡ record t { nbrt_lock = false })
            × Found (nbr_has id) (nbr_cell t) (nbr_members t) (ok r))
          (nbr_table_lookup t id)
  unfolding nbr_table_lookup nbr_table_lookup_unsafe
  nbr_table_lookup-Found t id w free =
      rw free (
        Returns-bind (Found-Returns (nbr_table_lookup_unsafe-Found t id w))
          λ r f. returns (refl, f))

  -- Deleting an entry of a well-formed and unlocked neighbour table returns a well-formed and
  -- unlocked table without it, on the same heap: the entry stays allocated.
  pub nbr_table_del-IsNbrTable :
      (t : NbrTable) (p : Ptr)
      → IsNbrTable t
      → t.nbrt_lock ≡ false
      → mem p (nbr_members t) ≡ true
      → Returns
          (λ t'.
            IsNbrTable t'
            × (nbr_members t' ≡ remove p (nbr_members t))
            × (t'.table.heap ≡ t.table.heap)
            × (t'.nbrt_lock ≡ false))
          (nbr_table_del t p)
  unfolding nbr_table_del
  nbr_table_del-IsNbrTable t p w free here =
      let (v, left, same) = unlink-IsIndexed nbr_key t.table p w here in
      rw free (returns (v, left, same, refl))

  abbrev pub nbr_is_old : NbrEntry → Bool
  nbr_is_old e = is_expired e.status

  -- On a well-formed and unlocked neighbour table aging returns a well-formed and unlocked table:
  -- the entries that were expired are out of the list and freed, the others are expired now.
  pub nbr_table_aging-Aged :
      (t : NbrTable)
      → IsNbrTable t
      → t.nbrt_lock ≡ false
      → Returns
          (λ t'.
            Aged nbr_key nbr_is_old (set_nbr_status expired) t.table t'.table
            × (t'.nbrt_lock ≡ false))
          (nbr_table_aging true t)
  unfolding nbr_table_aging set_nbr_status
  nbr_table_aging-Aged t w free = rw free (
      Returns-bind (age-Aged nbr_key nbr_is_old (set_nbr_status expired) (λ e. refl) t.table w)
        λ t1 a. returns (a, refl))

  -- Destroying a well-formed neighbour table of less than 2^32 entries returns an empty list; the
  -- entries are freed, no other block changes, and `size` is -1 as a 32-bit pattern.
  pub nbr_table_destroy-Drained :
      (t : NbrTable)
      → IsNbrTable t
      → length (nbr_members t) < 2 ^ 32
      → Returns
          (λ t'. Drained members cells t.table t'.table × (t'.table.size ≡ 2 ^ 32 - 1))
          (nbr_table_destroy t)
  unfolding nbr_table_destroy
  nbr_table_destroy-Drained t w small =
      Returns-bind (destroy-Drained nbr_key t.table w small) λ t1 d. returns d
