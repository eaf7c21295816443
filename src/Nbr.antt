-- ===== src/Nbr.antt =====
-- bs/src/bs_lib/neighbor.c and include/neighbor.h: the table of neighbours.
pub mod Laws
use nrg_5_sorbonne.Base.{ℕ, Bool, true, false, Option, none, some}
use nrg_5_sorbonne.Kernel.{Ptr, Kernel}
use nrg_5_sorbonne.Memory.{Run, ok, ◌>>=◌, mutex_lock, Heap, malloc}
use nrg_5_sorbonne.NsoCommon.{DeviceId, device_id_equal, hash_device_id}
use nrg_5_sorbonne.NsoIf.{NsoIf}
use nrg_5_sorbonne.Table.{EntryStatus, active, expired, is_expired}
use nrg_5_sorbonne.Table.Indexed.{Indexed, clear, insert_front, find, unlink, release, age, destroy}

-- The metric of a link, by value.
pub record Metric : Type 0 where
  pub w : ℕ

pub record NbrEntry : Type 0 where
  pub dev_id : DeviceId
  pub metric : Metric
  pub iface : Option NsoIf
  pub status : EntryStatus

unfoldable pub alloc_nbr_entry :
    DeviceId → Metric → Option NsoIf → Heap NbrEntry → Option Ptr × Heap NbrEntry
alloc_nbr_entry dev_id m iface h =
    malloc (record { dev_id = dev_id; metric = m; iface = iface; status = active }) h

-- NBRT_HASH_BITS
abbrev pub nbrt_hash_bits : ℕ
nbrt_hash_bits = 10

module _ ⦃K : Kernel⦄ where
  -- `table` is the size, the list and the hash table, with the heap of the entries.
  pub record NbrTable : Type 0 where
    pub table : Indexed NbrEntry
    pub nbrt_lock : Bool

  abbrev pub nbr_key : NbrEntry → ℕ
  nbr_key e = hash_device_id e.dev_id

  unfoldable pub nbr_table_init : NbrTable → NbrTable
  nbr_table_init tbl = record { table = clear nbrt_hash_bits tbl.table; nbrt_lock = false }

  -- The argument is what malloc returned, with whatever the block holds.
  unfoldable pub nbr_table_create : Option NbrTable → Option NbrTable
  unfolding nbr_table_init
  nbr_table_create none = none
  nbr_table_create (some nbrt) = some (nbr_table_init nbrt)

  unfoldable pub nbr_table_size : NbrTable → ℕ
  nbr_table_size tbl = tbl.table.size

  unfoldable pub nbr_table_lock : NbrTable → Run NbrTable
  nbr_table_lock tbl = mutex_lock tbl.nbrt_lock >>= λ l. ok (record tbl { nbrt_lock = l })

  unfoldable pub nbr_table_unlock : NbrTable → NbrTable
  nbr_table_unlock tbl = record tbl { nbrt_lock = false }

  unfoldable pub nbr_table_add : NbrTable → Ptr → Run NbrTable
  unfolding nbr_table_lock nbr_table_unlock
  nbr_table_add tbl e = do
    tbl ← nbr_table_lock tbl
    t ← insert_front nbr_key tbl.table e
    ok (nbr_table_unlock (record tbl { table = t }))

  unfoldable pub nbr_table_lookup_unsafe : NbrTable → DeviceId → Run (Option Ptr)
  nbr_table_lookup_unsafe tbl dev_id =
      find tbl.table (hash_device_id dev_id) λ pos. device_id_equal dev_id pos.dev_id

  unfoldable pub nbr_table_lookup : NbrTable → DeviceId → Run (Option Ptr × NbrTable)
  unfolding nbr_table_lock nbr_table_unlock
  nbr_table_lookup tbl dev_id = do
    tbl ← nbr_table_lock tbl
    pos ← find tbl.table (hash_device_id dev_id) λ pos. device_id_equal dev_id pos.dev_id
    ok (pos, nbr_table_unlock tbl)

  unfoldable pub nbr_table_del : NbrTable → Ptr → Run NbrTable
  unfolding nbr_table_lock nbr_table_unlock
  nbr_table_del tbl e = do
    tbl ← nbr_table_lock tbl
    ok (nbr_table_unlock (record tbl { table = unlink tbl.table e }))

  -- free_nbr_entry of an entry that is not NULL.
  unfoldable pub free_nbr_entry : Ptr → NbrTable → Run NbrTable
  free_nbr_entry e tbl = release e tbl.table >>= λ t. ok (record tbl { table = t })

  -- `pos->status = …`
  unfoldable pub set_nbr_status : EntryStatus → NbrEntry → NbrEntry
  set_nbr_status s e = record e { status = s }

  -- `given`: whether malloc gives the array for the expired entries, which is never freed.
  unfoldable pub nbr_table_aging : Bool → NbrTable → Run NbrTable
  unfolding nbr_table_lock nbr_table_unlock set_nbr_status
  nbr_table_aging given tbl = do
    tbl ← nbr_table_lock tbl
    t ← age given (λ e. is_expired e.status) (set_nbr_status expired) tbl.table
    ok (nbr_table_unlock (record tbl { table = t }))

  unfoldable pub nbr_table_destroy : NbrTable → Run NbrTable
  nbr_table_destroy tbl = destroy tbl.table >>= λ t. ok (record tbl { table = t })

  -- The table itself is given back to malloc; what is left is the heap of the entries.
  unfoldable pub nbr_table_free : NbrTable → Run (Heap NbrEntry)
  unfolding nbr_table_destroy
  nbr_table_free tbl = nbr_table_destroy tbl >>= λ t. ok t.table.heap
