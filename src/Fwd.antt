-- ===== src/Fwd.antt =====
-- bs/src/bs_lib/fwding.c and include/fwding.h: a forwarding table. The guards in fwding.c test
-- FWD_THREAD_SAFE while the header defines FWDT_THREAD_SAFE, so the functions of fwding.c take
-- no lock and fwd_table_init leaves the mutex as malloc gave it; fwd_table_lock and
-- fwd_table_unlock of the header are not guarded.
pub mod Laws
pub mod New
use nrg_5_sorbonne.Base.{ℕ, Bool, true, false, Option, none, some}
use nrg_5_sorbonne.Kernel.{Ptr, Kernel}
use nrg_5_sorbonne.Memory.{Run, ok, ◌>>=◌, mutex_lock, non_null, Heap, malloc}
use nrg_5_sorbonne.NsoCommon.{DeviceId, device_id_equal, hash_device_id}
use nrg_5_sorbonne.NsoIf.{NsoIf}
use nrg_5_sorbonne.Table.{EntryStatus, active, expired, is_expired}
use nrg_5_sorbonne.Table.Indexed.{Indexed, clear, insert_back, find, unlink, release, age, destroy}

pub record FwdEntry : Type 0 where
  pub dest : DeviceId
  pub nxthop : DeviceId
  pub interface : NsoIf
  pub status : EntryStatus

-- The next hop of an entry: the destination itself, where none is given.
abbrev pub or_dest : Option DeviceId → DeviceId → DeviceId
or_dest none dest = dest
or_dest (some nxthop) dest = nxthop

-- `assert (interface)` stops the program at NULL.
unfoldable pub alloc_fwd_entry :
    DeviceId → Option DeviceId → Option NsoIf → Heap FwdEntry → Run (Option Ptr × Heap FwdEntry)
alloc_fwd_entry dest nxthop interface h = do
  i ← non_null interface
  ok (
      malloc (record { dest = dest; nxthop = or_dest nxthop dest; interface = i; status = active })
        h)

-- FWDT_HASH_BITS
abbrev pub fwdt_hash_bits : ℕ
fwdt_hash_bits = 12

module _ ⦃K : Kernel⦄ where
  -- `table` is the size, the list and the hash table, with the heap of the entries.
  pub record FwdTable : Type 0 where
    pub table : Indexed FwdEntry
    pub fwdt_lock : Bool

  abbrev pub fwd_key : FwdEntry → ℕ
  fwd_key e = hash_device_id e.dest

  unfoldable pub fwd_table_init : FwdTable → FwdTable
  fwd_table_init tbl = record tbl { table = clear fwdt_hash_bits tbl.table }

  -- The argument is what malloc returned, with whatever the block holds.
  unfoldable pub fwd_table_create : Option FwdTable → Option FwdTable
  unfolding fwd_table_init
  fwd_table_create none = none
  fwd_table_create (some tbl) = some (fwd_table_init tbl)

  unfoldable pub fwd_table_lock : FwdTable → Run FwdTable
  fwd_table_lock tbl = mutex_lock tbl.fwdt_lock >>= λ l. ok (record tbl { fwdt_lock = l })

  unfoldable pub fwd_table_unlock : FwdTable → FwdTable
  fwd_table_unlock tbl = record tbl { fwdt_lock = false }

  unfoldable pub fwd_table_add : FwdTable → Ptr → Run FwdTable
  fwd_table_add tbl e = insert_back fwd_key tbl.table e >>= λ t. ok (record tbl { table = t })

  unfoldable pub fwd_table_lookup : FwdTable → DeviceId → Run (Option Ptr)
  fwd_table_lookup tbl dest =
      find tbl.table (hash_device_id dest) λ pos. device_id_equal dest pos.dest

  unfoldable pub fwd_table_lookup_unsafe : FwdTable → DeviceId → Run (Option Ptr)
  fwd_table_lookup_unsafe tbl dest =
      find tbl.table (hash_device_id dest) λ pos. device_id_equal dest pos.dest

  unfoldable pub fwd_table_del : FwdTable → Ptr → FwdTable
  fwd_table_del tbl e = record tbl { table = unlink tbl.table e }

  -- free_fwd_entry of an entry that is not NULL.
  unfoldable pub free_fwd_entry : Ptr → FwdTable → Run FwdTable
  free_fwd_entry e tbl = release e tbl.table >>= λ t. ok (record tbl { table = t })

  -- `pos->status = …`
  unfoldable pub set_fwd_status : EntryStatus → FwdEntry → FwdEntry
  set_fwd_status s e = record e { status = s }

  -- `given`: whether malloc gives the array for the expired entries, which is never freed.
  unfoldable pub fwd_table_aging : Bool → FwdTable → Run FwdTable
  unfolding set_fwd_status
  fwd_table_aging given tbl = do
    t ← age given (λ e. is_expired e.status) (set_fwd_status expired) tbl.table
    ok (record tbl { table = t })

  unfoldable pub fwd_table_destroy : FwdTable → Run FwdTable
  fwd_table_destroy tbl = destroy tbl.table >>= λ t. ok (record tbl { table = t })

  -- The table itself is given back to malloc; what is left is the heap of the entries.
  unfoldable pub fwd_table_free : FwdTable → Run (Heap FwdEntry)
  unfolding fwd_table_destroy
  fwd_table_free tbl = fwd_table_destroy tbl >>= λ t. ok t.table.heap
