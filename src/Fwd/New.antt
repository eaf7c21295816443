-- ===== src/Fwd/New.antt =====
-- fwd_table_add of bs/src/bs_lib/fwding.c for an entry that malloc has just given.
use nrg_5_sorbonne.Base.{◌≡◌, refl, Bool, some, [], ◌∷◌, ◌++◌}
use nrg_5_sorbonne.Kernel.{Kernel}
use nrg_5_sorbonne.Memory.{Returns, Returns-mono}
use nrg_5_sorbonne.Memory.Laws.{grown, grown-IsHeap, grown-old, grown-new, next-fresh}
use nrg_5_sorbonne.Table.Indexed.Laws.{IsIndexed-keep}
use nrg_5_sorbonne.Fwd.{FwdEntry, FwdTable, fwd_key, fwd_table_add}
use nrg_5_sorbonne.Fwd.Laws.{IsFwdTable, fwd_members, fwd_cell, fwd_table_add-Inserted}

module _ ⦃K : Kernel⦄ where
  -- The entry is the last one of the table.
  pub record AddedNew (t : FwdTable) (e : FwdEntry) (lock : Bool) (t' : FwdTable) : Type 0 where
    pub valid : IsFwdTable t'
    pub order : fwd_members t' ≡ fwd_members t ++ t.table.heap.next ∷ []
    pub same_heap : t'.table.heap ≡ grown e t.table.heap
    pub cell : fwd_cell t' t.table.heap.next ≡ some e
    pub lock_is : t'.fwdt_lock ≡ lock

  pub add_new-AddedNew :
      (t : FwdTable) (e : FwdEntry) (lock : Bool)
      → IsFwdTable t
      → Returns (AddedNew t e lock) (
          fwd_table_add
            (record t { table = record t.table { heap = grown e t.table.heap }; fwdt_lock = lock })
            t.table.heap.next)
  add_new-AddedNew t e lock w =
      let h = t.table.heap in
      let fresh = next-fresh h (fwd_members t) w.allocated w.listed.live in
      let v =
        IsIndexed-keep fwd_key t.table (grown e h) w (grown-IsHeap e h w.allocated)
          (λ q g here d. (g, grown-old e h q w.allocated d, refl)) in
      Returns-mono
        (fwd_table_add-Inserted
          (record t { table = record t.table { heap = grown e h }; fwdt_lock = lock }) h.next e v
          (grown-new e h) fresh)
        λ t' (i, same). record {
          valid = i.valid;
          order = i.order;
          same_heap = i.same_heap;
          cell = rw i.same_heap (grown-new e h);
          lock_is = same;
        }
