-- ===== src/Tests/Nbr.antt =====
-- A neighbour table with two devices, one of them expired.
use nrg_5_sorbonne.Base.{◌≡◌, refl, mem, false, none, some, [], ◌∷◌, arith}
use nrg_5_sorbonne.NsoCommon.{hash_device_id}
use nrg_5_sorbonne.Table.{active, expired}
use nrg_5_sorbonne.Table.Indexed.{clear, insert_front}
use nrg_5_sorbonne.Table.Indexed.Laws.{Inserted}
use nrg_5_sorbonne.Nbr.{NbrEntry, NbrTable, nbr_key, nbr_table_init, nbr_table_add}
use nrg_5_sorbonne.Nbr.Laws.{
  IsNbrTable, nbr_members, nbr_table_init-IsNbrTable, nbr_table_add-Inserted,
}
use nrg_5_sorbonne.Memory.{Heap, update, Returns, Returns-ok, load}
use nrg_5_sorbonne.Memory.Laws.{IsHeap}
use nrg_5_sorbonne.Tests.Linux.{linux}
use nrg_5_sorbonne.Tests.Fwd.{wlan}

abbrev pub nbr_7 : NbrEntry
nbr_7 = record { dev_id = 7; metric = record { w = 1 }; iface = some wlan; status = expired }

abbrev pub nbr_9 : NbrEntry
nbr_9 = record { dev_id = 9; metric = record { w = 1 }; iface = some wlan; status = active }

abbrev nbr_heap : Heap NbrEntry
nbr_heap = record {
  cell = update (update (λ _. none) 1 (some nbr_7)) 2 (some nbr_9);
  next = 3;
  room = 5;
}

nbr_heap-IsHeap : IsHeap nbr_heap
nbr_heap-IsHeap p b = ground arith

abbrev pub nbr_none : NbrTable
nbr_none = record {
  table = record { size = 0; ll_head = []; ht = (10, []); heap = nbr_heap };
  nbrt_lock = false;
}

abbrev pub nbr_one : NbrTable
nbr_one = record {
  table = record {
    size = 1;
    ll_head = 1 ∷ [];
    ht = (10, (1, hash_device_id 7) ∷ []);
    heap = nbr_heap;
  };
  nbrt_lock = false;
}

abbrev pub nbr_two : NbrTable
nbr_two = record {
  table = record {
    size = 2;
    ll_head = 2 ∷ 1 ∷ [];
    ht = (10, (2, hash_device_id 9) ∷ (1, hash_device_id 7) ∷ []);
    heap = nbr_heap;
  };
  nbrt_lock = false;
}

pub nbr_none-IsNbrTable : IsNbrTable nbr_none
unfolding nbr_table_init clear
nbr_none-IsNbrTable = (nbr_table_init-IsNbrTable nbr_none nbr_heap-IsHeap).0

nbr_one-IsNbrTable : IsNbrTable nbr_one
unfolding nbr_table_add insert_front load mem
nbr_one-IsNbrTable =
    (Returns-ok
      (nbr_table_add-Inserted nbr_none 1 nbr_7 nbr_none-IsNbrTable refl refl refl)).0.valid

pub nbr_two-IsNbrTable : IsNbrTable nbr_two
unfolding nbr_table_add insert_front load mem
nbr_two-IsNbrTable =
    (Returns-ok (nbr_table_add-Inserted nbr_one 2 nbr_9 nbr_one-IsNbrTable refl refl refl)).0.valid

nbr_table_add-Inserted_example :
    Returns
      (λ t'.
        Inserted nbr_key nbr_one.table (2 ∷ nbr_members nbr_one) t'.table × (t'.nbrt_lock ≡ false))
      (nbr_table_add nbr_one 2)
unfolding mem
nbr_table_add-Inserted_example =
    nbr_table_add-Inserted nbr_one 2 nbr_9 nbr_one-IsNbrTable refl refl refl
