-- ===== src/Tests/Fwd.antt =====
-- Forwarding tables with two routes, one of them expired.
use nrg_5_sorbonne.Base.{◌≡◌, refl, mem, ◌++◌, true, false, none, some, [], ◌∷◌, arith}
use nrg_5_sorbonne.NsoCommon.{hash_device_id}
use nrg_5_sorbonne.NsoIf.{NsoIf}
use nrg_5_sorbonne.Table.{active, expired}
use nrg_5_sorbonne.Table.Indexed.{clear, insert_back}
use nrg_5_sorbonne.Table.Indexed.Laws.{Inserted}
use nrg_5_sorbonne.Table.Indexed.Ages.{Aged}
use nrg_5_sorbonne.Fwd.{
  FwdEntry, FwdTable, fwd_key, fwd_table_init, fwd_table_add, fwd_table_aging, set_fwd_status,
}
use nrg_5_sorbonne.Fwd.Laws.{
  IsFwdTable, fwd_members, fwd_is_old, fwd_table_init-IsFwdTable, fwd_table_add-Inserted,
  fwd_table_aging-Aged,
}
use nrg_5_sorbonne.Memory.{Heap, update, Returns, Returns-ok, load}
use nrg_5_sorbonne.Memory.Laws.{IsHeap}
use nrg_5_sorbonne.Tests.Linux.{linux}

abbrev pub wlan : NsoIf
wlan = record {
  handle = record { sockfd = 3; if_index = 4; if_mac = 2 ∷ 0 ∷ 0 ∷ 0 ∷ 0 ∷ 1 ∷ []; if_mtu = 1500 };
  if_name = [];
  if_index = 0;
  if_type = 0;
}

abbrev pub route_7 : FwdEntry
route_7 = record { dest = 7; nxthop = 9; interface = wlan; status = expired }

abbrev pub route_9 : FwdEntry
route_9 = record { dest = 9; nxthop = 9; interface = wlan; status = active }

abbrev fwd_heap : Heap FwdEntry
fwd_heap = record {
  cell = update (update (λ _. none) 1 (some route_7)) 2 (some route_9);
  next = 3;
  room = 5;
}

fwd_heap-IsHeap : IsHeap fwd_heap
fwd_heap-IsHeap p b = ground arith

abbrev pub fwd_none : FwdTable
fwd_none = record {
  table = record { size = 0; ll_head = []; ht = (12, []); heap = fwd_heap };
  fwdt_lock = false;
}

abbrev pub fwd_one : FwdTable
fwd_one = record {
  table = record {
    size = 1;
    ll_head = 1 ∷ [];
    ht = (12, (1, hash_device_id 7) ∷ []);
    heap = fwd_heap;
  };
  fwdt_lock = false;
}

abbrev pub fwd_two : FwdTable
fwd_two = record {
  table = record {
    size = 2;
    ll_head = 1 ∷ 2 ∷ [];
    ht = (12, (2, hash_device_id 9) ∷ (1, hash_device_id 7) ∷ []);
    heap = fwd_heap;
  };
  fwdt_lock = false;
}

pub fwd_none-IsFwdTable : IsFwdTable fwd_none
unfolding fwd_table_init clear
fwd_none-IsFwdTable = (fwd_table_init-IsFwdTable fwd_none fwd_heap-IsHeap).0

pub fwd_one-IsFwdTable : IsFwdTable fwd_one
unfolding fwd_table_add insert_back load mem
fwd_one-IsFwdTable =
    (Returns-ok (fwd_table_add-Inserted fwd_none 1 route_7 fwd_none-IsFwdTable refl refl)).0.valid

pub fwd_two-IsFwdTable : IsFwdTable fwd_two
unfolding fwd_table_add insert_back load mem
fwd_two-IsFwdTable =
    (Returns-ok (fwd_table_add-Inserted fwd_one 2 route_9 fwd_one-IsFwdTable refl refl)).0.valid

fwd_table_add-Inserted_example :
    Returns
      (λ t'.
        Inserted fwd_key fwd_one.table (fwd_members fwd_one ++ 2 ∷ []) t'.table
        × (t'.fwdt_lock ≡ fwd_one.fwdt_lock))
      (fwd_table_add fwd_one 2)
unfolding mem
fwd_table_add-Inserted_example =
    fwd_table_add-Inserted fwd_one 2 route_9 fwd_one-IsFwdTable refl refl

fwd_table_aging-Aged_example :
    Returns
      (λ t'.
        Aged fwd_key fwd_is_old (set_fwd_status expired) fwd_two.table t'.table
        × (t'.fwdt_lock ≡ fwd_two.fwdt_lock))
      (fwd_table_aging true fwd_two)
fwd_table_aging-Aged_example = fwd_table_aging-Aged fwd_two fwd_two-IsFwdTable
