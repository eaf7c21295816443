-- ===== src/Tests/Bspc.antt =====
-- A table of two network functions.
use nrg_5_sorbonne.Base.{refl, mem, none, some, [], ◌∷◌, arith}
use nrg_5_sorbonne.Table.Indexed.{clear, insert_front}
use nrg_5_sorbonne.Bspc.{BspcEntry, BspcTable, bspc_table_init, bspc_table_add}
use nrg_5_sorbonne.Bspc.Laws.{IsBspcTable, bspc_table_init-IsBspcTable, bspc_table_add-Inserted}
use nrg_5_sorbonne.Memory.{Heap, update, Returns-ok, load}
use nrg_5_sorbonne.Memory.Laws.{IsHeap}
use nrg_5_sorbonne.Tests.Linux.{linux}

abbrev bspc_5 : BspcEntry
bspc_5 = record { proto = 5; sockfd = 11 }

abbrev bspc_6 : BspcEntry
bspc_6 = record { proto = 6; sockfd = 12 }

abbrev bspc_heap : Heap BspcEntry
bspc_heap = record {
  cell = update (update (λ _. none) 1 (some bspc_5)) 2 (some bspc_6);
  next = 3;
  room = 5;
}

bspc_heap-IsHeap : IsHeap bspc_heap
bspc_heap-IsHeap p b = ground arith

abbrev pub bspc_none : BspcTable
bspc_none = record { size = 0; ll_head = []; ht = (10, []); heap = bspc_heap }

abbrev pub bspc_one : BspcTable
bspc_one = record { size = 1; ll_head = 1 ∷ []; ht = (10, (1, 5) ∷ []); heap = bspc_heap }

abbrev pub bspc_two : BspcTable
bspc_two = record {
  size = 2;
  ll_head = 2 ∷ 1 ∷ [];
  ht = (10, (2, 6) ∷ (1, 5) ∷ []);
  heap = bspc_heap;
}

pub bspc_none-IsBspcTable : IsBspcTable bspc_none
unfolding bspc_table_init clear
bspc_none-IsBspcTable = (bspc_table_init-IsBspcTable bspc_none bspc_heap-IsHeap).0

bspc_one-IsBspcTable : IsBspcTable bspc_one
unfolding bspc_table_add insert_front load mem
bspc_one-IsBspcTable =
    (Returns-ok (bspc_table_add-Inserted bspc_none 1 bspc_5 bspc_none-IsBspcTable refl refl)).valid

pub bspc_two-IsBspcTable : IsBspcTable bspc_two
unfolding bspc_table_add insert_front load mem
bspc_two-IsBspcTable =
    (Returns-ok (bspc_table_add-Inserted bspc_one 2 bspc_6 bspc_one-IsBspcTable refl refl)).valid
