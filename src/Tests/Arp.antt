-- ===== src/Tests/Arp.antt =====
-- An ARP table with two devices, one of them expired.
use nrg_5_sorbonne.Base.{◌-◌, ◌^◌, ◌≡◌, mem, refl, true, false, none, some, [], ◌∷◌, arith}
use nrg_5_sorbonne.Memory.{ok, Heap, update, Returns, Returns-ok, load, ◌>>=◌}
use nrg_5_sorbonne.Memory.Laws.{IsHeap}
use nrg_5_sorbonne.NsoCommon.{L2Addr, hash_device_id, hash_l2addr}
use nrg_5_sorbonne.Table.{active, expired}
use nrg_5_sorbonne.Table.Lookup.{Found}
use nrg_5_sorbonne.Table.Destroy.{Drained}
use nrg_5_sorbonne.Arp.{
  ArpEntry, ArpTable, arp_table_init, arp_table_add, arp_table_del, arp_table_lookup_from_dev_id,
  arp_table_aging, arp_table_destroy,
}
use nrg_5_sorbonne.Arp.Ages.{
  ArpAged, arp_cell, arp_table_aging-ArpAged, aging_twice-empty, arp_table_destroy-Drained,
}
use nrg_5_sorbonne.Tsd.{touch_arp}
use nrg_5_sorbonne.Tsd.Beacon.{Touched, touch_arp-Touched}
use nrg_5_sorbonne.Arp.Invariant.{IsArpTable, arp_entries}
use nrg_5_sorbonne.Arp.Operations.{
  arp_table_init-IsArpTable, ArpAdded, arp_table_add-ArpAdded, has_dev_id, ArpDeleted,
  arp_table_lookup_from_dev_id-Found, arp_table_del-ArpDeleted,
}
use nrg_5_sorbonne.Tests.Linux.{linux}

abbrev pub mac_7 : L2Addr
mac_7 = 2 ∷ 0 ∷ 0 ∷ 0 ∷ 0 ∷ 7 ∷ []

abbrev pub mac_9 : L2Addr
mac_9 = 2 ∷ 0 ∷ 0 ∷ 0 ∷ 0 ∷ 9 ∷ []

abbrev pub device_7 : ArpEntry
device_7 = record { dev_id = 7; l2addr = mac_7; status = expired }

abbrev pub device_9 : ArpEntry
device_9 = record { dev_id = 9; l2addr = mac_9; status = active }

abbrev pub arp_heap : Heap ArpEntry
arp_heap = record {
  cell = update (update (λ _. none) 1 (some device_7)) 2 (some device_9);
  next = 3;
  room = 5;
}

pub arp_heap-IsHeap : IsHeap arp_heap
arp_heap-IsHeap p b = ground arith

-- What malloc might give for a table.
abbrev pub arp_block : ArpTable
arp_block = record {
  size = 99;
  ll_head = 3 ∷ [];
  ht_dev_id = (0, []);
  ht_l2addr = (0, []);
  arpt_lock = true;
  heap = arp_heap;
}

abbrev pub no_devices : ArpTable
no_devices = record {
  size = 0;
  ll_head = [];
  ht_dev_id = (10, []);
  ht_l2addr = (10, []);
  arpt_lock = false;
  heap = arp_heap;
}

abbrev pub one_device : ArpTable
one_device = record {
  size = 1;
  ll_head = 1 ∷ [];
  ht_dev_id = (10, (1, hash_device_id 7) ∷ []);
  ht_l2addr = (10, (1, hash_l2addr mac_7) ∷ []);
  arpt_lock = false;
  heap = arp_heap;
}

abbrev pub two_devices : ArpTable
two_devices = record {
  size = 2;
  ll_head = 2 ∷ 1 ∷ [];
  ht_dev_id = (10, (2, hash_device_id 9) ∷ (1, hash_device_id 7) ∷ []);
  ht_l2addr = (10, (2, hash_l2addr mac_9) ∷ (1, hash_l2addr mac_7) ∷ []);
  arpt_lock = false;
  heap = arp_heap;
}

pub no_devices-IsArpTable : IsArpTable no_devices
unfolding arp_table_init
no_devices-IsArpTable = (arp_table_init-IsArpTable arp_block arp_heap-IsHeap).0

add_7 : arp_table_add no_devices 1 ≡ ok one_device
unfolding arp_table_add load mem
add_7 = refl

add_9 : arp_table_add one_device 2 ≡ ok two_devices
unfolding arp_table_add load mem
add_9 = refl

pub one_device-IsArpTable : IsArpTable one_device
unfolding arp_table_add load mem
one_device-IsArpTable =
    (Returns-ok
      (arp_table_add-ArpAdded no_devices 1 device_7 no_devices-IsArpTable refl refl refl)).valid

pub two_devices-IsArpTable : IsArpTable two_devices
unfolding arp_table_add load mem
two_devices-IsArpTable =
    (Returns-ok
      (arp_table_add-ArpAdded one_device 2 device_9 one_device-IsArpTable refl refl refl)).valid

arp_table_add-ArpAdded_example : Returns (ArpAdded one_device 2) (arp_table_add one_device 2)
unfolding mem
arp_table_add-ArpAdded_example =
    arp_table_add-ArpAdded one_device 2 device_9 one_device-IsArpTable refl refl refl

arp_table_lookup_from_dev_id-Found_example :
    Returns
      (λ (r, t').
        (t' ≡ record two_devices { arpt_lock = false })
        × Found (has_dev_id 7) two_devices.heap.cell (arp_entries two_devices) (ok r))
      (arp_table_lookup_from_dev_id two_devices 7)
arp_table_lookup_from_dev_id-Found_example =
    arp_table_lookup_from_dev_id-Found two_devices 7 two_devices-IsArpTable refl

arp_table_del-ArpDeleted_example : Returns (ArpDeleted two_devices 1) (arp_table_del two_devices 1)
unfolding mem
arp_table_del-ArpDeleted_example =
    arp_table_del-ArpDeleted two_devices 1 two_devices-IsArpTable refl refl

arp_table_aging-ArpAged_example : Returns (ArpAged two_devices) (arp_table_aging true two_devices)
arp_table_aging-ArpAged_example = arp_table_aging-ArpAged two_devices two_devices-IsArpTable refl

aging_twice-empty_example :
    Returns (λ t'. arp_entries t' ≡ []) (arp_table_aging true two_devices >>= arp_table_aging true)
aging_twice-empty_example = aging_twice-empty two_devices two_devices-IsArpTable refl

arp_table_destroy-Drained_example :
    Returns
      (λ t'. Drained arp_entries arp_cell two_devices t' × (t'.size ≡ 2 ^ 32 - 1))
      (arp_table_destroy two_devices)
arp_table_destroy-Drained_example =
    arp_table_destroy-Drained two_devices two_devices-IsArpTable (omega arith)

touch_arp-Touched_example :
    Returns (Touched 5 mac_7 two_devices) (touch_arp 5 (some mac_7) two_devices)
touch_arp-Touched_example =
    touch_arp-Touched 5 mac_7 two_devices two_devices-IsArpTable refl (ground arith)
