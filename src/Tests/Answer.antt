-- ===== src/Tests/Answer.antt =====
-- vTSD answers the device 9, which the base station of the other tests has a route to.
use nrg_5_sorbonne.Base.{
  ◌≡◌, refl, false, none, some, List, ℕ, [], ◌∷◌, ◌++◌, arith, mem, replicate, subst, sym,
}
use nrg_5_sorbonne.Memory.{ok, Returns, Returns-ok, Heap, update, load}
use nrg_5_sorbonne.Memory.Laws.{IsHeap}
use nrg_5_sorbonne.NsoCommon.{
  DeviceId, to_bytes, of_bytes, device_id_equal, l2addr_equal, hash_device_id, hash_l2addr,
}
use nrg_5_sorbonne.Packet.{
  Packet, get_devid, get_byte, alloc_packet, set_len_ver, htons, get_u16, put_u16, put_bytes,
  splice, overwrite, poke, length_of, get_bytes, peek,
}
use nrg_5_sorbonne.Table.{active}
use nrg_5_sorbonne.Arp.{ArpEntry, ArpTable, arp_table_init, arp_table_add}
use nrg_5_sorbonne.Arp.Invariant.{IsArpTable}
use nrg_5_sorbonne.Arp.Operations.{arp_table_init-IsArpTable, arp_table_add-ArpAdded}
use nrg_5_sorbonne.Device.Reply.{Neighbour}
use nrg_5_sorbonne.Nso.State.{NsoLayer, nrg5_unreg}
use nrg_5_sorbonne.Nso.Forward.{Hop, nso_layer_fwd}
use nrg_5_sorbonne.Nso.Forward.Routes.{RouteOf, by_son, by_local, via, entry_hop}
use nrg_5_sorbonne.Nso.Data.{read_pkt_from_vnf, fully_recv, vnf_rx_round}
use nrg_5_sorbonne.Tsd.Routes.{HasRoute}
use nrg_5_sorbonne.Layer.Forwarded.{Adjacent, Sendable, Delivered, nso_layer_fwd-Delivered}
use nrg_5_sorbonne.Device.Answer.{
  IsAnswer, CanReach, IsWaiting, AnswerTaken, answer_over_air, hop_mac, HasRoute-some_way,
}
use nrg_5_sorbonne.Tests.Linux.{linux}
use nrg_5_sorbonne.Tests.Arp.{no_devices, two_devices, device_9, two_devices-IsArpTable}
use nrg_5_sorbonne.Tests.Fwd.{wlan, route_9, fwd_two, fwd_one-IsFwdTable, fwd_two-IsFwdTable}
use nrg_5_sorbonne.Tests.Layer.{env, connected}
use nrg_5_sorbonne.Tests.Air.{buffer}

-- The answer of 5 to 9.
abbrev answer_bytes : List ℕ
answer_bytes = 5 ∷ replicate 7 0 ++ 9 ∷ replicate 7 0 ++ 0xF0 ∷ 0 ∷ 0 ∷ 22 ∷ 1 ∷ 0 ∷ []

abbrev answer_pkt : Packet
answer_pkt = record {
  size = 64;
  byte_len = 42;
  data_at = 64;
  tail = 106;
  buf = replicate 64 0 ++ answer_bytes ++ replicate 106 0;
}

read_answer : read_pkt_from_vnf env 64 answer_bytes ≡ ok (answer_pkt, [])
unfolding read_pkt_from_vnf fully_recv alloc_packet put_bytes poke splice overwrite set_len_ver
    get_u16 put_u16 get_bytes peek of_bytes to_bytes htons length_of
read_answer = refl

answer_pkt-IsAnswer : IsAnswer 5 9 answer_pkt
unfolding get_devid get_byte get_u16 get_bytes peek of_bytes htons
answer_pkt-IsAnswer = record {
  proto = 0xF0;
  src = refl;
  dst = refl;
  of_proto = refl;
  is_vtsd = refl;
  type = refl;
  answer = refl;
}

answer_pkt-Sendable : Sendable answer_pkt buffer
answer_pkt-Sendable = record {
  head = omega arith;
  fits = record { within = omega arith };
  to_head = omega arith;
  to_fits = record { within = omega arith };
  room = omega arith;
  small = omega arith;
}

abbrev hop_9 : Hop
hop_9 = entry_hop route_9

only_hop : (h : Hop) → RouteOf connected 9 (some h) → h ≡ hop_9
unfolding mem device_id_equal
only_hop h (by_son (via p e m c is)) = ground arith
only_hop h (by_local s (via p e m c is)) = ground arith

hop_9-Adjacent : Adjacent two_devices hop_9
unfolding mem device_id_equal
hop_9-Adjacent = record {
  at = 2;
  entry = device_9;
  listed = refl;
  cell = refl;
  of_id = refl;
  macs = λ p e m c is. ground arith;
  own = omega arith;
}

route_9-HasRoute : HasRoute 9 fwd_two
unfolding mem
route_9-HasRoute = record {
  valid = fwd_two-IsFwdTable;
  at = 2;
  entry = route_9;
  listed = refl;
  cell = refl;
  of_id = refl;
  is_active = refl;
  unlocked = refl;
}

connected-CanReach : CanReach connected 9
connected-CanReach = record {
  son = fwd_one-IsFwdTable;
  arp = two_devices-IsArpTable;
  son_free = refl;
  arp_free = refl;
  route = route_9-HasRoute;
  near = λ h r. subst (Adjacent two_devices) (sym (only_hop h r)) hop_9-Adjacent;
}

-- What the device knows of the station, from an advertisement.
abbrev station_entry : ArpEntry
station_entry = record { dev_id = 1; l2addr = wlan.handle.if_mac; status = active }

abbrev station_heap : Heap ArpEntry
station_heap = record { cell = update (λ _. none) 1 (some station_entry); next = 2; room = 5 }

station_heap-IsHeap : IsHeap station_heap
station_heap-IsHeap p b = ground arith

abbrev none_known : ArpTable
none_known = record no_devices { heap = station_heap }

abbrev station_known : ArpTable
station_known = record {
  size = 1;
  ll_head = 1 ∷ [];
  ht_dev_id = (10, (1, hash_device_id 1) ∷ []);
  ht_l2addr = (10, (1, hash_l2addr wlan.handle.if_mac) ∷ []);
  arpt_lock = false;
  heap = station_heap;
}

none_known-IsArpTable : IsArpTable none_known
unfolding arp_table_init
none_known-IsArpTable = (arp_table_init-IsArpTable none_known station_heap-IsHeap).0

station_known-IsArpTable : IsArpTable station_known
unfolding arp_table_add load mem
station_known-IsArpTable =
    (Returns-ok (
      arp_table_add-ArpAdded none_known 1 station_entry none_known-IsArpTable refl refl refl)).valid

abbrev device_asking : NsoLayer
device_asking = record connected { dev_id = 9; dev_state = nrg5_unreg; arpt = station_known }

device_asking-IsWaiting : IsWaiting device_asking
device_asking-IsWaiting = record {
  unreg = refl;
  state_free = refl;
  arp = station_known-IsArpTable;
  arp_free = refl;
  local = fwd_two-IsFwdTable;
  room = omega arith;
}

hop_9-Neighbour : Neighbour station_known (hop_mac hop_9) 1
unfolding mem l2addr_equal
hop_9-Neighbour = record {
  at = 1;
  entry = station_entry;
  listed = refl;
  cell = refl;
  of_mac = refl;
  is_id = refl;
}

answer_over_air_example :
    Returns
      (λ r. AnswerTaken env connected device_asking buffer 5 wlan r.0 × (r.1 ≡ []))
      (vnf_rx_round env connected answer_bytes)
answer_over_air_example =
    answer_over_air env connected answer_bytes [] answer_pkt 5 env device_asking buffer wlan
      read_answer answer_pkt-IsAnswer (omega arith) answer_pkt-Sendable (omega arith)
      connected-CanReach device_asking-IsWaiting
      λ h r.
        subst (λ k. (id : DeviceId) × Neighbour station_known (hop_mac k) id) (sym (only_hop h r))
          (1, hop_9-Neighbour)

nso_layer_fwd-Delivered_example :
    Returns
      (λ r. (h : Hop) × RouteOf connected 9 (some h) × Delivered connected answer_pkt buffer h r)
      (nso_layer_fwd env connected answer_pkt)
nso_layer_fwd-Delivered_example =
    nso_layer_fwd-Delivered env connected answer_pkt buffer 9 answer_pkt-IsAnswer.dst
      fwd_one-IsFwdTable fwd_two-IsFwdTable two_devices-IsArpTable refl refl refl
      (HasRoute-some_way connected 9 route_9-HasRoute) connected-CanReach.near answer_pkt-Sendable
