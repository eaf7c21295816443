-- ===== src/Tests/Runs.antt =====
-- Runs of a base station: vTSD answers its registration, a report of a device passes through.
use nrg_5_sorbonne.Base.{ℕ, ◌≡◌, refl, none, some, List, [], ◌∷◌, ◌++◌, arith, mem, replicate}
use nrg_5_sorbonne.Memory.{ok, Returns, load}
use nrg_5_sorbonne.NsoCommon.{of_bytes, alloc_bc_device_id, device_id_equal, hash_device_id}
use nrg_5_sorbonne.Packet.{Packet, get_devid, get_byte, htons, get_u16, get_bytes, peek}
use nrg_5_sorbonne.Nso.State.{NsoLayer, to_vnf, check_state, lock_state, send_pkt_to_vnf}
use nrg_5_sorbonne.Nso.Data.{rx_round}
use nrg_5_sorbonne.Son.{son_process_rx, fwd_topo_report}
use nrg_5_sorbonne.Son.Entries.{IsUnique}
use nrg_5_sorbonne.Layer.{Step, from_air, here, and_then}
use nrg_5_sorbonne.Layer.Safety.{IsLayer, Safe}
use nrg_5_sorbonne.Layer.Runs.{Reach-Safe}
use nrg_5_sorbonne.Layer.Heard.{
  IsIdle, Heard, BeaconForwarded, rx_round-Heard, rx_round-BeaconForwarded,
}
use nrg_5_sorbonne.Layer.Stuck.{Stuck, IsUnknown, nso_layer_fwd-Stuck}
use nrg_5_sorbonne.Nso.Forward.{find_hop, find_local, hop_of, hop_at}
use nrg_5_sorbonne.Fwd.{fwd_table_lock, fwd_table_unlock, fwd_table_lookup_unsafe}
use nrg_5_sorbonne.Table.Indexed.{find}
use nrg_5_sorbonne.Table.{scan}
use nrg_5_sorbonne.Tests.Linux.{linux}
use nrg_5_sorbonne.Tests.Arp.{
  mac_7, mac_9, no_devices, no_devices-IsArpTable, two_devices-IsArpTable,
}
use nrg_5_sorbonne.Tests.Nbr.{nbr_two-IsNbrTable}
use nrg_5_sorbonne.Tests.Fwd.{wlan, fwd_one, fwd_one-IsFwdTable, fwd_two-IsFwdTable}
use nrg_5_sorbonne.Tests.Bspc.{bspc_two-IsBspcTable}
use nrg_5_sorbonne.Tests.Layer.{env, station, connected}

pub fwd_one-IsUnique : IsUnique fwd_one
unfolding mem
fwd_one-IsUnique p q e f a b same = ground (arith, a.listed, a.cell, b.listed, b.cell)

pub station-IsLayer : IsLayer station
station-IsLayer = record {
  arp = two_devices-IsArpTable;
  son = record { table = fwd_one-IsFwdTable; unique = fwd_one-IsUnique };
  local = fwd_two-IsFwdTable;
  nbr = nbr_two-IsNbrTable;
  bspc = bspc_two-IsBspcTable;
}

connected-IsLayer : IsLayer connected
connected-IsLayer = record {
  arp = two_devices-IsArpTable;
  son = record { table = fwd_one-IsFwdTable; unique = fwd_one-IsUnique };
  local = fwd_two-IsFwdTable;
  nbr = nbr_two-IsNbrTable;
  bspc = bspc_two-IsBspcTable;
}

-- The report of device 7, which the base station sends on to vSON.
abbrev topo_bytes : List ℕ
topo_bytes = 7 ∷ replicate 7 0 ++ 1 ∷ replicate 7 0 ++ 0xF0 ∷ 1 ∷ 0 ∷ 21 ∷ 0 ∷ []

abbrev pub topo_pkt : Packet
topo_pkt = record { size = 64; byte_len = 21; data_at = 0; tail = 21; buf = topo_bytes }

abbrev reported : NsoLayer → NsoLayer
reported n = record n { sent = to_vnf n.vson_fd topo_bytes ∷ n.sent }

report-Step : Step connected (reported connected)
unfolding rx_round son_process_rx fwd_topo_report check_state lock_state send_pkt_to_vnf get_byte
    get_u16 get_bytes peek of_bytes htons
report-Step = from_air env topo_pkt none none refl

drop-Step : Step station station
unfolding rx_round son_process_rx fwd_topo_report check_state lock_state get_byte get_u16 get_bytes
    peek of_bytes htons
drop-Step = from_air env topo_pkt none none refl

Reach-Safe_example : Safe connected (reported connected)
Reach-Safe_example = Reach-Safe connected-IsLayer (and_then here report-Step)

pub station-IsIdle : IsIdle connected
station-IsIdle = record {
  layer = connected-IsLayer;
  arp_free = refl;
  nbr_free = refl;
  local_free = refl;
  state_free = refl;
  arp_room = omega arith;
  nbr_room = omega arith;
  local_room = omega arith;
}

-- 7 advertises itself.
abbrev advert : Packet
advert = record {
  size = 64;
  byte_len = 21;
  data_at = 0;
  tail = 21;
  buf = 7 ∷ replicate 7 0 ++ replicate 8 255 ++ 0xF0 ∷ 1 ∷ 0 ∷ 21 ∷ 2 ∷ [];
}

rx_round-Heard_example :
    Returns
      (Heard 7 mac_7 (some wlan) connected)
      (rx_round env connected advert (some mac_7) (some wlan))
unfolding get_devid get_byte get_u16 get_bytes peek of_bytes htons
rx_round-Heard_example =
    rx_round-Heard env connected advert mac_7 (some wlan) 7 0x1F0 station-IsIdle refl refl refl refl

-- 5 asks to be registered.
abbrev beacon : Packet
beacon = record {
  size = 64;
  byte_len = 21;
  data_at = 0;
  tail = 21;
  buf = 5 ∷ replicate 7 0 ++ replicate 8 255 ++ 0xF0 ∷ 0 ∷ 0 ∷ 21 ∷ 0 ∷ [];
}

rx_round-BeaconForwarded_example :
    Returns
      (BeaconForwarded env 5 mac_9 wlan beacon connected)
      (rx_round env connected beacon (some mac_9) (some wlan))
unfolding get_devid get_byte get_u16 get_bytes peek of_bytes htons alloc_bc_device_id
rx_round-BeaconForwarded_example =
    rx_round-BeaconForwarded env connected beacon mac_9 wlan 5 0xF0 station-IsIdle refl
      (record { within = omega arith }) (omega arith) refl refl refl refl refl

-- The next hop to 7 is 9, which the ARP table does not know.
abbrev lonely : NsoLayer
lonely = record connected { arpt = no_devices }

abbrev to_7 : Packet
to_7 = record {
  size = 64;
  byte_len = 20;
  data_at = 0;
  tail = 20;
  buf = 1 ∷ replicate 7 0 ++ 7 ∷ replicate 7 0 ++ 0 ∷ 5 ∷ 0 ∷ 20 ∷ [];
}

route_of_7 : find_hop lonely 7 ≡ ok (some (record { nxt = 9; iface = wlan }), lonely)
unfolding find_hop find_local hop_of hop_at fwd_table_lock fwd_table_unlock fwd_table_lookup_unsafe
    find scan load device_id_equal hash_device_id
route_of_7 = refl

no_devices-IsUnknown : IsUnknown 9 no_devices
unfolding mem
no_devices-IsUnknown p e m c = cc

nso_layer_fwd-Stuck_example : Stuck env lonely to_7
unfolding get_devid get_bytes peek of_bytes
nso_layer_fwd-Stuck_example =
    nso_layer_fwd-Stuck env lonely lonely to_7 7 (record { nxt = 9; iface = wlan }) refl route_of_7
      no_devices-IsArpTable refl no_devices-IsUnknown
