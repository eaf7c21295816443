-- ===== src/Tests/Routes.antt =====
-- A route update with two rules, at a base station and at a device: 7 is to be reached by 5, and 9 no
-- more.
use nrg_5_sorbonne.Base.{
  ℕ, ◌≢◌, refl, false, ◌==◌, if◌then◌else◌, none, some, List, [], ◌∷◌, ◌++◌, arith, replicate, mem,
}
use nrg_5_sorbonne.Memory.{Returns}
use nrg_5_sorbonne.NsoIf.{NsoIf}
use nrg_5_sorbonne.NsoCommon.{to_bytes, of_bytes}
use nrg_5_sorbonne.Packet.{Packet, get_devid, get_byte, get_u16, get_bytes, peek, htons}
use nrg_5_sorbonne.Nso.State.{NsoLayer, nrg5_reg, nrg5_connected, check_state, lock_state}
use nrg_5_sorbonne.Nso.Forward.{find_hop}
use nrg_5_sorbonne.Son.{RtRule, route_update}
use nrg_5_sorbonne.Son.Message.{Writable}
use nrg_5_sorbonne.Son.RoutingMap.{RouteMap, with_rules, Implements}
use nrg_5_sorbonne.Son.Updates.{Updated, Chosen, route_update-Updated}
use nrg_5_sorbonne.Layer.Safety.{Safe}
use nrg_5_sorbonne.Device.Son
use nrg_5_sorbonne.Device.Son.{fwd_topo_report, son_process_rx}
use nrg_5_sorbonne.Device.Data.{rx_round}
use nrg_5_sorbonne.Device.Routes.{device_route_update-Updated}
use nrg_5_sorbonne.Device.Layer.{Step, from_air, here, and_then}
use nrg_5_sorbonne.Device.Layer.Runs.{device-Safe}
use nrg_5_sorbonne.Tests.Linux.{linux}
use nrg_5_sorbonne.Tests.Fwd.{wlan, route_7, fwd_one, fwd_one-IsFwdTable, fwd_two-IsFwdTable}
use nrg_5_sorbonne.Tests.Layer.{env, station, connected}
use nrg_5_sorbonne.Tests.Runs.{fwd_one-IsUnique, station-IsLayer, topo_pkt}

abbrev one_map : RouteMap
one_map d = if d == 7 then some (record { nxt = 9; iface = wlan }) else none

one-Implements : Implements fwd_one one_map
unfolding mem
one-Implements = record {
  valid = fwd_one-IsFwdTable;
  unique = fwd_one-IsUnique;
  sound = λ p e a. ground (arith, a.listed, a.cell);
  complete =
      λ d h is. (1, route_7, record { listed = refl; cell = refl }, ground arith, ground arith);
}

abbrev two_rules : List (RtRule × NsoIf)
two_rules =
    (record { action = 0; dst_id = 7; nh_id = 5; if_index = 0 }, wlan)
    ∷ (record { action = 1; dst_id = 9; nh_id = 0; if_index = 0 }, wlan)
    ∷ []

two-Writable : Writable connected.ifaces two_rules
two-Writable =
    (omega arith, omega arith, omega arith, refl, (omega arith, omega arith, omega arith, refl, tt))

abbrev update_for : ℕ → Packet
update_for dst = record {
  size = 64;
  byte_len = 57;
  data_at = 0;
  tail = 57;
  buf =
      21 ∷ replicate 7 0
      ++ dst ∷ replicate 7 0
      ++ 0xF0 ∷ 1 ∷ 0 ∷ 57 ∷ 1 ∷ 0 ∷ 7 ∷ replicate 7 0
      ++ 5 ∷ replicate 7 0
      ++ 0 ∷ 1 ∷ 9 ∷ replicate 7 0
      ++ replicate 8 0
      ++ 0 ∷ [];
}

route_update-Updated_example :
    Returns
      (λ n.
        Updated connected (with_rules two_rules one_map) n
        × Returns (λ r. Chosen (with_rules two_rules one_map) connected 7 r.0) (find_hop n 7))
      (route_update env connected (update_for 1))
unfolding get_devid get_bytes peek of_bytes to_bytes
route_update-Updated_example =
    route_update-Updated env connected (update_for 1) two_rules one_map 7 refl refl refl refl
      (record { within = omega arith }) refl two-Writable one-Implements (omega arith) refl
      fwd_two-IsFwdTable refl

-- A device that has been registered and waits for its first routes.
abbrev waiting : NsoLayer
waiting = record connected { dev_id = 7; dev_state = nrg5_reg }

device_route_update-Updated_example :
    Returns
      (λ n.
        Updated
          (record waiting { dev_state = nrg5_connected; state_lock = false })
          (with_rules two_rules one_map)
          n
        × Returns (λ r. Chosen (with_rules two_rules one_map) waiting 9 r.0) (find_hop n 9))
      (Son.route_update env waiting (update_for 7))
unfolding get_devid get_bytes peek of_bytes to_bytes
device_route_update-Updated_example =
    device_route_update-Updated env waiting (update_for 7) two_rules one_map 9 refl refl (λ e. cc)
      refl (record { within = omega arith }) refl two-Writable one-Implements (omega arith) refl
      fwd_two-IsFwdTable refl

device_drops : Step station station
unfolding rx_round son_process_rx fwd_topo_report check_state lock_state get_byte get_u16 get_bytes
    peek of_bytes htons
device_drops = from_air env topo_pkt none none refl

device-Safe_example : Safe station station × (station.dev_state ≢ nrg5_reg)
device-Safe_example = device-Safe station-IsLayer (λ e. cc) (and_then here device_drops)
