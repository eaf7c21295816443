-- ===== src/Tests/Air.antt =====
-- A device with the id 7 that the base station of the other tests sends a packet to.
use nrg_5_sorbonne.Base.{
  ◌+◌, ◌*◌, ◌<◌, ◌≡◌, refl, none, some, [], ◌∷◌, arith, distinct, mem, ◌-◌, ◌++◌, replicate, take,
}
use nrg_5_sorbonne.Memory.{Returns}
use nrg_5_sorbonne.NsoCommon.{of_bytes, l2addr_equal}
use nrg_5_sorbonne.Packet.{Packet, get_devid, get_byte, get_bytes, peek}
use nrg_5_sorbonne.Queue.{Pq}
use nrg_5_sorbonne.Queue.Fifo.{IsPq, nil}
use nrg_5_sorbonne.Wifi.{Frame, wifi_send, wifi_receive}
use nrg_5_sorbonne.Wifi.RoundTrip.{ReceivedAs, wifi_send-wifi_receive}
use nrg_5_sorbonne.Nso.State.{NsoLayer}
use nrg_5_sorbonne.Nso.Data.{make_data_pkt, nso_layer_recv}
use nrg_5_sorbonne.Device.Data.{data_process_rx}
use nrg_5_sorbonne.Device.Tsd.{process_reg_reply}
use nrg_5_sorbonne.Device.EndToEnd.{Gives, IsReady, IsBuffer, over_air}
use nrg_5_sorbonne.Device.Reply.{Joined, Neighbour, process_reg_reply-Joined}
use nrg_5_sorbonne.Util.{Timeval, make_timeout, make_timeout_lem}
use nrg_5_sorbonne.Tests.Linux.{linux}
use nrg_5_sorbonne.Tests.Arp.{mac_7, mac_9, device_9, two_devices, two_devices-IsArpTable}
use nrg_5_sorbonne.Tests.Fwd.{wlan, fwd_two-IsFwdTable}
use nrg_5_sorbonne.Tests.Layer.{block, env, station, connected}

abbrev empty_queue : Pq
empty_queue = record { pq_head = []; heap = record { cell = λ _. none; next = 1; room = 3 } }

empty_queue-IsPq : IsPq empty_queue []
unfolding distinct mem
empty_queue-IsPq = record { items = nil; once = refl; allocated = λ p b. refl }

abbrev device : NsoLayer
device = record connected { dev_id = 7; data_pq = empty_queue }

device-IsReady : IsReady device
device-IsReady = record {
  connected = refl;
  state_free = refl;
  data_free = refl;
  queue = empty_queue-IsPq;
  room = omega arith;
  id_64 = omega arith;
}

abbrev pub buffer : Packet
buffer = record { size = 64; byte_len = 0; data_at = 64; tail = 64; buf = block }

pub buffer-IsBuffer : IsBuffer 64 buffer
buffer-IsBuffer = record { of_size = refl; at = refl; fits = record { within = omega arith } }

pub env-Gives : Gives env 64
env-Gives = record { block = block; given = refl; long = refl }

over_air_example :
    Returns
      (λ pkt.
        Returns
          (λ s.
            (f : Frame) × (s.frame ≡ some f)
            × Returns
                (λ r.
                  Returns
                    (λ dev'.
                      Returns
                        (λ d. d.0 ≡ record {
                          src = 1;
                          dst = 7;
                          proto = 5;
                          bytes = take 9 (take (64 - 20) (11 ∷ 12 ∷ 13 ∷ []));
                        })
                        (nso_layer_recv dev' 9))
                    (data_process_rx env device r.pkt))
                (wifi_receive f.bytes buffer))
          (wifi_send env.accepts wlan.handle pkt mac_7))
      (make_data_pkt env station (11 ∷ 12 ∷ 13 ∷ []) 7 5)
over_air_example =
    over_air env station wlan.handle mac_7 env device buffer (11 ∷ 12 ∷ 13 ∷ []) 5 9 env-Gives
      (omega arith) (omega arith) (omega arith) (omega arith) (omega arith) (omega arith)
      (omega arith) device-IsReady buffer-IsBuffer env-Gives

-- A packet of two bytes.
abbrev short : Packet
short = record { size = 64; byte_len = 2; data_at = 64; tail = 66; buf = block }

wifi_send-wifi_receive_example :
    Returns
      (λ s.
        (f : Frame) × (s.frame ≡ some f)
        × Returns
            (ReceivedAs buffer short 2 wlan.handle.if_mac mac_7)
            (wifi_receive f.bytes buffer))
      (wifi_send env.accepts wlan.handle short mac_7)
wifi_send-wifi_receive_example =
    wifi_send-wifi_receive env.accepts wlan.handle short mac_7 buffer (omega arith)
      (record { within = omega arith }) (omega arith) (omega arith) (omega arith)
      (record { within = omega arith }) (omega arith) (omega arith)

-- The reply of the gateway 5 to the device 1, which 9 has forwarded.
abbrev answer : Packet
answer = record {
  size = 64;
  byte_len = 22;
  data_at = 0;
  tail = 22;
  buf = 5 ∷ replicate 7 0 ++ 1 ∷ replicate 7 0 ++ 0xF0 ∷ 0 ∷ 0 ∷ 22 ∷ 1 ∷ 0 ∷ [];
}

known_9 : Neighbour two_devices mac_9 9
unfolding mem l2addr_equal
known_9 = record {
  at = 2;
  entry = device_9;
  listed = refl;
  cell = refl;
  of_mac = refl;
  is_id = refl;
}

process_reg_reply-Joined_example :
    Returns
      (Joined station 5 mac_9 wlan)
      (process_reg_reply env station answer (some mac_9) (some wlan))
unfolding get_devid get_byte get_bytes peek of_bytes
process_reg_reply-Joined_example =
    process_reg_reply-Joined env station answer 5 mac_9 wlan refl refl refl refl refl
      two_devices-IsArpTable refl known_9 fwd_two-IsFwdTable (omega arith)

-- Three seconds and a half after 7.9 seconds.
abbrev now : Timeval
now = record { tv_sec = 7; tv_usec = 900000 }

make_timeout_lem_example :
    ((make_timeout now 3500).tv_nsec < 1000000000)
    × ((make_timeout now 3500).tv_sec * 1000000000 + (make_timeout now 3500).tv_nsec
        ≡ 7 * 1000000000 + 900000 * 1000 + 3500 * 1000000)
make_timeout_lem_example = make_timeout_lem now 3500 (omega arith)
