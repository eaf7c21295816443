-- ===== src/Tests/Adverts.antt =====
-- A base station with two interfaces advertises itself: the second frame holds the first.
use nrg_5_sorbonne.Base.{◌≡◌, refl, some, List, [], ◌∷◌, arith}
use nrg_5_sorbonne.Memory.{Returns}
use nrg_5_sorbonne.NsoCommon.{alloc_bc_device_id}
use nrg_5_sorbonne.NsoIf.{NsoIf}
use nrg_5_sorbonne.Packet.{Packet, peek}
use nrg_5_sorbonne.Packet.Made.{Made}
use nrg_5_sorbonne.Wifi.{Frame}
use nrg_5_sorbonne.Nso.State.{NsoLayer, iface_at}
use nrg_5_sorbonne.Son.{son_nbr_advertise}
use nrg_5_sorbonne.Son.Advertise.{Advertised, log_frames, son_nbr_advertise-Advertised}
use nrg_5_sorbonne.Tests.Linux.{linux}
use nrg_5_sorbonne.Tests.Fwd.{wlan}
use nrg_5_sorbonne.Tests.Layer.{env, block, station}

abbrev two_ifaces : List NsoIf
two_ifaces = wlan ∷ record wlan { if_index = 1 } ∷ []

abbrev wide : NsoLayer
wide = record station {
  ifaces = some wlan ∷ some (record wlan { if_index = 1 }) ∷ [];
  ifaces_nb = 2;
}

son_nbr_advertise-Advertised_example :
    Returns
      (λ m.
        (pkt : Packet) × Made pkt 1 alloc_bc_device_id 0xF001 21 (2 ∷ [])
        × (fs : List Frame) × Advertised 64 (peek pkt 0 21) two_ifaces fs
        × (m ≡ log_frames fs wide))
      (son_nbr_advertise env wide)
unfolding iface_at
son_nbr_advertise-Advertised_example =
    son_nbr_advertise-Advertised env wide block two_ifaces refl refl refl
      (refl, omega arith, (refl, omega arith, tt))
