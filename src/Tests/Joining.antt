-- ===== src/Tests/Joining.antt =====
-- The device 7 asks the base station of the other tests to be registered.
use nrg_5_sorbonne.Base.{[], ◌≡◌, refl}
use nrg_5_sorbonne.Memory.{crash}
use nrg_5_sorbonne.Nso.State.{NsoLayer, nrg5_unreg}
use nrg_5_sorbonne.Nso.Data.{rx_thread_round}
use nrg_5_sorbonne.Wifi.{wifi_read, wifi_receive, nso_if_receive}
use nrg_5_sorbonne.Tests.Linux.{linux}
use nrg_5_sorbonne.Tests.Fwd.{wlan}
use nrg_5_sorbonne.Tests.Layer.{env, connected}
use nrg_5_sorbonne.Tests.Air.{buffer}

abbrev asking : NsoLayer
asking = record connected { dev_id = 7; dev_state = nrg5_unreg }

-- A receive that fails.
no_frame : rx_thread_round env connected buffer [] wlan ≡ crash
unfolding rx_thread_round nso_if_receive wifi_receive wifi_read
no_frame = refl
