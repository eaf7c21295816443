-- ===== src/Tests/FromInit.antt =====
-- A base station and a device after their initialisation.
use nrg_5_sorbonne.Base.{◌≡◌, ◌≢◌, refl, Bool, true, false, none, []}
use nrg_5_sorbonne.Memory.{Run, ok, crash, blocked, Ensures, malloc, load}
use nrg_5_sorbonne.NsoCommon.{of_bytes}
use nrg_5_sorbonne.Packet.{get_byte, get_u16, get_bytes, peek, htons}
use nrg_5_sorbonne.Table.{scan}
use nrg_5_sorbonne.Table.Indexed.{clear, insert_front, find}
use nrg_5_sorbonne.Bspc.{alloc_bspc_entry, bspc_table_add, bspc_table_lookup}
use nrg_5_sorbonne.Nso.State.{nrg5_reg, check_state, lock_state}
use nrg_5_sorbonne.Nso.Setup.{Setup, set_slot}
use nrg_5_sorbonne.Nso.Init.{nso_layer_init}
use nrg_5_sorbonne.Nso.Init.Start.{Blocks, Starts}
use nrg_5_sorbonne.Nso.Init.Loops.{After, FileClosed}
use nrg_5_sorbonne.Nso.Data.{rx_round}
use nrg_5_sorbonne.Son.{son_process_rx, fwd_topo_report}
use nrg_5_sorbonne.Layer.{Step, from_air, here, and_then}
use nrg_5_sorbonne.Layer.Safety.{IsLayer}
use nrg_5_sorbonne.Layer.FromInit.{init-Reach}
use nrg_5_sorbonne.Device.Init
use nrg_5_sorbonne.Device.Init.{device_init-After}
use nrg_5_sorbonne.Tests.Linux.{linux}
use nrg_5_sorbonne.Tests.Layer.{env}
use nrg_5_sorbonne.Tests.Runs.{station-IsLayer, topo_pkt}
use nrg_5_sorbonne.Tests.Init.{config, outside, blank}

abbrev setup_of : Run (Bool × Setup) → Setup → Setup
setup_of (ok r) s = r.1
setup_of crash s = s
setup_of blocked s = s

abbrev nothing : Setup
nothing = record { nsol = blank; held = []; opened = [] }

abbrev after_init : Setup
after_init = setup_of (nso_layer_init (outside true) blank) nothing

ran : nso_layer_init (outside true) blank ≡ ok (true, after_init)
unfolding nso_layer_init malloc load alloc_bspc_entry clear bspc_table_add insert_front set_slot
    bspc_table_lookup find scan
ran = refl

abbrev blank-Blocks : Blocks blank
blank-Blocks = record {
  arp = station-IsLayer.arp.allocated;
  son = station-IsLayer.son.table.allocated;
  local = station-IsLayer.local.allocated;
  nbr = station-IsLayer.nbr.allocated;
}

-- A report that arrives before the registration is dropped.
dropped : Step after_init.nsol after_init.nsol
unfolding nso_layer_init malloc load alloc_bspc_entry clear bspc_table_add insert_front set_slot
    bspc_table_lookup find scan rx_round son_process_rx fwd_topo_report check_state lock_state
    get_byte get_u16 get_bytes peek of_bytes htons
dropped = from_air env topo_pkt none none refl

device_ran :
    Init.nso_layer_init (outside true) blank
    ≡ ok (true, setup_of (Init.nso_layer_init (outside true) blank) nothing)
unfolding Init.nso_layer_init set_slot
device_ran = refl

init-Reach_example :
    Starts 1 after_init.nsol
    × IsLayer after_init.nsol
    × (after_init.nsol.dev_id ≡ 1)
    × (after_init.nsol.mtu ≡ after_init.nsol.mtu)
    × (after_init.nsol.dev_state ≢ nrg5_reg)
init-Reach_example =
    init-Reach (outside true) config blank refl blank-Blocks station-IsLayer.bspc.allocated
      after_init ran (and_then here dropped)

device_init-After_example : Ensures (After FileClosed) (Init.nso_layer_init (outside false) blank)
device_init-After_example = device_init-After (outside false) blank
