-- ===== src/Device/Data.antt =====
-- nso/src/nso_lib/nso.c: what a device does with packets from the air, and the rounds of its
-- sending thread. A data packet for the device is copied to the queue that nso_layer_recv reads.
use nrg_5_sorbonne.Base.{ℕ, Bool, true, false, Option, some, List, ◌==◌, if◌then◌else◌}
use nrg_5_sorbonne.Kernel.{Kernel}
use nrg_5_sorbonne.Memory.{Run, ok, non_null, ◌>>=◌, mutex_lock}
use nrg_5_sorbonne.NsoCommon.{L2Addr, device_id_equal}
use nrg_5_sorbonne.NsoIf.{NsoIf}
use nrg_5_sorbonne.Packet.{
  Packet, packet_clone, get_u16, get_devid, htons, dst_devid_at, proto_at, nso_proto_cp_vtsd,
  nso_proto_cp_vson,
}
use nrg_5_sorbonne.Wifi.{nso_if_receive}
use nrg_5_sorbonne.Queue.{pq_put_packet}
use nrg_5_sorbonne.Nso.State.{Env, NsoLayer, is_connected, check_state}
use nrg_5_sorbonne.Tsd.{is_unreg}
use nrg_5_sorbonne.Son.{son_nbr_advertise}
use nrg_5_sorbonne.Device.Tsd.{fwd_on, tsd_process_rx, tsd_broadcast_beacons}
use nrg_5_sorbonne.Device.Son.{son_process_rx, son_topo_report}

module _ ⦃K : Kernel⦄ where
  -- What is done while the data lock is held; waking a waiting reader changes no state.
  unfoldable pub enqueue : Env → NsoLayer → Packet → Run NsoLayer
  unfolding packet_clone pq_put_packet
  enqueue env nsol pkt = do
    held ← mutex_lock nsol.data_lock
    new_pkt ← packet_clone env.block pkt
    pq ← pq_put_packet nsol.data_pq new_pkt
    ok (record nsol { data_pq = pq; data_lock = false })

  unfoldable pub data_process_rx : Env → NsoLayer → Packet → Run NsoLayer
  unfolding enqueue device_id_equal fwd_on
  data_process_rx env nsol pkt = do
    connected ← check_state is_connected nsol
    if connected
        then (do
          dst_id ← get_devid pkt dst_devid_at
          if device_id_equal dst_id nsol.dev_id then enqueue env nsol pkt else fwd_on env pkt nsol)
        else ok nsol

  -- The switch of __rx_thread_main, for a packet that nso_if_receive has filled.
  unfoldable pub rx_round : Env → NsoLayer → Packet → Option L2Addr → Option NsoIf → Run NsoLayer
  unfolding data_process_rx tsd_process_rx son_process_rx
  rx_round env nsol pkt src iface = do
    proto ← get_u16 pkt proto_at
    if htons proto == nso_proto_cp_vtsd
        then (tsd_process_rx env nsol pkt src iface >>= λ r. ok r.0)
        else (if htons proto == nso_proto_cp_vson
            then (son_process_rx env nsol pkt src iface >>= λ r. ok r.0)
            else data_process_rx env nsol pkt)

  -- The same with nso_if_receive, for what recvfrom has to deliver. Its result is not tested: where it
  -- fails, the two addresses are not set or are those of the last round, already freed, and the round
  -- frees them, which is a crash.
  unfoldable pub rx_thread_round : Env → NsoLayer → Packet → List ℕ → NsoIf → Run NsoLayer
  unfolding rx_round nso_if_receive
  rx_thread_round env nsol pkt got iface = do
    r ← nso_if_receive got pkt
    a ← non_null r.addrs
    rx_round env nsol r.pkt (some a.0) (some iface)

  -- A round of the first loop of __tx_thread_main, from its test to its wait. The Boolean is
  -- whether the loop goes on, the number the interface of the next beacon.
  unfoldable pub tx_register : Env → NsoLayer → ℕ → Run (Bool × NsoLayer × ℕ)
  unfolding tsd_broadcast_beacons
  tx_register env nsol if_index = do
    unreg ← check_state is_unreg nsol
    if unreg
        then (tsd_broadcast_beacons env nsol if_index >>= λ r. ok (true, r.0, r.1))
        else ok (false, nsol, if_index)

  -- A round of its second loop, from its test to its sleep.
  unfoldable pub tx_report : Env → NsoLayer → Run (Bool × NsoLayer)
  unfolding son_topo_report
  tx_report env nsol = do
    connected ← check_state is_connected nsol
    if connected
        then (do
          nsol ← son_topo_report env nsol
          nsol ← son_nbr_advertise env nsol
          ok (true, nsol))
        else ok (false, nsol)
