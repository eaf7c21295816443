-- ===== src/Nso/Data.antt =====
-- The rest of bs/src/bs_lib/nso.c, with bs_util.h: data packets of the upper layer, and
-- the dispatch of packets that arrive from the air or from a network function. Each loop of a
-- thread is one round here, a function of what arrives.
pub mod RoundTrip
pub mod FromVnf
use nrg_5_sorbonne.Base.{
  ℕ, ◌+◌, ◌-◌, ◌%◌, ◌^◌, Bool, true, false, Option, none, some, List, [], ◌∷◌, ◌==◌, if◌then◌else◌,
  ltb, leb, length, take, drop,
}
use nrg_5_sorbonne.Kernel.{Kernel, Ptr}
use nrg_5_sorbonne.Memory.{Run, ok, crash, blocked, ◌>>=◌, non_null, load, mutex_lock}
use nrg_5_sorbonne.NsoCommon.{DeviceId, L2Addr, device_id_equal}
use nrg_5_sorbonne.NsoIf.{NsoIf}
use nrg_5_sorbonne.Packet.{
  Packet, alloc_packet, packet_inc_len, get_bytes, put_bytes, get_u16, put_u16, get_devid,
  put_devid, htons, with_ver, with_length, length_of, set_len_ver, start_pkt, nsohdr_size,
  src_devid_at, dst_devid_at, proto_at, len_ver_at, nso_proto_cp_vtsd, nso_proto_cp_vson,
}
use nrg_5_sorbonne.Wifi.{nso_if_receive}
use nrg_5_sorbonne.Bspc.{bspc_table_lookup}
use nrg_5_sorbonne.Queue.{Pq, pq_get_packet, pq_empty}
use nrg_5_sorbonne.Nso.State.{Env, NsoLayer, is_connected, check_state, send_pkt_to_vnf}
use nrg_5_sorbonne.Nso.Forward.{nso_layer_fwd}
use nrg_5_sorbonne.Tsd.{tsd_process_rx}
use nrg_5_sorbonne.Son.{son_process_rx}

-- A count of bytes that is negative as an int is a huge size_t: no memcpy of so much is defined.
abbrev pub less_header : ℕ → Run ℕ
less_header n = if ltb n nsohdr_size then crash else ok (n - nsohdr_size)

-- The length field of a new data packet: its 14 bits, and at most the MTU.
unfoldable pub data_length : ℕ → ℕ → ℕ → ℕ
data_length mtu size len_ver =
    let v = with_length (nsohdr_size + size) len_ver in
    if ltb mtu (length_of v) then with_length mtu v else v

-- __fully_recv of bs_util.h. `stream` is what the socket delivers from now on. Where that is less than
-- it asks for, recv fails or waits for ever. The bytes that have come are in the buffer either way, and
-- read_pkt_from_vnf does not read the result.
unfoldable pub fully_recv : Env → ℕ → List ℕ → Run (List ℕ × List ℕ)
fully_recv env size stream =
    if ltb (length stream) size
    then (if env.vnf_broken then ok (stream, []) else blocked)
    else ok (take size stream, drop size stream)

unfoldable pub read_pkt_from_vnf : Env → ℕ → List ℕ → Run (Packet × List ℕ)
unfolding fully_recv
read_pkt_from_vnf env size stream = do
  pkt ← non_null (alloc_packet env.block size)
  (bytes, stream) ← fully_recv env nsohdr_size stream
  pkt ← put_bytes 0 bytes pkt
  pkt ← set_len_ver htons pkt
  v ← get_u16 pkt len_ver_at
  pkt ← set_len_ver htons pkt
  rest ← less_header (length_of v)
  (bytes, stream) ← fully_recv env rest stream
  pkt ← put_bytes nsohdr_size bytes pkt
  let byte_len = nsohdr_size + length_of v
  ok (record pkt { byte_len = byte_len; tail = pkt.data_at + byte_len }, stream)

module _ ⦃K : Kernel⦄ where
  -- The arguments `src` and `iface` are not used.
  unfoldable pub data_process_rx : Env → NsoLayer → Packet → Run NsoLayer
  unfolding device_id_equal
  data_process_rx env nsol pkt = do
    connected ← check_state is_connected nsol
    if connected
        then (do
          dst_id ← get_devid pkt dst_devid_at
          if device_id_equal dst_id nsol.dev_id
              then (do
                proto ← get_u16 pkt proto_at
                pos ← bspc_table_lookup nsol.bspc_tbl (htons proto)
                p ← non_null pos
                e ← load nsol.bspc_tbl.heap p
                send_pkt_to_vnf env e.sockfd pkt nsol)
              else (nso_layer_fwd env nsol pkt >>= λ f. ok f.nsol))
        else ok nsol

  -- The switch of __rx_thread_main, for a packet that nso_if_receive has filled.
  unfoldable pub rx_round : Env → NsoLayer → Packet → Option L2Addr → Option NsoIf → Run NsoLayer
  unfolding data_process_rx htons
  rx_round env nsol pkt src iface = do
    proto ← get_u16 pkt proto_at
    if htons proto == nso_proto_cp_vtsd
        then (tsd_process_rx env nsol pkt src iface >>= λ r. ok r.0)
        else (if htons proto == nso_proto_cp_vson
            then (son_process_rx env nsol pkt src iface >>= λ r. ok r.0)
            else data_process_rx env nsol pkt)

  -- The same with nso_if_receive, for what recvfrom has to deliver. Its result is not tested: where it
  -- fails, the two addresses are not set or are those of the last round, already freed, and the round
  -- frees them, which is a crash.
  unfoldable pub rx_thread_round : Env → NsoLayer → Packet → List ℕ → NsoIf → Run NsoLayer
  unfolding rx_round nso_if_receive
  rx_thread_round env nsol pkt got iface = do
    r ← nso_if_receive got pkt
    a ← non_null r.addrs
    rx_round env nsol r.pkt (some a.0) (some iface)

  -- What __vnf_rx_thread_main does with a packet that it has read from a network function.
  unfoldable pub vnf_process_rx : Env → NsoLayer → Packet → Run NsoLayer
  unfolding device_id_equal htons
  vnf_process_rx env nsol pkt = do
    dst_devid ← get_devid pkt dst_devid_at
    if device_id_equal dst_devid nsol.dev_id
        then (do
          proto ← get_u16 pkt proto_at
          if htons proto == nso_proto_cp_vtsd
              then (tsd_process_rx env nsol pkt none none >>= λ r. ok r.0)
              else (if htons proto == nso_proto_cp_vson
                  then (son_process_rx env nsol pkt none none >>= λ r. ok r.0)
                  else ok nsol))
        else (nso_layer_fwd env nsol pkt >>= λ f. ok f.nsol)

  -- One socket of its round: a packet is read and processed.
  unfoldable pub vnf_rx_round : Env → NsoLayer → List ℕ → Run (NsoLayer × List ℕ)
  unfolding vnf_process_rx read_pkt_from_vnf
  vnf_rx_round env nsol stream = do
    (pkt, rest) ← read_pkt_from_vnf env nsol.mtu stream
    nsol ← vnf_process_rx env nsol pkt
    ok (nsol, rest)

  -- `mtu - sizeof (struct nsohdr)`, an int kept as a 32-bit pattern.
  unfoldable pub nso_layer_get_mtu : NsoLayer → ℕ
  nso_layer_get_mtu nsol = (nsol.mtu + 2 ^ 32 - nsohdr_size) % 2 ^ 32

  -- The size of the buffer is the length of the list.
  unfoldable pub make_data_pkt : Env → NsoLayer → List ℕ → DeviceId → ℕ → Run Packet
  make_data_pkt env nsol buf dst proto = do
    pkt ← non_null (alloc_packet env.block nsol.mtu)
    pkt ← start_pkt nsol.dev_id dst proto pkt
    pkt ← set_len_ver (data_length nsol.mtu (length buf)) pkt
    v ← get_u16 pkt len_ver_at
    n ← less_header (length_of v)
    pkt ← put_bytes nsohdr_size (take n buf) pkt
    set_len_ver htons (packet_inc_len pkt (length_of v))

  -- The call waits until the state is connected, so it is `blocked` before; NULL for `dst` is the
  -- gateway. The number is the bytes that it claims to have sent, where `mtu - sizeof` is a size_t
  -- and the result an int.
  unfoldable pub nso_layer_send : Env → NsoLayer → List ℕ → Option DeviceId → ℕ → Run (ℕ × NsoLayer)
  unfolding make_data_pkt
  nso_layer_send env nsol buf dst proto = do
    connected ← check_state is_connected nsol
    if connected
        then (do
          pkt ← make_data_pkt env nsol buf (elim dst [ none ↦ nsol.gw_id | some d ↦ d ]) proto
          f ← nso_layer_fwd env nsol pkt
          let room = (nsol.mtu + 2 ^ 64 - nsohdr_size) % 2 ^ 64
          ok (if ltb (length buf) room then length buf else room % 2 ^ 32, f.nsol))
        else blocked

  -- What the upper layer gets of a packet.
  pub record Delivery : Type 0 where
    pub src : DeviceId
    pub dst : DeviceId
    pub proto : ℕ
    pub bytes : List ℕ

  -- From a packet of the queue to the caller's buffer of `size` bytes.
  unfoldable pub deliver : ℕ → Packet → Run Delivery
  deliver size pkt = do
    src ← get_devid pkt src_devid_at
    dst ← get_devid pkt dst_devid_at
    proto ← get_u16 pkt proto_at
    pkt ← set_len_ver htons pkt
    v ← get_u16 pkt len_ver_at
    n ← less_header (length_of v)
    bytes ← get_bytes pkt nsohdr_size (if ltb size n then size else n)
    ok (record { src = src; dst = dst; proto = htons proto; bytes = bytes })

  -- The call waits until the state is connected and the queue has a packet.
  unfoldable pub nso_layer_recv : NsoLayer → ℕ → Run (Delivery × NsoLayer)
  unfolding deliver
  nso_layer_recv nsol size = do
    connected ← check_state is_connected nsol
    if connected
        then (do
          held ← mutex_lock nsol.data_lock
          if pq_empty nsol.data_pq then blocked else (do
            (r, pq) ← pq_get_packet nsol.data_pq
            pkt ← non_null r
            d ← deliver size pkt
            ok (d, record nsol { data_pq = pq; data_lock = false })))
        else blocked

  unfoldable pub nso_layer_is_connected : NsoLayer → Run Bool
  nso_layer_is_connected nsol = check_state is_connected nsol

  unfoldable pub nso_layer_get_device_id : NsoLayer → DeviceId
  nso_layer_get_device_id nsol = nsol.dev_id
