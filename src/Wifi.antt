-- ===== src/Wifi.antt =====
-- bs/src/bs_lib/wifi_ops.c: sending and receiving frames on a raw socket, through which nso_if.h
-- calls for the one type of interface there is. Opening a socket is not modelled.
pub mod RoundTrip
use nrg_5_sorbonne.Base.{
  ℕ, ◌+◌, ◌-◌, ◌%◌, ◌^◌, Bool, false, Option, none, some, List, [], ◌∷◌, if◌then◌else◌, ltb, ◌==◌,
  length, take, replicate,
}
use nrg_5_sorbonne.Memory.{Run, ok, ◌>>=◌}
use nrg_5_sorbonne.NsoCommon.{L2Addr, alloc_l2addr}
use nrg_5_sorbonne.NsoIf.{NsoIf, WifiHandle, eth_alen}
use nrg_5_sorbonne.Packet.{Packet, get_bytes, put_bytes, put_u16, get_u16, htons}

-- A frame given to sendto: the socket and the bytes.
pub record Frame : Type 0 where
  pub sockfd : ℕ
  pub bytes : List ℕ

-- sizeof (struct ethhdr), and ETH_TYPE_NSO
abbrev pub ethhdr_size : ℕ
ethhdr_size = 14

abbrev pub eth_type_nso : ℕ
eth_type_nso = 0xF748

-- What a send leaves: the packet, the frame if sendto was called, and whether it returned 0.
pub record Sent : Type 0 where
  pub pkt : Packet
  pub frame : Option Frame
  pub success : Bool

-- `accepts` is sendto's answer: whether it takes the frame.
unfoldable pub wifi_send : (Frame → Bool) → WifiHandle → Packet → L2Addr → Run Sent
wifi_send accepts handle pkt dst =
    if ltb pkt.data_at ethhdr_size
    then ok (record { pkt = pkt; frame = none; success = false })
    else (do
      let eth : Packet = record pkt { data_at = pkt.data_at - ethhdr_size }
      eth ← put_bytes 6 (take eth_alen handle.if_mac) eth
      eth ← put_bytes 0 (take eth_alen dst) eth
      eth ← put_u16 12 (htons eth_type_nso) eth
      let pkt : Packet = record eth { byte_len = eth.byte_len + ethhdr_size }
      bytes ← get_bytes pkt 0 pkt.byte_len
      let frame : Frame = record { sockfd = handle.sockfd; bytes = bytes }
      ok (record { pkt = pkt; frame = some frame; success = accepts frame }))

unfoldable pub wifi_broadcast : (Frame → Bool) → WifiHandle → Packet → Run Sent
unfolding wifi_send alloc_l2addr
wifi_broadcast accepts handle pkt =
    wifi_send accepts handle pkt (alloc_l2addr eth_alen (replicate 6 0xff))

-- nso_if_send and nso_if_broadcast
unfoldable pub nso_if_send : (Frame → Bool) → NsoIf → Packet → L2Addr → Run Sent
nso_if_send accepts iface p dst = wifi_send accepts iface.handle p dst

unfoldable pub nso_if_broadcast : (Frame → Bool) → NsoIf → Packet → Run Sent
nso_if_broadcast accepts iface p = wifi_broadcast accepts iface.handle p

-- What a receive leaves: the packet, and the two addresses if it returned 0.
pub record Received : Type 0 where
  pub pkt : Packet
  pub addrs : Option (L2Addr × L2Addr)

abbrev pub refused : Packet → Received
refused pkt = record { pkt = record pkt { data_at = pkt.data_at + ethhdr_size }; addrs = none }

-- After recvfrom: what it wrote at the pointer, which has been moved back by a header.
unfoldable pub wifi_read : List ℕ → Packet → Run Received
wifi_read [] pkt = ok (refused pkt)
wifi_read (b ∷ bs) pkt = do
  pkt ← put_bytes 0 (b ∷ bs) pkt
  proto ← get_u16 pkt 12
  if htons proto == eth_type_nso
      then (do
        src ← get_bytes pkt 6 eth_alen
        dst ← get_bytes pkt 0 eth_alen
        let byte_len = (length (b ∷ bs) + 2 ^ 32 - ethhdr_size) % 2 ^ 32
        let data_at = pkt.data_at + ethhdr_size
        ok (record {
          pkt = record pkt { data_at = data_at; byte_len = byte_len; tail = data_at + byte_len };
          addrs = some (alloc_l2addr eth_alen src, alloc_l2addr eth_alen dst);
        }))
      else (do pkt ← put_bytes 0 (replicate (length (b ∷ bs)) 0) pkt; ok (refused pkt))

-- `got` is what recvfrom has to deliver, nothing if it fails; it writes at most `pkt->size + 14`
-- bytes.
unfoldable pub wifi_receive : List ℕ → Packet → Run Received
unfolding wifi_read
wifi_receive got pkt =
    if ltb pkt.data_at ethhdr_size
    then ok (record { pkt = pkt; addrs = none })
    else wifi_read (take (pkt.size + ethhdr_size) got)
        (record pkt { data_at = pkt.data_at - ethhdr_size })

unfoldable pub nso_if_receive : List ℕ → Packet → Run Received
unfolding wifi_receive
nso_if_receive got p = wifi_receive got p

-- wifi_get_info: the only field of nic_info_t is the MTU.
unfoldable pub wifi_get_info : WifiHandle → ℕ
wifi_get_info handle = handle.if_mtu
