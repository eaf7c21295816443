-- ===== src/Device/EndToEnd.antt =====
-- A data packet from __make_data_pkt of bs/src/bs_lib/nso.c over the air to nso_layer_recv of a
-- device: the frame of wifi_send, wifi_receive, data_process_rx of nso/src/nso_lib/nso.c.
use nrg_5_sorbonne.Base.{
  ℕ, ◌+◌, ◌-◌, ◌^◌, ◌≤◌, ◌<◌, ◌≡◌, ◌≢◌, ap, sym, ◌∙◌, min, false, some, List, [], arith, length,
  take,
}
use nrg_5_sorbonne.Kernel.{Kernel}
use nrg_5_sorbonne.Memory.{Returns, Returns-mono}
use nrg_5_sorbonne.NsoCommon.{L2Addr}
use nrg_5_sorbonne.NsoIf.{WifiHandle}
use nrg_5_sorbonne.Packet.{Packet, peek}
use nrg_5_sorbonne.Packet.Header.{Fits}
use nrg_5_sorbonne.Packet.Contents.{SameBytes}
use nrg_5_sorbonne.Wifi.{Frame, Received, wifi_send, wifi_receive}
use nrg_5_sorbonne.Wifi.RoundTrip.{ReceivedAs, wifi_send-wifi_receive}
use nrg_5_sorbonne.Queue.Fifo.{IsPq}
use nrg_5_sorbonne.Nso.State.{Env, NsoLayer, nrg5_connected}
use nrg_5_sorbonne.Nso.Data.{make_data_pkt, nso_layer_recv}
use nrg_5_sorbonne.Nso.Data.RoundTrip.{make_data_pkt-Made, deliver-take}
use nrg_5_sorbonne.Device.Data.{data_process_rx}
use nrg_5_sorbonne.Packet.Made.{Made, Made-SameBytes}
use nrg_5_sorbonne.Device.Queue.{data_process_rx-recv}

-- A block that malloc gives for a packet of `size` bytes.
pub record Gives (env : Env) (size : ℕ) : Type 0 where
  pub block : List ℕ
  pub given : env.block ≡ some block
  pub long : length block ≡ size + 128

-- A whole packet is received as it was sent.
pub ReceivedAs-Made :
    {p buffer : Packet} {mac : List ℕ} {to : L2Addr} {q : Received} {src dst proto n : ℕ}
    {bytes : List ℕ}
    → Made p src dst proto n bytes
    → ReceivedAs buffer p p.byte_len mac to q
    → Made q.pkt src dst proto n bytes
ReceivedAs-Made {p} {q = q} {n = n} m a =
    let same : SameBytes n p q.pkt = record {
      fits = record { within = omega (arith, a.same.fits.within, m.byte_len) };
      same = ap (peek q.pkt 0) (sym m.byte_len) ∙ a.same.same ∙ ap (peek p 0) m.byte_len;
    } in
    Made-SameBytes m same (a.same_len ∙ m.byte_len)

module _ ⦃K : Kernel⦄ where
  -- A connected device that is not busy and whose queue is empty.
  pub record IsReady (dev : NsoLayer) : Type 0 where
    pub connected : dev.dev_state ≡ nrg5_connected
    pub state_free : dev.state_lock ≡ false
    pub data_free : dev.data_lock ≡ false
    pub queue : IsPq dev.data_pq []
    pub room : dev.data_pq.heap.room ≢ 0
    pub id_64 : dev.dev_id < 2 ^ 64

  -- A packet that __rx_thread_main has allocated or reset: room for `size` bytes behind the headroom.
  pub record IsBuffer (size : ℕ) (buffer : Packet) : Type 0 where
    pub of_size : buffer.size ≡ size
    pub at : buffer.data_at ≡ 64
    pub fits : Fits buffer (size + 64)

  -- Let malloc give both sides blocks for packets of the sender's MTU, 20 ≤ mtu < 2^14, the
  -- buffer and a header be less than 2^14 bytes, the ids and the protocol have their widths and
  -- the link-layer addresses 6 bytes, and the device be connected, not busy, with room on its
  -- heap, an empty queue and a receive buffer of that MTU. Then a packet that __make_data_pkt
  -- makes for the device is sent as a frame, the frame is received, the packet is queued, and
  -- nso_layer_recv returns the sender's id, the device's, the protocol, and the first `size` of
  -- the first mtu - 20 bytes.
  pub over_air :
      (env : Env) (nsol : NsoLayer) (handle : WifiHandle) (mac : L2Addr) (env' : Env)
      (dev : NsoLayer) (buffer : Packet) (buf : List ℕ) (proto size : ℕ)
      → Gives env nsol.mtu
      → 20 ≤ nsol.mtu
      → nsol.mtu < 2 ^ 14
      → 20 + length buf < 2 ^ 14
      → nsol.dev_id < 2 ^ 64
      → proto < 2 ^ 16
      → 6 ≤ length handle.if_mac
      → 6 ≤ length mac
      → IsReady dev
      → IsBuffer nsol.mtu buffer
      → Gives env' nsol.mtu
      → Returns
          (λ pkt.
            Returns
              (λ s.
                (f : Frame) × (s.frame ≡ some f)
                × Returns
                    (λ r.
                      Returns
                        (λ dev'.
                          Returns
                            (λ d. d.0 ≡ record {
                              src = nsol.dev_id;
                              dst = dev.dev_id;
                              proto = proto;
                              bytes = take size (take (nsol.mtu - 20) buf);
                            })
                            (nso_layer_recv dev' size))
                        (data_process_rx env' dev r.pkt))
                    (wifi_receive f.bytes buffer))
              (wifi_send env.accepts handle pkt mac))
          (make_data_pkt env nsol buf dev.dev_id proto)
  over_air env nsol handle mac env' dev buffer buf proto size g m1 m2 short b1 b3 hm lm r bu g' =
      Returns-mono
        (make_data_pkt-Made env nsol g.block buf dev.dev_id proto g.given g.long m1 m2 short)
        λ pkt (m, at).
          let n = min (20 + length buf) nsol.mtu in
          Returns-mono
            (wifi_send-wifi_receive env.accepts handle pkt mac buffer (omega arith)
              (record { within = omega (arith, m.byte_len, m.header.fits.within, m.within) }) hm lm
              (omega (arith, bu.at)) (record { within = omega (arith, m.byte_len, bu.fits.within) })
              (omega (arith, m.byte_len, bu.of_size)) (omega (arith, m.byte_len)))
            λ s (f, given, back). (
              f,
              given,
              Returns-mono back λ q a.
                  Returns-mono
                    (data_process_rx-recv env' dev q.pkt g'.block size r.connected r.state_free
                      r.data_free r.queue r.room (ReceivedAs-Made m a) b1 r.id_64 b3 g'.given
                      (omega (arith, g'.long, a.same_size, bu.of_size))
                      (omega (arith, a.same_data, bu.at, a.same_size, bu.of_size)))
                    λ dev' h. Returns-mono h λ d e.
                      e
                      ∙ ap
                          (λ bytes. record {
                            src = nsol.dev_id;
                            dst = dev.dev_id;
                            proto = proto;
                            bytes = bytes;
                          })
                          (deliver-take size nsol.mtu buf m1),
            )
