-- ===== src/Device/Queue.antt =====
-- A data packet for a device: data_process_rx of nso/src/nso_lib/nso.c puts a copy into the queue
-- from which nso_layer_recv reads.
use nrg_5_sorbonne.Base.{
  ℕ, ◌+◌, ◌-◌, ◌^◌, ◌≤◌, ◌<◌, ◌≡◌, ◌≢◌, refl, ap, sym, ◌∙◌, min, false, some, List, [], ◌∷◌, ◌++◌,
  arith, length, take, ==_refl,
}
use nrg_5_sorbonne.Kernel.{Kernel}
use nrg_5_sorbonne.Memory.{ok, Returns, returns, Returns-bind, Returns-mono}
use nrg_5_sorbonne.NsoCommon.{device_id_equal}
use nrg_5_sorbonne.Packet.{Packet, get_devid, peek}
use nrg_5_sorbonne.Packet.Header.{Fits}
use nrg_5_sorbonne.Packet.Fields.{dst-ok}
use nrg_5_sorbonne.Packet.Contents.{SameBytes, packet_clone-SameBytes}
use nrg_5_sorbonne.Queue.Fifo.{IsPq, pq_put_packet-IsPq, pq_get_packet-cons, pq_empty-cons}
use nrg_5_sorbonne.Nso.State.{Env, NsoLayer, nrg5_connected, check_state, lock_state}
use nrg_5_sorbonne.Nso.Data.{nso_layer_recv}
use nrg_5_sorbonne.Packet.Made.{Made, Made-SameBytes}
use nrg_5_sorbonne.Nso.Data.RoundTrip.{deliver-Made}
use nrg_5_sorbonne.Device.Data.{enqueue, data_process_rx}

module _ ⦃K : Kernel⦄ where
  -- The device as data_process_rx leaves it: a copy of the packet is behind the packets `xs`.
  pub record Queued (nsol : NsoLayer) (pkt : Packet) (xs : List Packet) (n : NsoLayer)
      : Type 0 where
    pub copy : Packet
    pub same : SameBytes pkt.byte_len pkt copy
    pub same_len : copy.byte_len ≡ pkt.byte_len
    pub queue : IsPq n.data_pq (xs ++ copy ∷ [])
    pub rest : n ≡ record nsol { data_pq = n.data_pq }

  -- A data packet for a connected device that is not busy is copied behind those of the queue.
  pub data_process_rx-Queued :
      (env : Env) (nsol : NsoLayer) (pkt : Packet) (block : List ℕ) {xs : List Packet}
      → nsol.dev_state ≡ nrg5_connected
      → nsol.state_lock ≡ false
      → nsol.data_lock ≡ false
      → IsPq nsol.data_pq xs
      → nsol.data_pq.heap.room ≢ 0
      → get_devid pkt 8 ≡ ok nsol.dev_id
      → env.block ≡ some block
      → length block ≡ pkt.size + 128
      → pkt.data_at + pkt.byte_len ≤ pkt.size + 128
      → Fits pkt pkt.byte_len
      → Returns (Queued nsol pkt xs) (data_process_rx env nsol pkt)
  unfolding data_process_rx enqueue check_state lock_state device_id_equal
  data_process_rx-Queued env nsol pkt block c free idle w room mine given e b f =
      rw (free, c, mine, ==_refl nsol.dev_id, idle, given)
        (Returns-bind (packet_clone-SameBytes block pkt e b f) λ q (s, l).
          Returns-bind (pq_put_packet-IsPq nsol.data_pq q w room)
            λ pq v. returns (record { copy = q; same = s; same_len = l; queue = v; rest = refl }))

  recv-deliver :
      (n : NsoLayer) (q : Packet) (size : ℕ) {src dst proto k : ℕ} {bytes : List ℕ}
      → n.dev_state ≡ nrg5_connected
      → n.state_lock ≡ false
      → n.data_lock ≡ false
      → IsPq n.data_pq (q ∷ [])
      → Made q src dst proto k bytes
      → src < 2 ^ 64
      → dst < 2 ^ 64
      → proto < 2 ^ 16
      → Returns
          (λ r. r.0 ≡ record {
            src = src;
            dst = dst;
            proto = proto;
            bytes = take (min size (k - 20)) bytes;
          })
          (nso_layer_recv n size)
  unfolding nso_layer_recv check_state lock_state
  recv-deliver n q size c free idle w m b1 b2 b3 =
      rw (free, c, idle, pq_empty-cons n.data_pq w)
        (Returns-bind (pq_get_packet-cons n.data_pq w)
          λ r (is, _). rw (is, deliver-Made size m b1 b2 b3) (returns refl))

  -- With an empty queue, it is the packet that nso_layer_recv then returns.
  pub data_process_rx-recv :
      (env : Env) (nsol : NsoLayer) (pkt : Packet) (block : List ℕ) (size : ℕ) {src proto n : ℕ}
      {bytes : List ℕ}
      → nsol.dev_state ≡ nrg5_connected
      → nsol.state_lock ≡ false
      → nsol.data_lock ≡ false
      → IsPq nsol.data_pq []
      → nsol.data_pq.heap.room ≢ 0
      → Made pkt src nsol.dev_id proto n bytes
      → src < 2 ^ 64
      → nsol.dev_id < 2 ^ 64
      → proto < 2 ^ 16
      → env.block ≡ some block
      → length block ≡ pkt.size + 128
      → pkt.data_at + n ≤ pkt.size + 128
      → Returns
          (λ n'.
            Returns
              (λ r. r.0 ≡ record {
                src = src;
                dst = nsol.dev_id;
                proto = proto;
                bytes = take (min size (n - 20)) bytes;
              })
              (nso_layer_recv n' size))
          (data_process_rx env nsol pkt)
  data_process_rx-recv env nsol pkt block size {n = n} c free idle w room m b1 b2 b3 given e b =
      let fits : Fits pkt pkt.byte_len = record {
        within = omega (arith, m.header.fits.within, m.within, m.byte_len);
      } in
      Returns-mono
        (data_process_rx-Queued env nsol pkt block c free idle w room (dst-ok m.header b2) given e
          (omega (arith, m.byte_len)) fits)
        λ n' d.
          let same : SameBytes n pkt d.copy = record {
            fits = record { within = omega (arith, d.same.fits.within, m.byte_len) };
            same = ap (peek d.copy 0) (sym m.byte_len) ∙ d.same.same ∙ ap (peek pkt 0) m.byte_len;
          } in
          recv-deliver n' d.copy size (ap (λ x. x.dev_state) d.rest ∙ c)
            (ap (λ x. x.state_lock) d.rest ∙ free) (ap (λ x. x.data_lock) d.rest ∙ idle) d.queue
            (Made-SameBytes m same (d.same_len ∙ m.byte_len)) b1 b2 b3
