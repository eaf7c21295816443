-- ===== src/Nso/Data/RoundTrip.antt =====
-- A data packet from __make_data_pkt to nso_layer_recv, both in bs/src/bs_lib/nso.c.
use nrg_5_sorbonne.Base.{
  ℕ, zero, suc, ◌+◌, ◌-◌, ◌%◌, ◌^◌, ◌≤◌, ◌<◌, ◌≡◌, refl, ap, sym, ◌∙◌, min, false, some, List, [],
  ◌∷◌, arith, length, take, drop, length-take, if◌then◌else◌, ltb, lt→ltb, inr,
}
use nrg_5_sorbonne.Kernel.{Kernel}
use nrg_5_sorbonne.Memory.{ok, crash, Returns-crash, Returns, returns, Returns-bind, Returns-mono}
use nrg_5_sorbonne.NsoCommon.{DeviceId, to_bytes}
use nrg_5_sorbonne.NsoCommon.Bytes.{length-to_bytes}
use nrg_5_sorbonne.Packet.{Packet, peek, poke, packet_inc_len, htons, with_length, length_of}
use nrg_5_sorbonne.Packet.Bytes.{peek-poke_self, peek-poke_apart}
use nrg_5_sorbonne.Packet.Header.{put_bytes-ok, get_bytes-ok, htons-htons, htons-lt}
use nrg_5_sorbonne.Packet.Fields.{
  Header-payload, Header-len, Header-inc_len, src-ok, dst-ok, proto-ok, len_ver-ok, set_len_ver-ok,
  start_pkt-Started,
}
use nrg_5_sorbonne.Packet.Made.{Made, alloc_packet-Fits}
use nrg_5_sorbonne.Nso.State.{Env, NsoLayer}
use nrg_5_sorbonne.Nso.Data.{data_length, make_data_pkt, deliver}

-- The length field of a data packet that does not overflow its 14 bits.
length_of-data_length :
    (mtu size len_ver : ℕ)
    → mtu < 2 ^ 14
    → 20 + size < 2 ^ 14
    → length_of (data_length mtu size len_ver) ≡ min (20 + size) mtu
unfolding length_of data_length with_length
length_of-data_length mtu size len_ver m s = ground arith

data_length-lt : (mtu size len_ver : ℕ) → len_ver < 2 ^ 14 → data_length mtu size len_ver < 2 ^ 16
unfolding data_length with_length
data_length-lt mtu size len_ver b = ground arith

overflow_lt :
    (mtu size len_ver : ℕ)
    → 20 ≤ mtu
    → (20 + size) % 2 ^ 14 < 20
    → length_of (data_length mtu size len_ver) < 20
unfolding length_of data_length with_length
overflow_lt mtu size len_ver m over = ground arith

take-take : (k n : ℕ) (xs : List ℕ) → k ≤ n → take k (take n xs) ≡ take k xs
take-take zero n xs h = refl
take-take (suc k) zero xs h = absurd (omega arith)
take-take (suc k) (suc n) [] h = refl
take-take (suc k) (suc n) (x ∷ xs) h = ap (◌∷◌ x) (take-take k n xs (omega arith))

take-length : (n : ℕ) (xs : List ℕ) → take (min (length xs) n) xs ≡ take n xs
take-length zero xs = let e : min (length xs) 0 ≡ 0 = omega arith in rw e
take-length (suc n) [] = let e : min 0 (suc n) ≡ 0 = omega arith in rw e
take-length (suc n) (x ∷ xs) =
    let e : min (suc (length xs)) (suc n) ≡ suc (min (length xs) n) = omega arith in
    rw e (ap (◌∷◌ x) (take-length n xs))

-- What a caller with room for `size` bytes gets of the bytes that a packet has.
pub deliver-take :
    (size mtu : ℕ) (buf : List ℕ)
    → 20 ≤ mtu
    → take (min size (min (20 + length buf) mtu - 20)) (take (mtu - 20) buf)
      ≡ take size (take (mtu - 20) buf)
deliver-take size mtu buf m =
    let sent = take (mtu - 20) buf in
    let e : min size (min (20 + length buf) mtu - 20) ≡ min (length sent) size =
      omega (arith, length-take (mtu - 20) buf) in
    rw (e, take-length size sent)

peek-take : (p : Packet) (off k n : ℕ) → k ≤ n → peek p off k ≡ take k (peek p off n)
unfolding peek
peek-take p off k n h = sym (take-take k n (drop (p.data_at + off) p.buf) h)

at_least→ltb : (n : ℕ) → 20 ≤ n → ltb n 20 ≡ false
at_least→ltb n h = ground arith

if-min : (a b : ℕ) → (if ltb a b then a else b) ≡ min a b
if-min a b = ground arith

-- Delivering such a packet gives its fields back, and as many bytes as the caller has room for.
pub deliver-Made :
    ⦃K : Kernel⦄ {pkt : Packet} {src dst proto n : ℕ} {bytes : List ℕ} (size : ℕ)
    → Made pkt src dst proto n bytes
    → src < 2 ^ 64
    → dst < 2 ^ 64
    → proto < 2 ^ 16
    → deliver size pkt
      ≡ ok (record { src = src; dst = dst; proto = proto; bytes = take (min size (n - 20)) bytes })
unfolding deliver
deliver-Made {pkt} {src} {dst} {proto} {n} {bytes} size m bs bd bp =
    let v = m.len_ver in
    let h2 = Header-len m.header v in
    let k = min size (n - 20) in
    let read : peek (poke 18 (to_bytes 2 v) pkt) 20 k ≡ take k bytes =
      peek-poke_apart pkt 18 (to_bytes 2 v) 20 k (inr (omega (arith, length-to_bytes 2 v)))
      ∙ peek-take pkt 20 k (n - 20) (omega arith)
      ∙ ap (take k) m.payload in
    rw (
      src-ok m.header bs,
      dst-ok m.header bd,
      proto-ok m.header (htons-lt proto),
      set_len_ver-ok m.header htons (htons-lt v),
      htons-htons v m.in_16,
      htons-htons proto bp,
      len_ver-ok h2 m.in_16,
      m.len,
      at_least→ltb n m.at_least,
      if-min size (n - 20),
      get_bytes-ok _ h2.fits 20 k (omega (arith, m.within, m.at_least)),
      read,
    )

module _ ⦃K : Kernel⦄ (env : Env) (nsol : NsoLayer) (block : List ℕ) where
  pub make_data_pkt-Made :
      (buf : List ℕ) (dst : DeviceId) (proto : ℕ)
      → env.block ≡ some block
      → length block ≡ nsol.mtu + 128
      → 20 ≤ nsol.mtu
      → nsol.mtu < 2 ^ 14
      → 20 + length buf < 2 ^ 14
      → Returns
          (λ pkt.
            Made pkt nsol.dev_id dst proto
              (min (20 + length buf) nsol.mtu)
              (take (nsol.mtu - 20) buf)
            × (pkt.data_at ≡ 64))
          (make_data_pkt env nsol buf dst proto)
  unfolding make_data_pkt poke packet_inc_len peek
  make_data_pkt-Made buf dst proto given size m1 m2 short = rw given (
      Returns-bind (alloc_packet-Fits block nsol.mtu size) λ p0 (f0, empty, at).
        Returns-bind (start_pkt-Started p0 (nsol.mtu + 64) nsol.dev_id dst proto f0 (omega arith))
          λ p1 s.
            let x = data_length nsol.mtu (length buf) s.len_ver in
            let x16 = data_length-lt nsol.mtu (length buf) s.len_ver s.no_version in
            let h2 = Header-len s.header x in
            let p2 = poke 18 (to_bytes 2 x) p1 in
            let l = min (20 + length buf) nsol.mtu in
            let is_l = length_of-data_length nsol.mtu (length buf) s.len_ver m2 short in
            let bytes = take (l - 20) buf in
            let p3 = poke 20 bytes p2 in
            let in_16 : s.len_ver < 2 ^ 16 = omega (arith, s.no_version) in
            let cut = take-length (nsol.mtu - 20) buf in
            let same_bytes : bytes ≡ take (nsol.mtu - 20) buf =
              ap (λ k. take k buf) (omega arith) ∙ cut in
            let h3 = Header-inc_len (Header-payload h2 20 bytes (omega arith)) l in
            rw
              (
                set_len_ver-ok s.header (data_length nsol.mtu (length buf)) in_16,
                len_ver-ok h2 x16,
                is_l,
                at_least→ltb l (omega arith),
                put_bytes-ok p2 h2.fits 20 bytes (omega (arith, length-take (l - 20) buf)),
                set_len_ver-ok h3 htons x16,
              )
              (returns (
                record {
                  room = nsol.mtu + 64;
                  len_ver = x;
                  header = Header-len h3 (htons x);
                  in_16 = x16;
                  len = is_l;
                  at_least = omega arith;
                  within = omega arith;
                  byte_len = omega (arith, s.same_len, empty);
                  payload =
                      peek-poke_apart (packet_inc_len p3 l) 18 (to_bytes 2 (htons x)) 20 (l - 20)
                        (inr (omega (arith, length-to_bytes 2 (htons x))))
                      ∙ peek-poke_self p2 20 bytes (l - 20)
                          (omega (arith, h2.fits.within, length-take (l - 20) buf))
                          (omega (arith, length-take (l - 20) buf))
                      ∙ same_bytes;
                },
                s.same_data ∙ at,
              )))

  -- If malloc gives a block of mtu + 128 bytes, 20 ≤ mtu < 2^14, the buffer and a header are less
  -- than 2^14 bytes, and the ids and the protocol have their widths, then __make_data_pkt returns
  -- a packet, and what nso_layer_recv takes out of it for a caller with room for `size` bytes is
  -- the station's id, the destination, the protocol, and the first `size` of the first mtu - 20
  -- bytes of the buffer.
  pub make_data_pkt-deliver :
      (buf : List ℕ) (dst : DeviceId) (proto size : ℕ)
      → env.block ≡ some block
      → length block ≡ nsol.mtu + 128
      → 20 ≤ nsol.mtu
      → nsol.mtu < 2 ^ 14
      → 20 + length buf < 2 ^ 14
      → nsol.dev_id < 2 ^ 64
      → dst < 2 ^ 64
      → proto < 2 ^ 16
      → Returns
          (λ pkt.
            deliver size pkt
            ≡ ok (record {
              src = nsol.dev_id;
              dst = dst;
              proto = proto;
              bytes = take size (take (nsol.mtu - 20) buf);
            }))
          (make_data_pkt env nsol buf dst proto)
  make_data_pkt-deliver buf dst proto size given len m1 m2 short b1 b2 b3 =
      Returns-mono (make_data_pkt-Made buf dst proto given len m1 m2 short)
        λ pkt (m, _). rw (deliver-Made size m b1 b2 b3, deliver-take size nsol.mtu buf m1)

  -- If malloc gives a block of mtu + 128 bytes, 20 ≤ mtu, and the length of the buffer with a
  -- header is less than 20 modulo 2^14, then __make_data_pkt copies a negative number of bytes,
  -- which is a crash here.
  pub make_data_pkt-overflow :
      (buf : List ℕ) (dst : DeviceId) (proto : ℕ)
      → env.block ≡ some block
      → length block ≡ nsol.mtu + 128
      → 20 ≤ nsol.mtu
      → (20 + length buf) % 2 ^ 14 < 20
      → make_data_pkt env nsol buf dst proto ≡ crash
  unfolding make_data_pkt
  make_data_pkt-overflow buf dst proto given len m over = rw given (
      Returns-crash (alloc_packet-Fits block nsol.mtu len) λ p0 (f0, empty, at).
        Returns-crash (start_pkt-Started p0 (nsol.mtu + 64) nsol.dev_id dst proto f0 (omega arith))
          λ p1 s.
            let x = data_length nsol.mtu (length buf) s.len_ver in
            let x16 = data_length-lt nsol.mtu (length buf) s.len_ver s.no_version in
            let h2 = Header-len s.header x in
            let in_16 : s.len_ver < 2 ^ 16 = omega (arith, s.no_version) in
            rw (
              set_len_ver-ok s.header (data_length nsol.mtu (length buf)) in_16,
              len_ver-ok h2 x16,
              lt→ltb (length_of x) 20 (overflow_lt nsol.mtu (length buf) s.len_ver m over),
            ))
