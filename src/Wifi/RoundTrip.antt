-- ===== src/Wifi/RoundTrip.antt =====
-- A packet from wifi_send to wifi_receive, both in bs/src/bs_lib/wifi_ops.c.
use nrg_5_sorbonne.Base.{
  ℕ, ◌+◌, ◌-◌, ◌^◌, ◌≤◌, ◌<◌, ◌≡◌, refl, ap, ap₂, sym, ◌∙◌, Bool, false, inl, inr, some, List, [],
  ◌∷◌, arith, length, take, length-take, ltb,
}
use nrg_5_sorbonne.Memory.{Returns, returns, Returns-mono}
use nrg_5_sorbonne.NsoCommon.{L2Addr, to_bytes, of_bytes, alloc_l2addr}
use nrg_5_sorbonne.NsoCommon.Bytes.{of_bytes-to_bytes, length-to_bytes}
use nrg_5_sorbonne.NsoIf.{WifiHandle}
use nrg_5_sorbonne.Packet.{Packet, peek, poke, slice, htons}
use nrg_5_sorbonne.Packet.Bytes.{peek-poke_self, peek-poke_apart}
use nrg_5_sorbonne.Packet.Header.{
  Fits, Fits-poke, get_bytes-ok, put_bytes-ok, put_u16-ok, get_u16-ok, htons-htons, htons-lt,
}
use nrg_5_sorbonne.Packet.Contents.{SameBytes, peek-slice, length-peek, take-all}
use nrg_5_sorbonne.Wifi.{Frame, Sent, Received, wifi_send, wifi_receive, wifi_read}

-- A frame of `n` bytes of data: the two addresses, the type, and the data of the packet.
pub record Framed (pkt : Packet) (n : ℕ) (mac dst : List ℕ) (bytes : List ℕ) : Type 0 where
  pub len : length bytes ≡ n + 14
  pub dst_at : slice 0 6 bytes ≡ take 6 dst
  pub src_at : slice 6 6 bytes ≡ take 6 mac
  pub type_at : slice 12 2 bytes ≡ to_bytes 2 (htons 0xF748)
  pub payload : slice 14 n bytes ≡ peek pkt 0 n

-- What wifi_send gives to sendto.
pub record SentAs (handle : WifiHandle) (pkt : Packet) (n : ℕ) (dst : L2Addr) (s : Sent)
    : Type 0 where
  pub frame : Frame
  pub given : s.frame ≡ some frame
  pub on : frame.sockfd ≡ handle.sockfd
  pub framed : Framed pkt n handle.if_mac dst frame.bytes
  pub left_at : s.pkt.data_at + 14 ≡ pkt.data_at
  pub left_len : s.pkt.byte_len ≡ n + 14
  pub left_fits : Fits s.pkt (n + 14)
  pub left : peek s.pkt 0 (n + 14) ≡ frame.bytes

not_below : (a b : ℕ) → b ≤ a → ltb a b ≡ false
not_below a b h = ground arith

length-take_six : (xs : List ℕ) → 6 ≤ length xs → length (take 6 xs) ≡ 6
length-take_six xs h = omega (arith, length-take 6 xs)

take-take_six : (xs : List ℕ) → take 6 (take 6 xs) ≡ take 6 xs
take-take_six xs = take-all 6 (take 6 xs) (omega (arith, length-take 6 xs))

pub wifi_send-SentAs :
    (accepts : Frame → Bool) (handle : WifiHandle) (pkt : Packet) (dst : L2Addr)
    → 14 ≤ pkt.data_at
    → Fits pkt pkt.byte_len
    → 6 ≤ length handle.if_mac
    → 6 ≤ length dst
    → Returns (SentAs handle pkt pkt.byte_len dst) (wifi_send accepts handle pkt dst)
unfolding wifi_send peek poke
wifi_send-SentAs accepts handle pkt dst at f mac_len dst_len =
    let n = pkt.byte_len in
    let e0 : Packet = record pkt { data_at = pkt.data_at - 14 } in
    let f0 : Fits e0 (n + 14) = record { within = omega (arith, f.within) } in
    let mac = take 6 handle.if_mac in
    let to = take 6 dst in
    let ml = length-take_six handle.if_mac mac_len in
    let dl = length-take_six dst dst_len in
    let e1 = poke 6 mac e0 in
    let f1 = Fits-poke e0 f0 6 mac in
    let e2 = poke 0 to e1 in
    let f2 = Fits-poke e1 f1 0 to in
    let ty = to_bytes 2 (htons 0xF748) in
    let tl = length-to_bytes 2 (htons 0xF748) in
    let e3 = poke 12 ty e2 in
    let f3 : Fits e3 (n + 14) = Fits-poke e2 f2 12 ty in
    let e4 : Packet = record e3 { byte_len = n + 14 } in
    let f4 : Fits e4 (n + 14) = record { within = f3.within } in
    let cut : (off k : ℕ) → off + k ≤ n + 14 → slice off k (peek e4 0 (n + 14)) ≡ peek e3 off k =
      λ off k h. sym (peek-slice e4 off k (n + 14) h) in
    rw
      (
        not_below pkt.data_at 14 at,
        put_bytes-ok e0 f0 6 mac (omega arith),
        put_bytes-ok e1 f1 0 to (omega arith),
        put_u16-ok e2 f2 12 (htons 0xF748) (omega arith),
        get_bytes-ok e4 f4 0 (n + 14) (omega arith),
      )
      (returns (record {
        frame = record { sockfd = handle.sockfd; bytes = peek e4 0 (n + 14) };
        given = refl;
        on = refl;
        framed = record {
          len = length-peek e4 f4;
          dst_at =
              cut 0 6 (omega arith)
              ∙ peek-poke_apart e2 12 ty 0 6 (inl (omega arith))
              ∙ peek-poke_self e1 0 to 6 (omega (arith, f1.within)) (sym dl);
          src_at =
              cut 6 6 (omega arith)
              ∙ peek-poke_apart e2 12 ty 6 6 (inl (omega arith))
              ∙ peek-poke_apart e1 0 to 6 6 (inr (omega arith))
              ∙ peek-poke_self e0 6 mac 6 (omega (arith, f0.within)) (sym ml);
          type_at =
              cut 12 2 (omega arith)
              ∙ peek-poke_self e2 12 ty 2 (omega (arith, f2.within)) (sym tl);
          payload =
              cut 14 n (omega arith)
              ∙ peek-poke_apart e2 12 ty 14 n (inr (omega arith))
              ∙ peek-poke_apart e1 0 to 14 n (inr (omega arith))
              ∙ peek-poke_apart e0 6 mac 14 n (inr (omega arith))
              ∙ ap (λ o. slice o n pkt.buf) (omega arith);
        };
        left_at = omega arith;
        left_len = refl;
        left_fits = f4;
        left = refl;
      }))

-- What wifi_receive leaves of the frame in `buffer`.
pub record ReceivedAs (buffer pkt : Packet) (n : ℕ) (mac dst : List ℕ) (r : Received) : Type 0 where
  pub same_size : r.pkt.size ≡ buffer.size
  pub same_data : r.pkt.data_at ≡ buffer.data_at
  pub same : SameBytes n pkt r.pkt
  pub same_len : r.pkt.byte_len ≡ n
  pub addrs : r.addrs ≡ some (take 6 mac, take 6 dst)

wifi_read-ReceivedAs :
    (bytes : List ℕ) (buffer q pkt : Packet) (n : ℕ) (mac dst : List ℕ)
    → Framed pkt n mac dst bytes
    → Fits q (n + 14)
    → q.size ≡ buffer.size
    → q.data_at + 14 ≡ buffer.data_at
    → n + 14 < 2 ^ 32
    → Returns (ReceivedAs buffer pkt n mac dst) (wifi_read bytes q)
unfolding wifi_read alloc_l2addr peek poke
wifi_read-ReceivedAs [] buffer q pkt n mac dst g f sz da small = absurd (omega (arith, g.len))
wifi_read-ReceivedAs (b ∷ bs) buffer q pkt n mac dst g f sz da small =
    let xs = b ∷ bs in
    let q1 = poke 0 xs q in
    let f1 = Fits-poke q f 0 xs in
    let whole : peek q1 0 (n + 14) ≡ xs =
      peek-poke_self q 0 xs (n + 14) (omega (arith, f.within, g.len)) (sym g.len) in
    let got : (off k : ℕ) → off + k ≤ n + 14 → peek q1 off k ≡ slice off k xs =
      λ off k h. peek-slice q1 off k (n + 14) h ∙ ap (slice off k) whole in
    let w = htons 0xF748 in
    let typed : htons (of_bytes (peek q1 12 2)) ≡ 0xF748 =
      ap (λ l. htons (of_bytes l)) (got 12 2 (omega arith) ∙ g.type_at)
      ∙ ap htons (of_bytes-to_bytes 2 w (htons-lt 0xF748))
      ∙ htons-htons 0xF748 (omega arith) in
    rw
      (
        put_bytes-ok q f 0 xs (omega (arith, g.len)),
        get_u16-ok q1 f1 12 (omega arith),
        typed,
        get_bytes-ok q1 f1 6 6 (omega arith),
        get_bytes-ok q1 f1 0 6 (omega arith),
      )
      (returns (record {
        same_size = sz;
        same_data = da;
        same = record {
          fits = record { within = omega (arith, f1.within) };
          same =
              ap (λ o. slice o n q1.buf) {x = q1.data_at + 14 + 0} {y = q1.data_at + 14}
                (omega arith)
              ∙ got 14 n (omega arith)
              ∙ g.payload;
        };
        same_len = omega (arith, g.len);
        addrs =
            ap₂ (λ a b. some (a, b))
              (ap (take 6) (got 6 6 (omega arith) ∙ g.src_at) ∙ take-take_six mac)
              (ap (take 6) (got 0 6 (omega arith) ∙ g.dst_at) ∙ take-take_six dst);
      }))

-- The same, on the socket of the handle.
pub wifi_send-wifi_receive_on :
    (accepts : Frame → Bool) (handle : WifiHandle) (pkt : Packet) (dst : L2Addr) (buffer : Packet)
    → 14 ≤ pkt.data_at
    → Fits pkt pkt.byte_len
    → 6 ≤ length handle.if_mac
    → 6 ≤ length dst
    → 14 ≤ buffer.data_at
    → Fits buffer pkt.byte_len
    → pkt.byte_len ≤ buffer.size
    → pkt.byte_len + 14 < 2 ^ 32
    → Returns
        (λ s.
          (f : Frame) × (s.frame ≡ some f)
          × (f.sockfd ≡ handle.sockfd)
          × Returns
              (ReceivedAs buffer pkt pkt.byte_len handle.if_mac dst)
              (wifi_receive f.bytes buffer))
        (wifi_send accepts handle pkt dst)
unfolding wifi_receive
wifi_send-wifi_receive_on accepts handle pkt dst buffer at f mac_len dst_len at' f' room small =
    Returns-mono (wifi_send-SentAs accepts handle pkt dst at f mac_len dst_len) λ s d.
      let q : Packet = record buffer { data_at = buffer.data_at - 14 } in
      let bytes = d.frame.bytes in
      (
        d.frame,
        d.given,
        d.on,
        rw
            (
              not_below buffer.data_at 14 at',
              take-all (buffer.size + 14) bytes (omega (arith, d.framed.len)),
            )
            (wifi_read-ReceivedAs bytes buffer q pkt pkt.byte_len handle.if_mac dst d.framed
              (record { within = omega (arith, f'.within) }) refl (omega arith) small),
      )

-- If a packet has at least 14 bytes before its data, its bytes are in its buffer and less than
-- 2^32 - 14, and the two addresses have 6 bytes or more, then wifi_send gives a frame to sendto;
-- wifi_receive of that frame into a buffer with room for it returns the same bytes, their number,
-- and the first 6 bytes of the sender's address and of the destination.
pub wifi_send-wifi_receive :
    (accepts : Frame → Bool) (handle : WifiHandle) (pkt : Packet) (dst : L2Addr) (buffer : Packet)
    → 14 ≤ pkt.data_at
    → Fits pkt pkt.byte_len
    → 6 ≤ length handle.if_mac
    → 6 ≤ length dst
    → 14 ≤ buffer.data_at
    → Fits buffer pkt.byte_len
    → pkt.byte_len ≤ buffer.size
    → pkt.byte_len + 14 < 2 ^ 32
    → Returns
        (λ s.
          (f : Frame) × (s.frame ≡ some f)
          × Returns
              (ReceivedAs buffer pkt pkt.byte_len handle.if_mac dst)
              (wifi_receive f.bytes buffer))
        (wifi_send accepts handle pkt dst)
wifi_send-wifi_receive accepts handle pkt dst buffer at f mac_len dst_len at' f' room small =
    Returns-mono
      (wifi_send-wifi_receive_on accepts handle pkt dst buffer at f mac_len dst_len at' f' room
        small)
      λ s (frame, given, on, back). (frame, given, back)
