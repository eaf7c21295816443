-- ===== src/Packet/Made.antt =====
-- A whole packet, from alloc_packet to the end of a function that makes one: its header, its length
-- and what follows the header.
use nrg_5_sorbonne.Base.{
  ℕ, ◌+◌, ◌-◌, ◌^◌, ◌≤◌, ◌<◌, ◌≡◌, refl, ◌∙◌, inr, some, List, arith, length, drop, replicate,
  length-drop, length-append, length-replicate, subst,
}
use nrg_5_sorbonne.Memory.{non_null, Returns, returns}
use nrg_5_sorbonne.NsoCommon.{to_bytes}
use nrg_5_sorbonne.NsoCommon.Bytes.{length-to_bytes}
use nrg_5_sorbonne.Packet.{
  Packet, alloc_packet, peek, poke, packet_inc_len, htons, with_length, length_of, finish_pkt,
}
use nrg_5_sorbonne.Packet.Bytes.{peek-poke_apart}
use nrg_5_sorbonne.Packet.Header.{Fits, length_of-with_length, with_length-lt}
use nrg_5_sorbonne.Packet.Contents.{SameBytes, peek-SameBytes, Header-SameBytes}
use nrg_5_sorbonne.Packet.Fields.{
  Header, Header-len, Header-dst, Header-inc_len, len_ver-ok, set_len_ver-ok,
}

-- A new packet has room for the header and the data, and 64 bytes behind them.
pub alloc_packet-Fits :
    (block : List ℕ) (size : ℕ)
    → length block ≡ size + 128
    → Returns
        (λ p. Fits p (size + 64) × (p.byte_len ≡ 0) × (p.data_at ≡ 64))
        (non_null (alloc_packet (some block) size))
unfolding alloc_packet
alloc_packet-Fits block size e = returns (
  record {
    within = omega (
      arith,
      length-append (replicate size 0) (drop size block),
      length-replicate {A = ℕ} size 0,
      length-drop size block,
    );
  },
  refl,
  refl,
)

-- A packet with a header of `n` bytes in all, and what follows it.
pub record Made (pkt : Packet) (src dst proto n : ℕ) (bytes : List ℕ) : Type 0 where
  pub room : ℕ
  pub len_ver : ℕ
  pub header : Header pkt room src dst (htons proto) (htons len_ver)
  pub in_16 : len_ver < 2 ^ 16
  pub len : length_of len_ver ≡ n
  pub at_least : 20 ≤ n
  pub within : n ≤ room
  pub byte_len : pkt.byte_len ≡ n
  pub payload : peek pkt 20 (n - 20) ≡ bytes

-- The end of a function that makes a packet of `n` bytes.
pub finish_pkt-Made :
    (p : Packet) (m src dst proto len_ver n : ℕ)
    → Header p m src dst (htons proto) len_ver
    → len_ver < 2 ^ 16
    → 20 ≤ n
    → n < 2 ^ 14
    → n ≤ m
    → p.byte_len ≡ 0
    → Returns
        (λ q. Made q src dst proto n (peek p 20 (n - 20)) × (q.data_at ≡ p.data_at))
        (finish_pkt n p)
unfolding finish_pkt packet_inc_len poke peek
finish_pkt-Made p m src dst proto v n h v16 least small within empty =
    let x = with_length n v in
    let x16 = with_length-lt n v v16 in
    let h1 = Header-len h x in
    let p1 = poke 18 (to_bytes 2 x) p in
    let is_n : length_of x ≡ n = omega (arith, length_of-with_length n v) in
    let h2 = Header-inc_len h1 n in
    let p2 = packet_inc_len p1 n in
    rw (set_len_ver-ok h (with_length n) v16, len_ver-ok h1 x16, is_n, set_len_ver-ok h2 htons x16)
      (returns (
        record {
          room = m;
          len_ver = x;
          header = Header-len h2 (htons x);
          in_16 = x16;
          len = is_n;
          at_least = least;
          within = within;
          byte_len = omega (arith, empty);
          payload =
              peek-poke_apart p2 18 (to_bytes 2 (htons x)) 20 (n - 20)
                (inr (omega (arith, length-to_bytes 2 (htons x))))
              ∙ peek-poke_apart p 18 (to_bytes 2 x) 20 (n - 20)
                  (inr (omega (arith, length-to_bytes 2 x)));
        },
        refl,
      ))

pub Made-as :
    {p : Packet} {src dst proto n k : ℕ} {xs ys : List ℕ}
    → Made p src dst proto n xs
    → n ≡ k
    → xs ≡ ys
    → Made p src dst proto k ys
Made-as {p} {src} {dst} {proto} {ys = ys} m long same =
    subst (λ j. Made p src dst proto j ys) long (subst (Made p src dst proto _) same m)

-- Another destination in the header.
pub Made-dst :
    {p : Packet} {src dst proto n : ℕ} {bytes : List ℕ}
    → Made p src dst proto n bytes
    → (to : ℕ) → Made (poke 8 (to_bytes 8 to) p) src to proto n bytes
unfolding poke
Made-dst {p} {n = n} m to = record {
  room = m.room;
  len_ver = m.len_ver;
  header = Header-dst m.header to;
  in_16 = m.in_16;
  len = m.len;
  at_least = m.at_least;
  within = m.within;
  byte_len = m.byte_len;
  payload =
      peek-poke_apart p 8 (to_bytes 8 to) 20 (n - 20) (inr (omega (arith, length-to_bytes 8 to)))
      ∙ m.payload;
}

-- Another packet with the same header and payload.
pub Made-SameBytes :
    {p q : Packet} {src dst proto n : ℕ} {bytes : List ℕ}
    → Made p src dst proto n bytes
    → SameBytes n p q
    → q.byte_len ≡ n
    → Made q src dst proto n bytes
Made-SameBytes {n = n} m s e = record {
  room = n;
  len_ver = m.len_ver;
  header = Header-SameBytes s m.header m.at_least;
  in_16 = m.in_16;
  len = m.len;
  at_least = m.at_least;
  within = omega arith;
  byte_len = e;
  payload = peek-SameBytes s 20 (n - 20) (omega (arith, m.at_least)) ∙ m.payload;
}
