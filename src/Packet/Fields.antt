-- ===== src/Packet/Fields.antt =====
-- The header of a packet as its functions leave it, and what is read from it.
use nrg_5_sorbonne.Base.{ℕ, ◌+◌, ◌^◌, ◌≤◌, ◌<◌, ◌≡◌, refl, ap, ◌∙◌, List, arith, length, inl, inr}
use nrg_5_sorbonne.Memory.{ok, Returns, returns}
use nrg_5_sorbonne.NsoCommon.{to_bytes, of_bytes}
use nrg_5_sorbonne.NsoCommon.Bytes.{of_bytes-to_bytes, length-to_bytes}
use nrg_5_sorbonne.Packet.{
  Packet, peek, poke, get_u16, get_devid, htons, with_ver, set_len_ver, start_pkt, packet_inc_len,
}
use nrg_5_sorbonne.Packet.Bytes.{peek-poke_self, peek-poke_apart, length-poke}
use nrg_5_sorbonne.Packet.Header.{
  Fits, Fits-poke, put_devid-ok, put_u16-ok, get_devid-ok, get_u16-ok,
}

-- The bytes of the header: the device ids, and the two uint16_t as they are in memory.
pub record Header (p : Packet) (n src dst proto len_ver : ℕ) : Type 0 where
  pub fits : Fits p n
  pub long : 20 ≤ n
  pub src_bytes : peek p 0 8 ≡ to_bytes 8 src
  pub dst_bytes : peek p 8 8 ≡ to_bytes 8 dst
  pub proto_bytes : peek p 16 2 ≡ to_bytes 2 proto
  pub len_bytes : peek p 18 2 ≡ to_bytes 2 len_ver

peek-to_bytes :
    (p : Packet) {n : ℕ} (f : Fits p n) (off k v : ℕ)
    → off + k ≤ n
    → peek (poke off (to_bytes k v) p) off k ≡ to_bytes k v
peek-to_bytes p f off k v h =
    peek-poke_self p off (to_bytes k v) k (omega (arith, f.within, length-to_bytes k v))
      (omega (arith, length-to_bytes k v))

apart_bytes :
    (p : Packet) (off k v o n : ℕ) → o + n ≤ off → peek (poke off (to_bytes k v) p) o n ≡ peek p o n
apart_bytes p off k v o n h = peek-poke_apart p off (to_bytes k v) o n (inl h)

module _ {p : Packet} {n src dst proto len_ver : ℕ} (h : Header p n src dst proto len_ver) where
  pub Header-payload :
      (off : ℕ) (bs : List ℕ) → 20 ≤ off → Header (poke off bs p) n src dst proto len_ver
  Header-payload off bs b = record {
    fits = Fits-poke p h.fits off bs;
    long = h.long;
    src_bytes = peek-poke_apart p off bs 0 8 (inl (omega arith)) ∙ h.src_bytes;
    dst_bytes = peek-poke_apart p off bs 8 8 (inl (omega arith)) ∙ h.dst_bytes;
    proto_bytes = peek-poke_apart p off bs 16 2 (inl (omega arith)) ∙ h.proto_bytes;
    len_bytes = peek-poke_apart p off bs 18 2 (inl (omega arith)) ∙ h.len_bytes;
  }

  pub Header-len : (v : ℕ) → Header (poke 18 (to_bytes 2 v) p) n src dst proto v
  Header-len v = record {
    fits = Fits-poke p h.fits 18 (to_bytes 2 v);
    long = h.long;
    src_bytes = apart_bytes p 18 2 v 0 8 (omega arith) ∙ h.src_bytes;
    dst_bytes = apart_bytes p 18 2 v 8 8 (omega arith) ∙ h.dst_bytes;
    proto_bytes = apart_bytes p 18 2 v 16 2 (omega arith) ∙ h.proto_bytes;
    len_bytes = peek-to_bytes p h.fits 18 2 v h.long;
  }

  pub Header-dst : (to : ℕ) → Header (poke 8 (to_bytes 8 to) p) n src to proto len_ver
  Header-dst to = record {
    fits = Fits-poke p h.fits 8 (to_bytes 8 to);
    long = h.long;
    src_bytes = apart_bytes p 8 8 to 0 8 (omega arith) ∙ h.src_bytes;
    dst_bytes = peek-to_bytes p h.fits 8 8 to (omega (arith, h.long));
    proto_bytes =
        peek-poke_apart p 8 (to_bytes 8 to) 16 2 (inr (omega (arith, length-to_bytes 8 to)))
        ∙ h.proto_bytes;
    len_bytes =
        peek-poke_apart p 8 (to_bytes 8 to) 18 2 (inr (omega (arith, length-to_bytes 8 to)))
        ∙ h.len_bytes;
  }

  pub src-ok : src < 2 ^ 64 → get_devid p 0 ≡ ok src
  src-ok b =
      get_devid-ok p h.fits 0 (omega (arith, h.long))
      ∙ ap ok (ap of_bytes h.src_bytes ∙ of_bytes-to_bytes 8 src b)

  pub dst-ok : dst < 2 ^ 64 → get_devid p 8 ≡ ok dst
  dst-ok b =
      get_devid-ok p h.fits 8 (omega (arith, h.long))
      ∙ ap ok (ap of_bytes h.dst_bytes ∙ of_bytes-to_bytes 8 dst b)

  pub proto-ok : proto < 2 ^ 16 → get_u16 p 16 ≡ ok proto
  proto-ok b =
      get_u16-ok p h.fits 16 (omega (arith, h.long))
      ∙ ap ok (ap of_bytes h.proto_bytes ∙ of_bytes-to_bytes 2 proto b)

  pub len_ver-ok : len_ver < 2 ^ 16 → get_u16 p 18 ≡ ok len_ver
  len_ver-ok b =
      get_u16-ok p h.fits 18 (omega (arith, h.long))
      ∙ ap ok (ap of_bytes h.len_bytes ∙ of_bytes-to_bytes 2 len_ver b)

  pub set_len_ver-ok :
      (f : ℕ → ℕ) → len_ver < 2 ^ 16 → set_len_ver f p ≡ ok (poke 18 (to_bytes 2 (f len_ver)) p)
  unfolding set_len_ver
  set_len_ver-ok f b = rw (len_ver-ok b, put_u16-ok p h.fits 18 (f len_ver) (omega (arith, h.long)))

with_ver_zero-lt : (v : ℕ) → with_ver 0 v < 2 ^ 14
unfolding with_ver
with_ver_zero-lt v = omega arith

-- What the first fields are after start_pkt, and what it leaves alone.
pub record Started (p : Packet) (n src dst proto : ℕ) (p' : Packet) : Type 0 where
  pub len_ver : ℕ
  pub no_version : len_ver < 2 ^ 14
  pub header : Header p' n src dst (htons proto) len_ver
  pub same_data : p'.data_at ≡ p.data_at
  pub same_len : p'.byte_len ≡ p.byte_len
  pub same_tail : p'.tail ≡ p.tail
  pub same_room : length p'.buf ≡ length p.buf

pub start_pkt-Started :
    (p : Packet) (n src dst proto : ℕ)
    → Fits p n
    → 20 ≤ n
    → Returns (Started p n src dst proto) (start_pkt src dst proto p)
unfolding start_pkt set_len_ver poke
start_pkt-Started p n src dst proto f b =
    let p1 = poke 0 (to_bytes 8 src) p in
    let f1 = Fits-poke p f 0 (to_bytes 8 src) in
    let p2 = poke 8 (to_bytes 8 dst) p1 in
    let f2 = Fits-poke p1 f1 8 (to_bytes 8 dst) in
    let w = htons proto in
    let p3 = poke 16 (to_bytes 2 w) p2 in
    let f3 = Fits-poke p2 f2 16 (to_bytes 2 w) in
    let v = with_ver 0 (of_bytes (peek p3 18 2)) in
    let p4 = poke 18 (to_bytes 2 v) p3 in
    rw
      (
        put_devid-ok p f 0 src (omega arith),
        put_devid-ok p1 f1 8 dst (omega arith),
        put_u16-ok p2 f2 16 w (omega arith),
        set_len_ver,
        get_u16-ok p3 f3 18 (omega arith),
        put_u16-ok p3 f3 18 v (omega arith),
      )
      (returns (record {
        len_ver = v;
        no_version = with_ver_zero-lt (of_bytes (peek p3 18 2));
        header = record {
          fits = Fits-poke p3 f3 18 (to_bytes 2 v);
          long = b;
          src_bytes =
              apart_bytes p3 18 2 v 0 8 (omega arith)
              ∙ apart_bytes p2 16 2 w 0 8 (omega arith)
              ∙ apart_bytes p1 8 8 dst 0 8 (omega arith)
              ∙ peek-to_bytes p f 0 8 src (omega arith);
          dst_bytes =
              apart_bytes p3 18 2 v 8 8 (omega arith)
              ∙ apart_bytes p2 16 2 w 8 8 (omega arith)
              ∙ peek-to_bytes p1 f1 8 8 dst (omega arith);
          proto_bytes =
              apart_bytes p3 18 2 v 16 2 (omega arith) ∙ peek-to_bytes p2 f2 16 2 w (omega arith);
          len_bytes = peek-to_bytes p3 f3 18 2 v (omega arith);
        };
        same_data = refl;
        same_len = refl;
        same_tail = refl;
        same_room =
            length-poke p3 18 (to_bytes 2 v)
            ∙ length-poke p2 16 (to_bytes 2 w)
            ∙ length-poke p1 8 (to_bytes 8 dst)
            ∙ length-poke p 0 (to_bytes 8 src);
      }))

pub Header-inc_len :
    {p : Packet} {n src dst proto len_ver : ℕ}
    → Header p n src dst proto len_ver
    → (k : ℕ) → Header (packet_inc_len p k) n src dst proto len_ver
unfolding packet_inc_len peek
Header-inc_len h k = record {
  fits = record { within = h.fits.within };
  long = h.long;
  src_bytes = h.src_bytes;
  dst_bytes = h.dst_bytes;
  proto_bytes = h.proto_bytes;
  len_bytes = h.len_bytes;
}
