-- ===== src/Packet/Contents.antt =====
-- The bytes of a packet from its data pointer on, wherever they lie in a buffer.
use nrg_5_sorbonne.Base.{
  ℕ, zero, suc, ◌+◌, ◌≤◌, ◌≡◌, refl, ap, ap₂, sym, ◌∙◌, inl, some, List, [], ◌∷◌, ◌++◌, arith,
  length, take, drop, get_or, replicate, length-take, length-drop, length-append, length-replicate,
}
use nrg_5_sorbonne.Memory.{ok, ◌>>=◌, Returns, returns}
use nrg_5_sorbonne.NsoCommon.{of_bytes}
use nrg_5_sorbonne.Packet.{
  Packet, alloc_packet, slice, peek, poke, packet_clone, get_bytes, get_byte, get_u16, get_devid,
}
use nrg_5_sorbonne.Packet.Bytes.{peek-poke_self, peek-poke_apart}
use nrg_5_sorbonne.Packet.Header.{Fits, Fits-poke, get_bytes-ok, put_bytes-ok}
use nrg_5_sorbonne.Packet.Fields.{Header}

drop-drop : (a b c : ℕ) (xs : List ℕ) → c ≡ a + b → drop c xs ≡ drop b (drop a xs)
drop-drop zero b c xs e = ap (λ n. drop n xs) (omega arith)
drop-drop (suc a) b zero xs e = absurd (omega arith)
drop-drop (suc a) zero (suc c) [] e = refl
drop-drop (suc a) (suc b) (suc c) [] e = refl
drop-drop (suc a) b (suc c) (x ∷ xs) e = drop-drop a b c xs (omega arith)

pub take-all : (n : ℕ) (xs : List ℕ) → length xs ≤ n → take n xs ≡ xs
take-all zero [] h = refl
take-all zero (x ∷ xs) h = absurd (omega arith)
take-all (suc n) [] h = refl
take-all (suc n) (x ∷ xs) h = ap (◌∷◌ x) (take-all n xs (omega arith))

slice-take : (off k n : ℕ) (xs : List ℕ) → off + k ≤ n → slice off k (take n xs) ≡ slice off k xs
slice-take zero zero n xs h = refl
slice-take zero (suc k) zero xs h = absurd (omega arith)
slice-take zero (suc k) (suc n) [] h = refl
slice-take zero (suc k) (suc n) (x ∷ xs) h = ap (◌∷◌ x) (slice-take zero k n xs (omega arith))
slice-take (suc off) k zero xs h = absurd (omega arith)
slice-take (suc off) k (suc n) [] h = refl
slice-take (suc off) k (suc n) (x ∷ xs) h = slice-take off k n xs (omega arith)

take-nil : (n : ℕ) → take {A = ℕ} n [] ≡ []
take-nil zero = refl
take-nil (suc n) = refl

take-add : (a b n : ℕ) (xs : List ℕ) → n ≡ a + b → take n xs ≡ take a xs ++ take b (drop a xs)
take-add zero b n xs e = ap (λ k. take k xs) (omega arith)
take-add (suc a) b zero xs e = absurd (omega arith)
take-add (suc a) b (suc n) [] e = sym (take-nil b)
take-add (suc a) b (suc n) (x ∷ xs) e = ap (◌∷◌ x) (take-add a b n xs (omega arith))

-- Bytes from an offset on, in two parts.
pub peek-append :
    (p : Packet) (off a b n : ℕ) → n ≡ a + b → peek p off n ≡ peek p off a ++ peek p (off + a) b
unfolding peek
peek-append p off a b n e =
    take-add a b n (drop (p.data_at + off) p.buf) e
    ∙ ap (λ xs. take a (drop (p.data_at + off) p.buf) ++ take b xs)
        (sym (drop-drop (p.data_at + off) a (p.data_at + (off + a)) p.buf (omega arith)))

-- Bytes that are written behind what is there.
pub peek-extend :
    (p : Packet) {m : ℕ} (off k at n : ℕ) (bs cs : List ℕ)
    → Fits p m
    → at ≡ off + k
    → n ≡ k + length cs
    → at + length cs ≤ m
    → peek p off k ≡ bs
    → peek (poke at cs p) off n ≡ bs ++ cs
peek-extend p off k at n bs cs f is len room e =
    let q = poke at cs p in
    peek-append q off k (length cs) n len
    ∙ ap₂ ◌++◌ (peek-poke_apart p at cs off k (inl (omega arith)) ∙ e) (
        ap (λ o. peek q o (length cs)) (sym is)
        ∙ peek-poke_self p at cs (length cs) (omega (arith, f.within)) refl)

-- Bytes among the `n` from an offset on are found there.
pub peek-within :
    (p : Packet) (at off k n : ℕ) → off + k ≤ n → peek p (at + off) k ≡ slice off k (peek p at n)
unfolding peek
peek-within p at off k n h =
    ap (take k) (drop-drop (p.data_at + at) off (p.data_at + (at + off)) p.buf (omega arith))
    ∙ sym (slice-take off k n (drop (p.data_at + at) p.buf) h)

pub peek-slice : (p : Packet) (off k n : ℕ) → off + k ≤ n → peek p off k ≡ slice off k (peek p 0 n)
peek-slice p off k n h =
    ap (λ o. peek p o k) {x = off} {y = 0 + off} (omega arith) ∙ peek-within p 0 off k n h

pub length-peek : (p : Packet) {n : ℕ} → Fits p n → length (peek p 0 n) ≡ n
unfolding peek
length-peek p {n} f =
    omega (
      arith,
      f.within,
      length-take n (drop (p.data_at + 0) p.buf),
      length-drop (p.data_at + 0) p.buf,
    )

-- The same first `n` bytes.
pub record SameBytes (n : ℕ) (p q : Packet) : Type 0 where
  pub fits : Fits q n
  pub same : peek q 0 n ≡ peek p 0 n

module _ {n : ℕ} {p q : Packet} (s : SameBytes n p q) where
  pub peek-SameBytes : (off k : ℕ) → off + k ≤ n → peek q off k ≡ peek p off k
  peek-SameBytes off k h =
      peek-slice q off k n h ∙ ap (slice off k) s.same ∙ sym (peek-slice p off k n h)

  pub Header-SameBytes :
      {m src dst proto len_ver : ℕ}
      → Header p m src dst proto len_ver
      → 20 ≤ n
      → Header q n src dst proto len_ver
  Header-SameBytes h b = record {
    fits = s.fits;
    long = b;
    src_bytes = peek-SameBytes 0 8 (omega arith) ∙ h.src_bytes;
    dst_bytes = peek-SameBytes 8 8 (omega arith) ∙ h.dst_bytes;
    proto_bytes = peek-SameBytes 16 2 (omega arith) ∙ h.proto_bytes;
    len_bytes = peek-SameBytes 18 2 (omega arith) ∙ h.len_bytes;
  }

-- What is read of a packet is read of one with the same bytes.
module _ {n : ℕ} {p q : Packet} (s : SameBytes n p q) (f : Fits p n) where
  get_bytes-SameBytes : (off k : ℕ) → off + k ≤ n → get_bytes q off k ≡ get_bytes p off k
  get_bytes-SameBytes off k h =
      get_bytes-ok q s.fits off k h
      ∙ ap ok (peek-SameBytes s off k h)
      ∙ sym (get_bytes-ok p f off k h)

  pub get_byte-SameBytes : (off : ℕ) → off + 1 ≤ n → get_byte q off ≡ get_byte p off
  unfolding get_byte
  get_byte-SameBytes off h = ap (λ r. r >>= λ bs. ok (get_or bs 0 0)) (get_bytes-SameBytes off 1 h)

  pub get_u16-SameBytes : (off : ℕ) → off + 2 ≤ n → get_u16 q off ≡ get_u16 p off
  unfolding get_u16
  get_u16-SameBytes off h = ap (λ r. r >>= λ bs. ok (of_bytes bs)) (get_bytes-SameBytes off 2 h)

  pub get_devid-SameBytes : (off : ℕ) → off + 8 ≤ n → get_devid q off ≡ get_devid p off
  unfolding get_devid
  get_devid-SameBytes off h = ap (λ r. r >>= λ bs. ok (of_bytes bs)) (get_bytes-SameBytes off 8 h)

length-alloc :
    (block : List ℕ) (size : ℕ)
    → length block ≡ size + 128
    → length (replicate size 0 ++ drop size block) ≡ size + 128
length-alloc block size e = omega (
  arith,
  length-append (replicate size 0) (drop size block),
  length-replicate {A = ℕ} size 0,
  length-drop size block,
)

-- If malloc gives a block for a packet of the same size, whose bytes fit their buffer, packet_clone
-- returns a packet with the same bytes.
pub packet_clone-SameBytes :
    (block : List ℕ) (pkt : Packet)
    → length block ≡ pkt.size + 128
    → pkt.data_at + pkt.byte_len ≤ pkt.size + 128
    → Fits pkt pkt.byte_len
    → Returns
        (λ q. SameBytes pkt.byte_len pkt q × (q.byte_len ≡ pkt.byte_len))
        (packet_clone (some block) pkt)
unfolding packet_clone alloc_packet
packet_clone-SameBytes block pkt e b f =
    let n = pkt.byte_len in
    let q : Packet = record {
      size = pkt.size;
      byte_len = n;
      data_at = pkt.data_at;
      tail = pkt.data_at + n;
      buf = replicate pkt.size 0 ++ drop pkt.size block;
    } in
    let room : Fits q n = record { within = omega (arith, length-alloc block pkt.size e) } in
    let len = length-peek pkt f in
    rw (get_bytes-ok pkt f 0 n (omega arith), put_bytes-ok q room 0 (peek pkt 0 n) (omega arith))
      (returns (
        record {
          fits = Fits-poke q room 0 (peek pkt 0 n);
          same = peek-poke_self q 0 (peek pkt 0 n) n (omega (arith, room.within)) (sym len);
        },
        refl,
      ))
