-- ===== src/Packet/Header.antt =====
-- Accesses that fit the buffer succeed; the fields of the header and their byte order.
use nrg_5_sorbonne.Base.{ℕ, ◌+◌, ◌%◌, ◌^◌, ◌≤◌, ◌<◌, ◌≡◌, List, arith, length, length}
use nrg_5_sorbonne.Memory.{ok}
use nrg_5_sorbonne.NsoCommon.{to_bytes, of_bytes}
use nrg_5_sorbonne.Packet.Bytes.{length-poke}
use nrg_5_sorbonne.NsoCommon.Bytes.{length-to_bytes}
use nrg_5_sorbonne.Packet.{
  Packet, peek, poke, get_bytes, put_bytes, get_u16, put_u16, get_devid, put_devid, htons,
  length_of, with_length,
}

-- The first `n` bytes at the data pointer lie in the buffer.
pub record Fits (p : Packet) (n : ℕ) : Type 0 where
  pub within : p.data_at + n ≤ length p.buf

module _ (p : Packet) {n : ℕ} (f : Fits p n) where
  pub get_bytes-ok : (off k : ℕ) → off + k ≤ n → get_bytes p off k ≡ ok (peek p off k)
  unfolding get_bytes
  get_bytes-ok off k h = ground (arith, f.within)

  pub put_bytes-ok :
      (off : ℕ) (bs : List ℕ) → off + length bs ≤ n → put_bytes off bs p ≡ ok (poke off bs p)
  unfolding put_bytes
  put_bytes-ok off bs h = ground (arith, f.within)

  pub Fits-poke : (off : ℕ) (bs : List ℕ) → Fits (poke off bs p) n
  unfolding poke
  Fits-poke off bs = record { within = omega (arith, f.within, length-poke p off bs) }

  pub put_devid-ok : (off v : ℕ) → off + 8 ≤ n → put_devid off v p ≡ ok (poke off (to_bytes 8 v) p)
  unfolding put_devid
  put_devid-ok off v h = put_bytes-ok off (to_bytes 8 v) (omega (arith, length-to_bytes 8 v))

  pub put_u16-ok : (off v : ℕ) → off + 2 ≤ n → put_u16 off v p ≡ ok (poke off (to_bytes 2 v) p)
  unfolding put_u16
  put_u16-ok off v h = put_bytes-ok off (to_bytes 2 v) (omega (arith, length-to_bytes 2 v))

  pub get_devid-ok : (off : ℕ) → off + 8 ≤ n → get_devid p off ≡ ok (of_bytes (peek p off 8))
  unfolding get_devid
  get_devid-ok off h = rw (get_bytes-ok off 8 h)

  pub get_u16-ok : (off : ℕ) → off + 2 ≤ n → get_u16 p off ≡ ok (of_bytes (peek p off 2))
  unfolding get_u16
  get_u16-ok off h = rw (get_bytes-ok off 2 h)

-- Swapping the two bytes of a uint16_t twice gives it back.
pub htons-htons : (v : ℕ) → v < 2 ^ 16 → htons (htons v) ≡ v
unfolding htons
htons-htons v h = omega arith

pub htons-lt : (v : ℕ) → htons v < 2 ^ 16
unfolding htons
htons-lt v = omega arith

pub length_of-with_length : (n len_ver : ℕ) → length_of (with_length n len_ver) ≡ n % 2 ^ 14
unfolding length_of with_length
length_of-with_length n len_ver = omega arith

pub with_length-lt : (n len_ver : ℕ) → len_ver < 2 ^ 16 → with_length n len_ver < 2 ^ 16
unfolding with_length
with_length-lt n len_ver h = omega arith
