-- ===== src/Packet.antt =====
-- include/packet.h and include/nso_packet.h of bs/src/bs_lib (and packet_clone of the same header
-- in nso/src/nso_lib): a packet buffer and the NSO header at its data pointer. `data` and `tail`
-- are offsets into `buf`, a list of bytes; an access outside `buf` is a crash. The host is
-- little-endian, so a uint16_t is its low byte and then its high byte.
pub mod Bytes
pub mod Header
pub mod Fields
pub mod Contents
pub mod Made
pub mod Parts
use nrg_5_sorbonne.Base.{
  ℕ, zero, suc, ◌+◌, ◌-◌, ◌*◌, ◌/◌, ◌%◌, ◌^◌, Bool, true, false, Option, none, some, List, [], ◌∷◌,
  ◌++◌, if◌then◌else◌, ltb, leb, length, take, drop, replicate, get_or,
}
use nrg_5_sorbonne.Memory.{Run, ok, crash, ◌>>=◌}
use nrg_5_sorbonne.NsoCommon.{DeviceId, to_bytes, of_bytes}

abbrev pub headroom : ℕ
headroom = 64

abbrev pub tailroom : ℕ
tailroom = 64

pub record Packet : Type 0 where
  pub size : ℕ
  pub byte_len : ℕ
  pub data_at : ℕ
  pub tail : ℕ
  pub buf : List ℕ

-- `n` bytes from an offset, and bytes written over those at an offset.
abbrev pub slice : ℕ → ℕ → List ℕ → List ℕ
slice off n xs = take n (drop off xs)

unfoldable pub overwrite : List ℕ → List ℕ → List ℕ
overwrite [] xs = xs
overwrite (b ∷ bs) [] = []
overwrite (b ∷ bs) (x ∷ xs) = b ∷ overwrite bs xs

unfoldable pub splice : ℕ → List ℕ → List ℕ → List ℕ
unfolding overwrite
splice zero bs xs = overwrite bs xs
splice (suc off) bs [] = []
splice (suc off) bs (x ∷ xs) = x ∷ splice off bs xs

-- The argument is the block that malloc returned, the bytes of `buf` in it. The memset reaches as
-- far as the first `size` bytes of `buf`.
unfoldable pub alloc_packet : Option (List ℕ) → ℕ → Option Packet
alloc_packet none size = none
alloc_packet (some block) size = some (record {
  size = size;
  byte_len = 0;
  data_at = headroom;
  tail = headroom;
  buf = replicate size 0 ++ drop size block;
})

-- memcpy from and to `pkt->data + off`.
unfoldable pub peek : Packet → ℕ → ℕ → List ℕ
peek p off n = slice (p.data_at + off) n p.buf

unfoldable pub poke : ℕ → List ℕ → Packet → Packet
poke off bs p = record p { buf = splice (p.data_at + off) bs p.buf }

unfoldable pub get_bytes : Packet → ℕ → ℕ → Run (List ℕ)
unfolding peek
get_bytes p off n = if leb (p.data_at + off + n) (length p.buf) then ok (peek p off n) else crash

unfoldable pub put_bytes : ℕ → List ℕ → Packet → Run Packet
unfolding poke
put_bytes off bs p =
    if leb (p.data_at + off + length bs) (length p.buf) then ok (poke off bs p) else crash

-- `*(pkt->data + off)`
unfoldable pub get_byte : Packet → ℕ → Run ℕ
unfolding get_bytes
get_byte p off = get_bytes p off 1 >>= λ bs. ok (get_or bs 0 0)

-- The space is tested against `byte_len`, and the bytes are copied to `p->data`.
unfoldable pub packet_append_data : Packet → List ℕ → Run (Packet × Bool)
unfolding put_bytes
packet_append_data p bytes = if ltb (p.size - p.byte_len) (length bytes) then ok (p, false) else (do
  p ← put_bytes 0 bytes p
  ok (
    record p {
      byte_len = p.byte_len + length bytes;
      tail = p.data_at + (p.byte_len + length bytes);
    },
    true,
  ))

unfoldable pub packet_inc_len : Packet → ℕ → Packet
packet_inc_len p size = record p { byte_len = p.byte_len + size; tail = p.tail + size }

-- `byte_len` is an int, kept as a 32-bit pattern.
unfoldable pub packet_pop_head : Packet → ℕ → Packet
packet_pop_head p size = record p {
  byte_len = (p.byte_len + 2 ^ 32 - size) % 2 ^ 32;
  data_at = p.data_at + size;
}

unfoldable pub packet_reset : Packet → Packet
packet_reset p = record p { byte_len = 0; data_at = headroom; tail = headroom }

-- packet_clone of nso/src/nso_lib: the copy has its own buffer, the data at the same offset.
unfoldable pub packet_clone : Option (List ℕ) → Packet → Run Packet
unfolding alloc_packet get_bytes put_bytes
packet_clone block pkt = elim (alloc_packet block pkt.size) [
  | none ↦ crash
  | some new_pkt ↦ (do
    bytes ← get_bytes pkt 0 pkt.byte_len
    put_bytes 0 bytes (record new_pkt {
      byte_len = pkt.byte_len;
      data_at = pkt.data_at;
      tail = pkt.data_at + pkt.byte_len;
    }))
]

-- struct nsohdr: sizeof is 20, with the fields at these offsets.
abbrev pub nsohdr_size : ℕ
nsohdr_size = 20

abbrev pub src_devid_at : ℕ
src_devid_at = 0

abbrev pub dst_devid_at : ℕ
dst_devid_at = 8

abbrev pub proto_at : ℕ
proto_at = 16

abbrev pub len_ver_at : ℕ
len_ver_at = 18

-- NSO_PROTO_CP_VTSD and NSO_PROTO_CP_VSON
abbrev pub nso_proto_cp_vtsd : ℕ
nso_proto_cp_vtsd = 0xF000

abbrev pub nso_proto_cp_vson : ℕ
nso_proto_cp_vson = 0xF001

-- htons and ntohs on a little-endian host.
unfoldable pub htons : ℕ → ℕ
htons v = v % 256 * 256 + v / 256 % 256

unfoldable pub get_u16 : Packet → ℕ → Run ℕ
unfolding get_bytes of_bytes
get_u16 p off = get_bytes p off 2 >>= λ bs. ok (of_bytes bs)

unfoldable pub put_u16 : ℕ → ℕ → Packet → Run Packet
unfolding put_bytes to_bytes
put_u16 off v p = put_bytes off (to_bytes 2 v) p

-- `memcpy` of a device id out of the header, or into it.
unfoldable pub get_devid : Packet → ℕ → Run DeviceId
unfolding get_bytes of_bytes
get_devid p off = get_bytes p off 8 >>= λ bs. ok (of_bytes bs)

unfoldable pub put_devid : ℕ → DeviceId → Packet → Run Packet
unfolding put_bytes to_bytes
put_devid off id p = put_bytes off (to_bytes 8 id) p

-- The bit fields of `len_ver`: `length` the low 14 bits, `ver` the high 2.
unfoldable pub length_of : ℕ → ℕ
length_of len_ver = len_ver % 2 ^ 14

unfoldable pub with_length : ℕ → ℕ → ℕ
with_length n len_ver = len_ver / 2 ^ 14 * 2 ^ 14 + n % 2 ^ 14

unfoldable pub with_ver : ℕ → ℕ → ℕ
with_ver v len_ver = v % 4 * 2 ^ 14 + len_ver % 2 ^ 14

-- A write to a field of `len_ver`, read and written in memory.
unfoldable pub set_len_ver : (ℕ → ℕ) → Packet → Run Packet
set_len_ver f p = get_u16 p len_ver_at >>= λ v. put_u16 len_ver_at (f v) p

-- The end of each function that makes a packet: `hdr->length = n; packet_inc_len (pkt,
-- hdr->length); hdr->len_ver = htons (hdr->len_ver);`
unfoldable pub finish_pkt : ℕ → Packet → Run Packet
finish_pkt n p = do
  p ← set_len_ver (with_length n) p
  v ← get_u16 p len_ver_at
  set_len_ver htons (packet_inc_len p (length_of v))

-- How each function that makes a packet begins: the two device ids, the protocol, and the version.
unfoldable pub start_pkt : DeviceId → DeviceId → ℕ → Packet → Run Packet
start_pkt src dst proto p = do
  p ← put_devid src_devid_at src p
  p ← put_devid dst_devid_at dst p
  p ← put_u16 proto_at (htons proto) p
  set_len_ver (with_ver 0) p
