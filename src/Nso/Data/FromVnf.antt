-- ===== src/Nso/Data/FromVnf.antt =====
-- Packets that a network function sends: read_pkt_from_vnf of bs/src/bs_lib/include/bs_util.h.
use nrg_5_sorbonne.Base.{ℕ, ◌+◌, ◌*◌, ◌≡◌, ap, true, false, List, arith, length, drop, length-drop}
use nrg_5_sorbonne.Kernel.{Kernel}
use nrg_5_sorbonne.Memory.{ok, non_null, Ensures, returned, Ensures-bind, Ensures-ok}
use nrg_5_sorbonne.Packet.{
  Packet, get_devid, length_of, alloc_packet, put_bytes, set_len_ver, htons, get_u16,
}
use nrg_5_sorbonne.Nso.State.{Env, NsoLayer}
use nrg_5_sorbonne.Son.{route_update, takes_routes}
use nrg_5_sorbonne.Son.Rules.{Fails, route_update-Fails}
use nrg_5_sorbonne.Nso.Data.{fully_recv, less_header, read_pkt_from_vnf}

fully_recv-consumes :
    (env : Env) (n : ℕ) (stream bytes rest : List ℕ)
    → env.vnf_broken ≡ false
    → fully_recv env n stream ≡ ok (bytes, rest)
    → length rest + n ≡ length stream
unfolding fully_recv
fully_recv-consumes env n stream bytes rest sound h =
    ground (arith, length-drop n stream, ap length {x = drop n stream} {y = rest})

less_header-ok : (n m : ℕ) → less_header n ≡ ok m → m + 20 ≡ n
less_header-ok n m h = ground arith

count : (r1 r7 l n s : ℕ) → r1 + 20 ≡ s → n + 20 ≡ l → r7 + n ≡ r1 → 20 + l + r7 ≡ s + 20
count r1 r7 l n s a b c = omega arith

read_lem :
    (env : Env) (size : ℕ) (stream : List ℕ)
    → env.vnf_broken ≡ false
    → Ensures
        (λ r. r.0.byte_len + length r.1 ≡ length stream + 20)
        (read_pkt_from_vnf env size stream)
unfolding read_pkt_from_vnf
read_lem env size stream sound = Ensures-bind (non_null (alloc_packet env.block size)) _ λ p0 e0.
    Ensures-bind (fully_recv env 20 stream) _ λ r1 e1. Ensures-bind (put_bytes 0 r1.0 p0) _ λ p2 e2.
      Ensures-bind (set_len_ver htons p2) _ λ p3 e3. Ensures-bind (get_u16 p3 18) _ λ v e4.
        Ensures-bind (set_len_ver htons p3) _ λ p5 e5.
          Ensures-bind (less_header (length_of v)) _ λ n e6.
            Ensures-bind (fully_recv env n r1.1) _ λ r7 e7.
              Ensures-bind (put_bytes 20 r7.0 p5) _ λ p8 e8. returned (
                count (length r1.1) (length r7.1) (length_of v) n (length stream)
                  (fully_recv-consumes env 20 stream r1.0 r1.1 sound e1)
                  (less_header-ok (length_of v) n e6)
                  (fully_recv-consumes env n r1.1 r7.0 r7.1 sound e7))

-- Where recv does not fail, a packet that read_pkt_from_vnf returns has a `byte_len` of 20 more
-- than the bytes that were taken from the socket.
pub read_pkt_from_vnf-byte_len :
    (env : Env) (size : ℕ) (stream rest : List ℕ) (pkt : Packet)
    → env.vnf_broken ≡ false
    → read_pkt_from_vnf env size stream ≡ ok (pkt, rest)
    → pkt.byte_len + length rest ≡ length stream + 20
read_pkt_from_vnf-byte_len env size stream rest pkt sound h =
    Ensures-ok (read_pkt_from_vnf env size stream) (read_lem env size stream sound) (pkt, rest) h

module _ ⦃K : Kernel⦄ where
  -- If recv does not fail, vSON sends 21 + 18 * rules bytes and they are read as one packet, and
  -- the packet is for this base station, which takes routes and whose state lock is free, then
  -- __route_update does not return: it stops, or waits for ever.
  pub read_pkt_from_vnf-route_update :
      (env : Env) (nsol : NsoLayer) (rules size : ℕ) (stream rest : List ℕ) (pkt : Packet)
      → env.vnf_broken ≡ false
      → read_pkt_from_vnf env size stream ≡ ok (pkt, rest)
      → length stream ≡ 21 + 18 * rules + length rest
      → nsol.state_lock ≡ false
      → takes_routes nsol.dev_state ≡ true
      → get_devid pkt 8 ≡ ok nsol.dev_id
      → Fails (route_update env nsol pkt)
  read_pkt_from_vnf-route_update env nsol rules size stream rest pkt sound read sent free ready
        mine =
      let len = read_pkt_from_vnf-byte_len env size stream rest pkt sound read in
      route_update-Fails env nsol pkt free ready mine (ground arith)
