-- ===== src/Device/Joining.antt =====
-- The beacon of a device over the air to a base station: tsd_broadcast_beacons of
-- nso/src/nso_lib/nso_tsd.c, a frame, and a round of __rx_thread_main of bs/src/bs_lib/nso.c.
use nrg_5_sorbonne.Base.{
  ℕ, ◌+◌, ◌-◌, ◌^◌, ◌≤◌, ◌<◌, ◌≡◌, refl, ap, ◌∙◌, some, List, [], ◌∷◌, arith, length,
}
use nrg_5_sorbonne.Kernel.{Kernel}
use nrg_5_sorbonne.Memory.{ok, Returns, Returns-mono}
use nrg_5_sorbonne.NsoCommon.{L2Addr, DeviceId, to_bytes, alloc_bc_device_id}
use nrg_5_sorbonne.NsoIf.{NsoIf}
use nrg_5_sorbonne.Packet.{Packet, peek, poke, slice, get_byte, htons}
use nrg_5_sorbonne.Packet.Header.{Fits, htons-htons, htons-lt, get_bytes-ok}
use nrg_5_sorbonne.Packet.Fields.{src-ok, dst-ok, proto-ok}
use nrg_5_sorbonne.Packet.Contents.{peek-within}
use nrg_5_sorbonne.Packet.Made.{Made, Made-dst}
use nrg_5_sorbonne.Nso.State.{Env, NsoLayer, nrg5_connected, taken}
use nrg_5_sorbonne.Nso.Data.{rx_round}
use nrg_5_sorbonne.Tsd.Beacon.{Touched}
use nrg_5_sorbonne.Tsd.Routes.{RouteBack}
use nrg_5_sorbonne.Layer.Heard.{IsIdle, rx_round-BeaconForwarded}

first_byte :
    (p : Packet) (off n x : ℕ) (xs : List ℕ) → peek p off n ≡ x ∷ xs → 1 ≤ n → peek p off 1 ≡ x ∷ []
first_byte p off n x xs e h =
    ap (λ o. peek p o 1) {x = off} {y = off + 0} (omega arith)
    ∙ peek-within p off 0 1 n (omega arith)
    ∙ ap (slice 0 1) e

module _ ⦃K : Kernel⦄ where
  -- What the station makes of the beacon of the device `id` with the credentials `cs`: it knows the
  -- device and a route back to it, and vTSD gets the beacon with the gateway as its destination.
  pub record BeaconTaken (env : Env) (id : DeviceId) (cs : List ℕ) (mac : L2Addr) (iface : NsoIf)
      (st b : NsoLayer) : Type 0 where
    pub arp : Touched id mac st.arpt b.arpt
    pub route : RouteBack id id iface st.local_fwdt b.local_fwdt
    pub msg : Packet
    pub made : Made msg id st.gw_id 0xF000 (21 + length cs) (0 ∷ cs)
    pub sent : b.sent ≡ taken env st.vtsd_fd (peek msg 0 (21 + length cs)) ∷ st.sent
    pub rest : b ≡ record st { arpt = b.arpt; local_fwdt = b.local_fwdt; sent = b.sent }

  -- A beacon that a station which is not busy receives.
  pub rx_round-BeaconTaken :
      (env : Env) (st : NsoLayer) (pkt : Packet) (mac : L2Addr) (iface : NsoIf) (id : DeviceId)
      (cs : List ℕ)
      → IsIdle st
      → st.dev_state ≡ nrg5_connected
      → Made pkt id alloc_bc_device_id 0xF000 (21 + length cs) (0 ∷ cs)
      → id < 2 ^ 64
      → Returns (BeaconTaken env id cs mac iface st) (rx_round env st pkt (some mac) (some iface))
  unfolding get_byte poke alloc_bc_device_id
  rx_round-BeaconTaken env st pkt mac iface id cs w c m b =
      let f : Fits pkt pkt.byte_len = record {
        within = omega (arith, m.header.fits.within, m.within, m.byte_len);
      } in
      let type : get_byte pkt 20 ≡ ok 0 =
        rw
          (
            get_bytes-ok pkt f 20 1 (omega (arith, m.byte_len)),
            first_byte pkt 20 (21 + length cs - 20) 0 cs m.payload (omega arith),
          )
          refl in
      Returns-mono
        (rx_round-BeaconForwarded env st pkt mac iface id (htons 0xF000) w c f
          (omega (arith, m.byte_len)) (proto-ok m.header (htons-lt 0xF000))
          (htons-htons 0xF000 (omega arith)) type (src-ok m.header b)
          (dst-ok m.header (omega arith)))
        λ st' h. record {
          arp = h.arp;
          route = h.route;
          msg = poke 8 (to_bytes 8 st.gw_id) pkt;
          made = Made-dst m st.gw_id;
          sent =
              h.sent
              ∙ ap
                  (λ k.
                    taken env st.vtsd_fd (peek (poke 8 (to_bytes 8 st.gw_id) pkt) 0 k) ∷ st.sent)
                  m.byte_len;
          rest = h.rest;
        }
