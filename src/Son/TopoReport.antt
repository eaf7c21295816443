-- ===== src/Son/TopoReport.antt =====
-- The topology report of bs/src/bs_lib/nso_son.c as vSON reads it.
use nrg_5_sorbonne.Base.{
  ℕ, ◌+◌, ◌*◌, ◌%◌, ◌^◌, ◌≤◌, ◌<◌, ◌≡◌, refl, ap, sym, ◌∙◌, false, some, List, [], ◌∷◌, ◌++◌, arith,
  length, subst,
}
use nrg_5_sorbonne.Kernel.{Kernel}
use nrg_5_sorbonne.Memory.{Returns, returns, Returns-bind}
use nrg_5_sorbonne.NsoCommon.{to_bytes}
use nrg_5_sorbonne.NsoCommon.Bytes.{length-to_bytes}
use nrg_5_sorbonne.Packet.{Packet, peek, poke, htons}
use nrg_5_sorbonne.Packet.Header.{Fits, put_bytes-ok, put_u16-ok, get_bytes-ok, Fits-poke}
use nrg_5_sorbonne.Packet.Fields.{start_pkt-Started}
use nrg_5_sorbonne.Packet.Parts.{finish-parts}
use nrg_5_sorbonne.Packet.Made.{Made, alloc_packet-Fits}
use nrg_5_sorbonne.Nbr.{nbr_table_lock, nbr_table_unlock, nbr_table_size}
use nrg_5_sorbonne.Nbr.Laws.{IsNbrTable, nbr_members}
use nrg_5_sorbonne.Nso.State.{Env, NsoLayer, taken, send_pkt_to_vnf}
use nrg_5_sorbonne.Son.{get_topo_report_pkt, son_topo_report, iface_report}
use nrg_5_sorbonne.Son.Report.{
  Neighbor, read_report, read_counted, read_neighbors, indices, Reported, HasIfaces,
  interfaces-read, length-iface_report, nbr_report-Reported,
}

counted-read :
    (n : ℕ) (bs : List ℕ)
    → n < 2 ^ 16
    → read_counted (to_bytes 2 (htons n) ++ bs) ≡ read_neighbors n bs
unfolding to_bytes htons
counted-read n bs h = ap (λ k. read_neighbors k bs) (omega arith)

module _ ⦃K : Kernel⦄ where
  -- The report `rs` in the bytes behind the type.
  pub record Readable (n : NsoLayer) (bytes : List ℕ) : Type 0 where
    pub neighbors : List Neighbor
    pub reported : Reported n.nbrt.table.heap (nbr_members n.nbrt) neighbors
    pub read :
        read_report bytes
        ≡ some (record {
          battery = n.battery;
          interfaces = indices n.ifaces_nb 0;
          neighbors = neighbors;
        })

  report-Readable :
      (n : NsoLayer) (rs : List Neighbor) (bs : List ℕ) (size : ℕ)
      → n.ifaces_nb < 256
      → size < 2 ^ 16
      → Reported n.nbrt.table.heap (nbr_members n.nbrt) rs
      → read_neighbors size bs ≡ some rs
      → Readable n (
          (n.battery ∷ (n.ifaces_nb % 256) ∷ iface_report n.ifaces_nb 0)
          ++ (to_bytes 2 (htons size) ++ bs))
  report-Readable n rs bs size few small all back =
      let tail = to_bytes 2 (htons size) ++ bs in
      let same : n.ifaces_nb % 256 ≡ n.ifaces_nb = omega arith in
      record {
        neighbors = rs;
        reported = all;
        read =
            rw
              (
                same,
                interfaces-read n.ifaces_nb 0 tail (omega arith),
                counted-read size bs small,
                back,
              )
              refl;
      }

  get_topo_report_pkt-Readable :
      (env : Env) (n : NsoLayer) (block : List ℕ)
      → env.block ≡ some block
      → length block ≡ n.mtu + 128
      → n.mtu < 2 ^ 14
      → n.ifaces_nb < 256
      → IsNbrTable n.nbrt
      → n.nbrt.nbrt_lock ≡ false
      → HasIfaces n.nbrt.table.heap (nbr_members n.nbrt)
      → 25 + (n.ifaces_nb + n.ifaces_nb) + 10 * length (nbr_members n.nbrt) ≤ n.mtu
      → Returns
          (λ r.
            (bytes : List ℕ) × Readable n bytes
            × Made r.0 n.dev_id n.gw_id 0xF001 (21 + length bytes) (0 ∷ bytes)
            × (r.1 ≡ n))
          (get_topo_report_pkt env n)
  unfolding get_topo_report_pkt nbr_table_lock nbr_table_unlock nbr_table_size poke
  get_topo_report_pkt-Readable env n block given long small few w free has fits =
      let ifaces = iface_report n.ifaces_nb 0 in
      let xs = n.battery ∷ (n.ifaces_nb % 256) ∷ ifaces in
      let size = n.nbrt.table.size in
      let count : size ≡ length (nbr_members n.nbrt) = omega (arith, w.listed.count) in
      let (rs, all, zs, made, back, lz) =
        nbr_report-Reported n.nbrt.table.heap (nbr_members n.nbrt) w.listed.live has in
      let ys = to_bytes 2 (htons size) in
      let is_two = length-to_bytes 2 (htons size) in
      let li = length-iface_report n.ifaces_nb 0 in
      rw given (
        Returns-bind (alloc_packet-Fits block n.mtu long) λ p0 (f0, empty, at0).
          Returns-bind (start_pkt-Started p0 (n.mtu + 64) n.dev_id n.gw_id 0xF001 f0 (omega arith))
            λ p1 s.
              let p2 = poke 20 (0 ∷ []) p1 in
              let f2 = Fits-poke p1 s.header.fits 20 (0 ∷ []) in
              let p3 = poke 21 xs p2 in
              let f3 = Fits-poke p2 f2 21 xs in
              let at = 23 + length ifaces in
              rw
                (
                  put_bytes-ok p1 s.header.fits 20 (0 ∷ []) (omega arith),
                  put_bytes-ok p2 f2 21 xs (omega (arith, li)),
                  free,
                  put_u16-ok p3 f3 at (htons size) (omega (arith, li)),
                  made,
                  put_bytes-ok (poke at ys p3) (Fits-poke p3 f3 at ys) (at + 2) zs
                      (omega (arith, li, lz)),
                )
                (Returns-bind
                  (finish-parts p1 (n.mtu + 64) n.dev_id n.gw_id 0xF001 s.len_ver xs ys zs at
                    (at + 2 + length zs) s.header s.no_version (s.same_len ∙ empty) (omega arith)
                    is_two refl (omega (arith, li, lz)) (omega (arith, li, lz)))
                  λ q m. returns (
                    xs ++ (ys ++ zs),
                    report-Readable (record n { nbrt = record n.nbrt { nbrt_lock = false } }) rs zs
                        size few (omega arith) all
                        (subst (λ k. read_neighbors k zs ≡ some rs) (sym count) back),
                    m,
                    refl,
                  )))

  -- Let malloc give a block for a packet of the MTU, which is less than 2^14, the neighbour table
  -- be well formed and unlocked, every neighbour in it have an interface, the station have less
  -- than 256 interfaces, and the MTU have room for 25 bytes, 2 for each interface and 10 for each
  -- neighbour. Then son_topo_report returns with no change but one message to vSON: a packet from
  -- the station to its gateway, of the length in its header, with the type of a report and bytes
  -- that the reader of the format takes as a whole and gives back as the battery, the indices of
  -- the interfaces from 0 on, and for each entry of the table in order the number that the eight
  -- bytes of its id are with the highest first, the quality and the interface, both modulo 256.
  -- The message is what the socket takes of the packet.
  pub son_topo_report-Readable :
      (env : Env) (n : NsoLayer) (block : List ℕ)
      → env.block ≡ some block
      → length block ≡ n.mtu + 128
      → n.mtu < 2 ^ 14
      → n.ifaces_nb < 256
      → IsNbrTable n.nbrt
      → n.nbrt.nbrt_lock ≡ false
      → HasIfaces n.nbrt.table.heap (nbr_members n.nbrt)
      → 25 + (n.ifaces_nb + n.ifaces_nb) + 10 * length (nbr_members n.nbrt) ≤ n.mtu
      → Returns
          (λ m.
            (bytes : List ℕ) × Readable n bytes
            × (pkt : Packet) × Made pkt n.dev_id n.gw_id 0xF001 (21 + length bytes) (0 ∷ bytes)
            × (m ≡ record n {
              sent = taken env n.vson_fd (peek pkt 0 (21 + length bytes)) ∷ n.sent;
            }))
          (son_topo_report env n)
  unfolding son_topo_report send_pkt_to_vnf
  son_topo_report-Readable env n block given long small few w free has fits =
      Returns-bind (get_topo_report_pkt-Readable env n block given long small few w free has fits)
        λ r (bytes, readable, m, same).
          let f : Fits r.0 r.0.byte_len = record {
            within = omega (arith, m.header.fits.within, m.within, m.byte_len);
          } in
          rw (same, get_bytes-ok r.0 f 0 r.0.byte_len (omega arith))
            (returns (
              bytes,
              readable,
              r.0,
              m,
              ap (λ k. record n { sent = taken env n.vson_fd (peek r.0 0 k) ∷ n.sent }) m.byte_len,
            ))
