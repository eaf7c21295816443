-- ===== src/Tests/Reports.antt =====
-- The report of the base station of the other tests about its two neighbours.
use nrg_5_sorbonne.Base.{◌+◌, ◌≡◌, refl, List, ℕ, ◌∷◌, arith, length, mem}
use nrg_5_sorbonne.Memory.{Returns}
use nrg_5_sorbonne.Packet.{Packet, peek}
use nrg_5_sorbonne.Packet.Made.{Made}
use nrg_5_sorbonne.Nbr.Laws.{nbr_members}
use nrg_5_sorbonne.Nso.State.{taken}
use nrg_5_sorbonne.Son.{son_topo_report}
use nrg_5_sorbonne.Son.Report.{HasIfaces}
use nrg_5_sorbonne.Son.TopoReport.{Readable, son_topo_report-Readable}
use nrg_5_sorbonne.Tests.Linux.{linux}
use nrg_5_sorbonne.Tests.Fwd.{wlan}
use nrg_5_sorbonne.Tests.Nbr.{nbr_two, nbr_two-IsNbrTable}
use nrg_5_sorbonne.Tests.Layer.{env, block, station}

nbr_two-HasIfaces : HasIfaces nbr_two.table.heap (nbr_members nbr_two)
unfolding mem
nbr_two-HasIfaces p e m c = (wlan, ground arith)

son_topo_report-Readable_example :
    Returns
      (λ m.
        (bytes : List ℕ) × Readable station bytes
        × (pkt : Packet) × Made pkt 1 0 0xF001 (21 + length bytes) (0 ∷ bytes)
        × (m ≡ record station {
          sent = taken env 21 (peek pkt 0 (21 + length bytes)) ∷ station.sent;
        }))
      (son_topo_report env station)
son_topo_report-Readable_example =
    son_topo_report-Readable env station block refl refl (omega arith) (omega arith)
      nbr_two-IsNbrTable refl nbr_two-HasIfaces (omega arith)
