-- ===== src/Device/Layer/Runs.antt =====
-- Every state that a device of nso/src/nso_lib reaches from a well-formed one.
use nrg_5_sorbonne.Base.{ℕ, List, some, ◌≢◌, sym, ◌∙◌}
use nrg_5_sorbonne.Kernel.{Kernel}
use nrg_5_sorbonne.NsoIf.{NsoIf}
use nrg_5_sorbonne.Packet.{Packet}
use nrg_5_sorbonne.Wifi.{nso_if_receive}
use nrg_5_sorbonne.Memory.{Ensures, Ensures-run, non_null, Ensures-bind, Ensures-ok}
use nrg_5_sorbonne.Nso.State.{Env, NsoLayer, nrg5_reg}
use nrg_5_sorbonne.Nso.Data.{nso_layer_send, nso_layer_recv}
use nrg_5_sorbonne.Layer.Safety.{IsLayer, Safe, same, joins, Safe-trans, Safe-refl}
use nrg_5_sorbonne.Layer.Sending.{nso_layer_send-Safe, nso_layer_recv-Safe}
use nrg_5_sorbonne.Device.Son.{son_topo_report}
use nrg_5_sorbonne.Device.Data.{rx_thread_round, rx_round, tx_register, tx_report}
use nrg_5_sorbonne.Device.Layer.{
  Step, from_air, registers, first_report, reports, sends, receives, Reach, here, and_then,
}
use nrg_5_sorbonne.Device.Layer.Receiving.{
  rx_round-Safe, son_topo_report-Safe, tx_register-Safe, tx_report-Safe,
}

module _ ⦃K : Kernel⦄ where
  -- Each round of __rx_thread_main that returns is a step.
  rx_thread_round-Step :
      (env : Env) (a : NsoLayer) (pkt : Packet) (got : List ℕ) (iface : NsoIf)
      → Ensures (Step a) (rx_thread_round env a pkt got iface)
  unfolding rx_thread_round
  rx_thread_round-Step env a pkt got iface = Ensures-bind (nso_if_receive got pkt) _ λ r e.
      Ensures-bind (non_null r.addrs) _ λ s e.
        Ensures-run (rx_round env a r.pkt (some s.0) (some iface))
          (λ b. from_air env r.pkt (some s.0) (some iface))

  Step-Safe : {a b : NsoLayer} → IsLayer a → a.dev_state ≢ nrg5_reg → Step a b → Safe a b
  Step-Safe {a} {b} w known (from_air env pkt src iface e) =
      Ensures-ok (rx_round env a pkt src iface) (rx_round-Safe env a pkt src iface w known) b e
  Step-Safe {a} {b} w known (registers env more i next e) =
      Ensures-ok (tx_register env a i) (tx_register-Safe env a i w) (more, b, next) e
  Step-Safe {a} {b} w known (first_report env e) =
      Ensures-ok (son_topo_report env a) (son_topo_report-Safe env a w) b e
  Step-Safe {a} {b} w known (reports env more e) =
      Ensures-ok (tx_report env a) (tx_report-Safe env a w) (more, b) e
  Step-Safe {a} {b} w known (sends env buf dst proto sent e) =
      Ensures-ok (nso_layer_send env a buf dst proto) (nso_layer_send-Safe env a buf dst proto w)
        (sent, b) e
  Step-Safe {a} {b} w known (receives size d e) =
      Ensures-ok (nso_layer_recv a size) (nso_layer_recv-Safe a size w) (d, b) e

  Safe-known : {a b : NsoLayer} → Safe a b → a.dev_state ≢ nrg5_reg → b.dev_state ≢ nrg5_reg
  Safe-known s n = elim s.status [ same d g ↦ λ e. n (sym d ∙ e) | joins u c ↦ λ e. cc ]

  -- From a device whose tables are well formed, with no two vSON routes for a destination, and
  -- that is not in NRG5_REG, every sequence of steps leads to such a device with the same id and
  -- MTU. Its registration is as before, or it was unregistered and is connected now. A step is a
  -- round of a thread or a call of the upper layer that returns.
  pub device-Safe :
      {a b : NsoLayer}
      → IsLayer a
      → a.dev_state ≢ nrg5_reg
      → Reach a b
      → Safe a b × (b.dev_state ≢ nrg5_reg)
  device-Safe {a} w known here = (Safe-refl a w, known)
  device-Safe w known (and_then r s) =
      let (before, still) = device-Safe w known r in
      let after = Safe-trans before (Step-Safe before.layer still s) in
      (after, Safe-known after known)
