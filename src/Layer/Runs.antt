-- ===== src/Layer/Runs.antt =====
-- Every state that a base station of bs/src/bs_lib reaches from a well-formed one.
use nrg_5_sorbonne.Base.{ℕ, List, some, ◌≢◌, sym, ◌∙◌}
use nrg_5_sorbonne.Kernel.{Kernel}
use nrg_5_sorbonne.NsoIf.{NsoIf}
use nrg_5_sorbonne.Packet.{Packet}
use nrg_5_sorbonne.Wifi.{nso_if_receive}
use nrg_5_sorbonne.Memory.{Ensures, Ensures-run, non_null, Ensures-bind, Ensures-ok}
use nrg_5_sorbonne.Nso.State.{Env, NsoLayer, nrg5_reg}
use nrg_5_sorbonne.Nso.Data.{
  rx_thread_round, rx_round, vnf_rx_round, nso_layer_send, nso_layer_recv,
}
use nrg_5_sorbonne.Nso.Threads.{tx_register, tx_report}
use nrg_5_sorbonne.Layer.{
  Step, from_air, from_vnf, registers, reports, sends, receives, Reach, here, and_then,
}
use nrg_5_sorbonne.Layer.Safety.{IsLayer, same, joins, Safe, Safe-trans, Safe-refl}
use nrg_5_sorbonne.Layer.Receiving.{rx_round-Safe, vnf_rx_round-Safe}
use nrg_5_sorbonne.Layer.Sending.{
  tx_register-Safe, tx_report-Safe, nso_layer_send-Safe, nso_layer_recv-Safe,
}

module _ ⦃K : Kernel⦄ where
  -- Each round of __rx_thread_main that returns is a step.
  rx_thread_round-Step :
      (env : Env) (a : NsoLayer) (pkt : Packet) (got : List ℕ) (iface : NsoIf)
      → Ensures (Step a) (rx_thread_round env a pkt got iface)
  unfolding rx_thread_round
  rx_thread_round-Step env a pkt got iface = Ensures-bind (nso_if_receive got pkt) _ λ r e.
      Ensures-bind (non_null r.addrs) _ λ s e.
        Ensures-run (rx_round env a r.pkt (some s.0) (some iface))
          (λ b. from_air env r.pkt (some s.0) (some iface))

  Step-Safe : {a b : NsoLayer} → IsLayer a → Step a b → Safe a b
  Step-Safe {a} {b} w (from_air env pkt src iface e) =
      Ensures-ok (rx_round env a pkt src iface) (rx_round-Safe env a pkt src iface w) b e
  Step-Safe {a} {b} w (from_vnf env stream rest e) =
      Ensures-ok (vnf_rx_round env a stream) (vnf_rx_round-Safe env a stream w) (b, rest) e
  Step-Safe {a} {b} w (registers env more e) =
      Ensures-ok (tx_register env a) (tx_register-Safe env a w) (more, b) e
  Step-Safe {a} {b} w (reports env more e) =
      Ensures-ok (tx_report env a) (tx_report-Safe env a w) (more, b) e
  Step-Safe {a} {b} w (sends env buf dst proto sent e) =
      Ensures-ok (nso_layer_send env a buf dst proto) (nso_layer_send-Safe env a buf dst proto w)
        (sent, b) e
  Step-Safe {a} {b} w (receives size d e) =
      Ensures-ok (nso_layer_recv a size) (nso_layer_recv-Safe a size w) (d, b) e

  -- From a base station whose tables are well formed, with no two vSON routes for a destination,
  -- every sequence of steps leads to such a station with the same id and MTU. Its registration is
  -- as before, or it was unregistered and is connected now. A step is a round of a thread or a
  -- call of the upper layer that returns.
  pub Reach-Safe : {a b : NsoLayer} → IsLayer a → Reach a b → Safe a b
  Reach-Safe {a} w here = Safe-refl a w
  Reach-Safe w (and_then r s) =
      let before = Reach-Safe w r in Safe-trans before (Step-Safe before.layer s)

  -- From a base station with well-formed tables, with no two vSON routes for a destination, that
  -- is not in NRG5_REG, no sequence of steps leads to NRG5_REG.
  pub Reach-reg :
      {a b : NsoLayer} → IsLayer a → Reach a b → a.dev_state ≢ nrg5_reg → b.dev_state ≢ nrg5_reg
  Reach-reg w r n = elim (Reach-Safe w r).status [
    | same s g ↦ λ e. n (sym s ∙ e)
    | joins u c ↦ λ e. cc
  ]
