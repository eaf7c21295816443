-- ===== src/Layer/Rules.antt =====
-- The loop over the rules of a route update in nso_son.c, as part of a step of a base station or of a
-- device, which free an entry differently.
use nrg_5_sorbonne.Base.{ℕ, zero, suc, ◌+◌, ◌-◌, Bool-cases, inl, inr, Option, ◌==◌, ltb}
use nrg_5_sorbonne.Kernel.{Kernel}
use nrg_5_sorbonne.Memory.{
  Run, Ensures, returned, crashes, Ensures-bind, Ensures-then, Ensures-mono, Ensures-if,
}
use nrg_5_sorbonne.NsoIf.{NsoIf}
use nrg_5_sorbonne.Packet.{Packet}
use nrg_5_sorbonne.Fwd.{FwdTable}
use nrg_5_sorbonne.Nso.State.{NsoLayer, iface_at}
use nrg_5_sorbonne.Son.{RtRule, get_rule, update_rule, update_rules, read_rules}
use nrg_5_sorbonne.Layer.Routes.{IsRoutes}
use nrg_5_sorbonne.Layer.Safety.{IsLayer, Safe, Safe-trans, Safe-refl, Safe-son}

module _ ⦃K : Kernel⦄ where
  -- A rule keeps the vSON table well formed, if it returns.
  abbrev pub Keeps : (RtRule → Option NsoIf → FwdTable → Run FwdTable) → Type 0
  Keeps apply_one =
      (rule : RtRule) (iface : Option NsoIf) (t : FwdTable)
      → IsRoutes t
      → Ensures IsRoutes (apply_one rule iface t)

  module _ (apply_one : RtRule → Option NsoIf → FwdTable → Run FwdTable)
      (keeps : Keeps apply_one) where
    update_rule-Safe :
        (pkt : Packet) (at : ℕ) (n : NsoLayer)
        → IsLayer n
        → Ensures (Safe n) (update_rule apply_one pkt at n)
    unfolding update_rule
    update_rule-Safe pkt at n w = Ensures-bind (get_rule pkt at) _ λ rule _.
        Ensures-bind (iface_at n rule.if_index) _ λ iface _.
          Ensures-then (keeps rule iface n.son_fwdt w.son) λ son v. returned (Safe-son n w son v)

    update_rules-Safe :
        (fuel size : ℕ) (pkt : Packet) (at : ℕ) (n : NsoLayer)
        → IsLayer n
        → Ensures (Safe n) (update_rules apply_one fuel size pkt at n)
    unfolding update_rules
    update_rules-Safe zero size pkt at n w =
        Ensures-if (size == 0) (returned (Safe-refl n w)) crashes
    update_rules-Safe (suc fuel) size pkt at n w = elim (Bool-cases (size == 0)) [
      | inl done ↦ rw (done, update_rules) (returned (Safe-refl n w))
      | inr more ↦
          rw (more, update_rules)
            (Ensures-then (update_rule-Safe pkt at n w) λ m s. elim (Bool-cases (ltb size 18)) [
              | inl short ↦ rw short crashes
              | inr long ↦ rw long (
                  Ensures-mono (update_rules-Safe fuel (size - 18) pkt (at + 18) m s.layer)
                    λ q t. Safe-trans s t)
            ])
    ]

    pub read_rules-Safe :
        (pkt : Packet) (n : NsoLayer) → IsLayer n → Ensures (Safe n) (read_rules apply_one pkt n)
    unfolding read_rules
    read_rules-Safe pkt n w =
        Ensures-if (ltb pkt.byte_len 21) crashes
          (update_rules-Safe (pkt.byte_len - 20 - 1) (pkt.byte_len - 20 - 1) pkt 21 n w)
