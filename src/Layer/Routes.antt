-- ===== src/Layer/Routes.antt =====
-- The vSON table under the rules of nso_son.c: no destination has two routes, whatever the state of
-- the heap, if the code returns at all.
use nrg_5_sorbonne.Base.{Bool, Bool-cases, inl, inr, Option, none, some, ◌==◌, arith, if◌then◌else◌}
use nrg_5_sorbonne.Kernel.{Kernel, Ptr}
use nrg_5_sorbonne.Memory.{
  Run, ok, ◌>>=◌, Ensures, returned, crashes, Ensures-then, Ensures-mono, Ensures-if,
  Returns-Ensures,
}
use nrg_5_sorbonne.Memory.Laws.{malloc-none}
use nrg_5_sorbonne.NsoCommon.{DeviceId}
use nrg_5_sorbonne.NsoIf.{NsoIf}
use nrg_5_sorbonne.Table.Lookup.{Found-Returns}
use nrg_5_sorbonne.Fwd.{FwdTable, fwd_table_lookup, alloc_fwd_entry}
use nrg_5_sorbonne.Fwd.Laws.{IsFwdTable, fwd_table_lookup-Found}
use nrg_5_sorbonne.Son.{RtRule, rt_action_add, rt_action_del, drop_route, add_route, apply_rule}
use nrg_5_sorbonne.Son.Entries.{IsUnique, Replaced}
use nrg_5_sorbonne.Son.Routes.{Drops, drop_route-Replaced, add_route-Replaced}

module _ ⦃K : Kernel⦄ where
  -- The vSON table, in which no destination has two entries.
  pub record IsRoutes (t : FwdTable) : Type 0 where
    pub table : IsFwdTable t
    pub unique : IsUnique t

  pub IsRoutes-lock : (b : Bool) (t : FwdTable) → IsRoutes t → IsRoutes (record t { fwdt_lock = b })
  IsRoutes-lock b t w = record {
    table = w.table;
    unique = λ p q e f x y d.
        w.unique p q e f (record { listed = x.listed; cell = x.cell })
          (record { listed = y.listed; cell = y.cell }) d;
  }

  add_route-IsRoutes :
      (dst nh : DeviceId) (iface : Option NsoIf) (t t1 : FwdTable)
      → Replaced dst none t t1
      → Ensures IsRoutes (add_route dst nh iface t1)
  unfolding add_route alloc_fwd_entry
  add_route-IsRoutes dst nh none t t1 r = crashes
  add_route-IsRoutes dst nh (some iface) t t1 r = elim (Bool-cases (t1.table.heap.room == 0)) [
    | inl full ↦ rw (malloc-none t1.table.heap _ (ground arith)) crashes
    | inr room ↦
        Ensures-mono (Returns-Ensures (add_route-Replaced dst nh iface t t1 r (ground arith)))
          λ t' (q, _). record { table = q.valid; unique = q.unique }
  ]

  -- For any way to drop an entry.
  pub rule-IsRoutes :
      (drop : Option Ptr → FwdTable → Run FwdTable)
      → Drops drop
      → (rule : RtRule) (iface : Option NsoIf) (t : FwdTable) → IsRoutes t
      → Ensures IsRoutes (
          fwd_table_lookup t rule.dst_id >>= λ e.
          if rule.action == rt_action_add
          then (drop e t >>= add_route rule.dst_id rule.nh_id iface)
          else (if rule.action == rt_action_del then drop e t else ok t))
  rule-IsRoutes drop drops rule iface t w =
      Ensures-then (Returns-Ensures (Found-Returns (fwd_table_lookup-Found t rule.dst_id w.table)))
        λ o f.
          let dropped : Ensures (Replaced rule.dst_id none t) (drop o t) =
            Ensures-mono (Returns-Ensures (drops o rule.dst_id t w.table w.unique f)) λ t' r. r.0 in
          Ensures-if (rule.action == rt_action_add)
            (Ensures-then dropped λ t1 r. add_route-IsRoutes rule.dst_id rule.nh_id iface t t1 r)
            (Ensures-if (rule.action == rt_action_del)
              (Ensures-mono dropped λ t1 r. record { table = r.valid; unique = r.unique })
              (returned w))

  pub apply_rule-IsRoutes :
      (rule : RtRule) (iface : Option NsoIf) (t : FwdTable)
      → IsRoutes t
      → Ensures IsRoutes (apply_rule rule iface t)
  unfolding apply_rule
  apply_rule-IsRoutes rule iface t w = rule-IsRoutes drop_route drop_route-Replaced rule iface t w
