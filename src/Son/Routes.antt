-- ===== src/Son/Routes.antt =====
-- The rules in __route_update of nso_son.c and the routes of the vSON table, for the base station
-- and for a device, which differ in how they free an entry.
use nrg_5_sorbonne.Base.{
  ℕ, ◌+◌, ◌≤◌, ◌≡◌, ◌≢◌, refl, sym, ap, ◌∙◌, inl, inr, Bool-cases, true, false, Option, none, some,
  some_inj, subst, arith, ◌==◌, if◌then◌else◌, ne→==,
}
use nrg_5_sorbonne.Kernel.{Kernel, Ptr}
use nrg_5_sorbonne.Memory.{
  Run, ok, Heap, ◌>>=◌, update, Returns, returns, Returns-bind, Returns-mono,
}
use nrg_5_sorbonne.Memory.Laws.{malloc-some, free-ok}
use nrg_5_sorbonne.NsoCommon.{DeviceId}
use nrg_5_sorbonne.NsoCommon.Bytes.{device_id_equal-eq, device_id_equal_refl}
use nrg_5_sorbonne.NsoIf.{NsoIf}
use nrg_5_sorbonne.Table.{active}
use nrg_5_sorbonne.Table.Lookup.{Found, Found-some, Found-none, Found-Returns}
use nrg_5_sorbonne.Table.Indexed.{release, unlink}
use nrg_5_sorbonne.Fwd.{
  FwdEntry, FwdTable, alloc_fwd_entry, free_fwd_entry, fwd_table_del, fwd_table_lookup,
}
use nrg_5_sorbonne.Fwd.Laws.{IsFwdTable, fwd_members, fwd_cell, fwd_has, fwd_table_lookup-Found}
use nrg_5_sorbonne.Fwd.New.{add_new-AddedNew}
use nrg_5_sorbonne.Son.{RtRule, rt_action_add, rt_action_del, drop_route, add_route, apply_rule}
use nrg_5_sorbonne.Son.Entries.{
  EntryAt, IsUnique, Replaced, del-Replaced, EntryAt-cases, EntryAt-old, EntryAt-new,
  grown-IsUnique,
}

module _ ⦃K : Kernel⦄ where
  -- At least as much room is left, less `n`.
  abbrev pub Room : ℕ → FwdTable → FwdTable → Type 0
  Room n t t' = t.table.heap.room ≤ t'.table.heap.room + n

  -- No entry to take out.
  pub none-Replaced :
      (dst : DeviceId) (t : FwdTable)
      → IsFwdTable t
      → IsUnique t
      → Found (fwd_has dst) (fwd_cell t) (fwd_members t) (ok none)
      → Replaced dst none t t
  none-Replaced dst t w u f = record {
    valid = w;
    lock = refl;
    unique = u;
    own = λ p e a d.
        absurd (
          ground
            (arith, Found-none f p e a.listed a.cell, device_id_equal_refl dst e.dest (sym d)));
    has = λ e h. cc;
    kept = λ p e d a. a;
    only = λ p e d a. a;
  }

  -- How an entry is dropped, if there is one.
  abbrev pub Drops : (Option Ptr → FwdTable → Run FwdTable) → Type 0
  Drops drop =
      (o : Option Ptr) (dst : DeviceId) (t : FwdTable)
      → IsFwdTable t
      → IsUnique t
      → Found (fwd_has dst) (fwd_cell t) (fwd_members t) (ok o)
      → Returns (λ t'. Replaced dst none t t' × Room 0 t t') (drop o t)

  pub drop_route-Replaced : Drops drop_route
  unfolding drop_route free_fwd_entry release fwd_table_del unlink
  drop_route-Replaced none dst t w u f = returns (none-Replaced dst t w u f, omega arith)
  drop_route-Replaced (some p) dst t w u f =
      let (e, m, c, is) = Found-some p f in
      let h = t.table.heap in
      let h' : Heap FwdEntry = record h { cell = update h.cell p none; room = h.room + 1 } in
      let t' : FwdTable = record t { table = record (unlink t.table p) { heap = h' } } in
      let r =
        del-Replaced t p e h' w u (record { listed = m; cell = c })
          (λ q b. ground (arith, w.allocated q)) (λ q ne. rw (ne→== q p ne) refl) in
      let r' : Replaced dst none t t' =
        subst (λ d. Replaced d none t t') (sym (device_id_equal-eq dst e.dest is)) r in
      rw (free-ok h p c) (returns (r', omega arith))

  abbrev pub new_route : DeviceId → DeviceId → NsoIf → FwdEntry
  new_route dst nh iface = record { dest = dst; nxthop = nh; interface = iface; status = active }

  pub add_route-Replaced :
      (dst nh : DeviceId) (iface : NsoIf) (t t1 : FwdTable)
      → Replaced dst none t t1
      → t1.table.heap.room ≢ 0
      → Returns
          (λ t'. Replaced dst (some (new_route dst nh iface)) t t' × Room 1 t1 t')
          (add_route dst nh (some iface) t1)
  unfolding add_route alloc_fwd_entry
  add_route-Replaced dst nh iface t t1 r room =
      let e = new_route dst nh iface in
      let w = r.valid in
      let none_left : (p : Ptr) (f : FwdEntry) → EntryAt t1 p f → f.dest ≢ dst =
        λ p f a d. cc (r.own p f a d) in
      rw (malloc-some t1.table.heap e room) (
        Returns-mono (add_new-AddedNew t1 e t1.fwdt_lock w) λ t' i. (
          record {
            valid = i.valid;
            lock = i.lock_is ∙ r.lock;
            unique = grown-IsUnique t1 t' e w i.order i.same_heap none_left r.unique;
            own = λ p f a d. elim (EntryAt-cases t1 t' e w i.order i.same_heap p f a) [
              | inl (_, same) ↦ same
              | inr old ↦ absurd (none_left p f old d)
            ];
            has = λ f same. (
              t1.table.heap.next,
              subst (EntryAt t' t1.table.heap.next) (some_inj same)
                  (EntryAt-new t1 t' e w i.order i.same_heap),
            );
            kept = λ p f d a. EntryAt-old t1 t' e w i.order i.same_heap p f (r.kept p f d a);
            only = λ p f d a. elim (EntryAt-cases t1 t' e w i.order i.same_heap p f a) [
              | inl (_, same) ↦ absurd (d (ap (λ x. x.dest) (sym (some_inj same))))
              | inr old ↦ r.only p f d old
            ];
          },
          omega (arith, ap (λ x. x.room) i.same_heap),
        ))

  -- What a rule is to do to the vSON table.
  pub data RuleApplied (rule : RtRule) (iface : NsoIf) (t t' : FwdTable) : Type 0 where
    added :
        (rule.action == rt_action_add) ≡ true
        → Replaced rule.dst_id (some (new_route rule.dst_id rule.nh_id iface)) t t'
        → RuleApplied rule iface t t'
    deleted :
        (rule.action == rt_action_del) ≡ true
        → Replaced rule.dst_id none t t'
        → RuleApplied rule iface t t'
    ignored :
        (rule.action == rt_action_add) ≡ false
        → (rule.action == rt_action_del) ≡ false
        → t' ≡ t
        → RuleApplied rule iface t t'

  -- For any way to drop an entry.
  pub rule-RuleApplied :
      (drop : Option Ptr → FwdTable → Run FwdTable)
      → Drops drop
      → (rule : RtRule) (iface : NsoIf) (t : FwdTable) → IsFwdTable t
      → IsUnique t
      → t.table.heap.room ≢ 0
      → Returns
          (λ t'. RuleApplied rule iface t t' × Room 1 t t')
          (fwd_table_lookup t rule.dst_id >>= λ e.
            if rule.action == rt_action_add
            then (drop e t >>= add_route rule.dst_id rule.nh_id (some iface))
            else (if rule.action == rt_action_del then drop e t else ok t))
  rule-RuleApplied drop drops rule iface t w u room =
      Returns-bind (Found-Returns (fwd_table_lookup-Found t rule.dst_id w)) λ o f.
        let dropped = drops o rule.dst_id t w u f in
        elim (Bool-cases (rule.action == rt_action_add)) [
          | inl add ↦ rw add (
              Returns-bind dropped λ t1 (r, more).
                Returns-mono (add_route-Replaced rule.dst_id rule.nh_id iface t t1 r (omega arith))
                  λ t2 (q, left). (added add q, omega arith))
          | inr other ↦ elim (Bool-cases (rule.action == rt_action_del)) [
            | inl del ↦
                rw (other, del) (Returns-mono dropped λ t1 (r, more). (deleted del r, omega arith))
            | inr neither ↦ rw (other, neither) (returns (ignored other neither refl, omega arith))
          ]
        ]

  -- On a well-formed vSON table in which no destination has two entries, with room on the heap
  -- and an interface, a rule is applied without a crash. After an add rule the only entry of the
  -- destination is a new active one with the next hop and the interface; after a delete rule the
  -- destination has none; the entries of other destinations are as before, and the table is well
  -- formed with at most one entry for each destination. A rule with another action changes
  -- nothing.
  pub apply_rule-RuleApplied :
      (rule : RtRule) (iface : NsoIf) (t : FwdTable)
      → IsFwdTable t
      → IsUnique t
      → t.table.heap.room ≢ 0
      → Returns (RuleApplied rule iface t) (apply_rule rule (some iface) t)
  unfolding apply_rule
  apply_rule-RuleApplied rule iface t w u room =
      Returns-mono (rule-RuleApplied drop_route drop_route-Replaced rule iface t w u room)
        λ t' r. r.0
