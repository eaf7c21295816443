-- ===== src/Son/RoutingMap.antt =====
-- The vSON table as a map from destinations to hops, and a route update of nso_son.c as a change of
-- that map, rule by rule.
use nrg_5_sorbonne.Base.{
  ◌≡◌, ◌≢◌, refl, sym, ap, ◌∙◌, inl, inr, Bool-cases, false, Option, none, some, some_inj, List, [],
  ◌∷◌, ◌==◌, if◌then◌else◌, subst, arith, ==_refl, ne→==, Option-cases, fun_ext,
}
use nrg_5_sorbonne.Kernel.{Kernel, Ptr}
use nrg_5_sorbonne.NsoCommon.{DeviceId}
use nrg_5_sorbonne.NsoCommon.Bytes.{device_id_equal-eq, device_id_equal_refl}
use nrg_5_sorbonne.NsoIf.{NsoIf}
use nrg_5_sorbonne.Fwd.{FwdEntry, FwdTable}
use nrg_5_sorbonne.Fwd.Laws.{IsFwdTable}
use nrg_5_sorbonne.Nso.Forward.{Hop}
use nrg_5_sorbonne.Nso.Forward.Routes.{entry_hop, HopFrom, via, no_entry}
use nrg_5_sorbonne.Son.{RtRule, rt_action_add, rt_action_del}
use nrg_5_sorbonne.Son.Entries.{EntryAt, IsUnique, Replaced}
use nrg_5_sorbonne.Son.Routes.{RuleApplied, added, deleted, ignored, new_route}

abbrev pub RouteMap : Type 0
RouteMap = DeviceId → Option Hop

-- What a rule makes of the hop of its destination.
abbrev pub rule_hop : RtRule → NsoIf → Option Hop → Option Hop
rule_hop rule iface old =
    if rule.action == rt_action_add
    then some (record { nxt = rule.nh_id; iface = iface })
    else (if rule.action == rt_action_del then none else old)

abbrev pub with_rule : RtRule → NsoIf → RouteMap → RouteMap
with_rule rule iface m d = if d == rule.dst_id then rule_hop rule iface (m d) else m d

-- The rules of a message with their interfaces, the first one first.
abbrev pub with_rules : List (RtRule × NsoIf) → RouteMap → RouteMap
with_rules [] m = m
with_rules ((rule, iface) ∷ rules) m = with_rules rules (with_rule rule iface m)

module _ ⦃K : Kernel⦄ where
  -- The table is well formed, with one entry for each destination of the map and no other.
  pub record Implements (t : FwdTable) (m : RouteMap) : Type 0 where
    pub valid : IsFwdTable t
    pub unique : IsUnique t
    pub sound : (p : Ptr) (e : FwdEntry) → EntryAt t p e → m e.dest ≡ some (entry_hop e)
    pub complete :
        (d : DeviceId) (h : Hop)
        → m d ≡ some h
        → (p : Ptr) × (e : FwdEntry) × EntryAt t p e × (e.dest ≡ d) × (entry_hop e ≡ h)

  -- One destination gets another hop or none.
  Implements-Replaced :
      (dst : DeviceId) (o : Option FwdEntry) (v : Option Hop) (m m' : RouteMap) (t t' : FwdTable)
      → Implements t m
      → Replaced dst o t t'
      → ((e : FwdEntry) → o ≡ some e → (e.dest ≡ dst) × (v ≡ some (entry_hop e)))
      → (o ≡ none → v ≡ none)
      → m' dst ≡ v
      → ((d : DeviceId) → d ≢ dst → m' d ≡ m d)
      → Implements t' m'
  Implements-Replaced dst o v m m' t t' i r new gone here other = record {
    valid = r.valid;
    unique = r.unique;
    sound = λ p e a. elim (Bool-cases (e.dest == dst)) [
      | inl same ↦ let d : e.dest ≡ dst = ground arith in ap m' d ∙ here ∙ (new e (r.own p e a d)).1
      | inr differs ↦
          let d : e.dest ≢ dst = λ x. ground arith in other e.dest d ∙ i.sound p e (r.only p e d a)
    ];
    complete = λ d h is. elim (Bool-cases (d == dst)) [
      | inl same ↦
          let at : d ≡ dst = ground arith in
          elim (Option-cases o) [
            | inl empty ↦ cc (gone empty, here, ap m' at)
            | inr (e, some_e) ↦
                let (p, a) = r.has e some_e in
                let (e_at, e_hop) = new e some_e in
                (p, e, a, e_at ∙ sym at, some_inj (sym e_hop ∙ sym here ∙ ap m' (sym at) ∙ is))
          ]
      | inr differs ↦
          let ne : d ≢ dst = λ x. ground arith in
          let (p, e, a, e_at, e_hop) = i.complete d h (sym (other d ne) ∙ is) in
          (p, e, r.kept p e (λ x. ne (sym e_at ∙ x)) a, e_at, e_hop)
    ];
  }

  pub Implements-RuleApplied :
      (rule : RtRule) (iface : NsoIf) (m : RouteMap) (t t' : FwdTable)
      → Implements t m
      → RuleApplied rule iface t t'
      → Implements t' (with_rule rule iface m)
  Implements-RuleApplied rule iface m t t' i (added is r) =
      let h : Hop = record { nxt = rule.nh_id; iface = iface } in
      Implements-Replaced rule.dst_id (some (new_route rule.dst_id rule.nh_id iface)) (some h) m _ t
        t' i r
        (λ e s. (ap (λ x. x.dest) (sym (some_inj s)), ap (λ x. some (entry_hop x)) (some_inj s)))
        (λ e. cc) (rw (==_refl rule.dst_id, is) refl) (λ d ne. rw (ne→== d rule.dst_id ne) refl)
  Implements-RuleApplied rule iface m t t' i (deleted is r) =
      let not_add : (rule.action == 0) ≡ false = ground arith in
      Implements-Replaced rule.dst_id none none m _ t t' i r (λ e s. cc) (λ e. refl)
        (rw (==_refl rule.dst_id, not_add, is) refl) (λ d ne. rw (ne→== d rule.dst_id ne) refl)
  Implements-RuleApplied rule iface m t t' i (ignored not_add not_del same) =
      let same_map : with_rule rule iface m ≡ m = fun_ext λ d.
        elim (Bool-cases (d == rule.dst_id)) [
          | inl here ↦ rw (here, not_add, not_del) refl
          | inr there ↦ rw there refl
        ] in
      subst (Implements t') (sym same_map) (subst (λ x. Implements x m) (sym same) i)

  pub RuleApplied-lock :
      (rule : RtRule) (iface : NsoIf) (t t' : FwdTable)
      → RuleApplied rule iface t t'
      → t'.fwdt_lock ≡ t.fwdt_lock
  RuleApplied-lock rule iface t t' (added is r) = r.lock
  RuleApplied-lock rule iface t t' (deleted is r) = r.lock
  RuleApplied-lock rule iface t t' (ignored not_add not_del same) = ap (λ x. x.fwdt_lock) same

  -- A lookup for a hop is the map.
  pub HopFrom-map :
      (t : FwdTable) (m : RouteMap) (dst : DeviceId) {o : Option Hop}
      → Implements t m
      → HopFrom t.table dst o
      → o ≡ m dst
  HopFrom-map t m dst i (via p e l c is) =
      sym (i.sound p e (record { listed = l; cell = c }))
      ∙ ap m (sym (device_id_equal-eq dst e.dest is))
  HopFrom-map t m dst i (no_entry absent) = elim (Option-cases (m dst)) [
    | inl empty ↦ sym empty
    | inr (h, is) ↦
        let (p, e, a, e_at, _) = i.complete dst h is in
        absurd
          (ground (arith, absent p e a.listed a.cell, device_id_equal_refl dst e.dest (sym e_at)))
  ]
