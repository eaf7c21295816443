-- ===== src/Son/Updates.antt =====
-- A whole route update of nso_son.c: the loop over its rules, for the base station and for a device.
use nrg_5_sorbonne.Base.{
  ℕ, zero, suc, ◌+◌, ◌-◌, ◌*◌, ◌≤◌, ◌<◌, ◌≡◌, ◌≢◌, refl, sym, ap, ◌∙◌, inl, inr, ◌⊎◌, true, false,
  Option, none, some, List, [], ◌∷◌, get_or, length, arith, ==_refl, ne→==, lt→ltb, le→ltb, subst,
}
use nrg_5_sorbonne.Kernel.{Kernel}
use nrg_5_sorbonne.Memory.{Run, ok, Returns, returns, Returns-bind, Returns-mono}
use nrg_5_sorbonne.NsoCommon.{DeviceId, device_id_equal}
use nrg_5_sorbonne.NsoIf.{NsoIf}
use nrg_5_sorbonne.Packet.{Packet, get_devid, peek}
use nrg_5_sorbonne.Packet.Header.{Fits}
use nrg_5_sorbonne.Fwd.{FwdTable}
use nrg_5_sorbonne.Fwd.Laws.{IsFwdTable}
use nrg_5_sorbonne.Nso.State.{Env, NsoLayer, iface_at}
use nrg_5_sorbonne.Nso.Forward.{Hop, find_hop}
use nrg_5_sorbonne.Nso.Forward.Routes.{HopFrom, RouteOf, by_son, by_local, find_hop-RouteOf}
use nrg_5_sorbonne.Son.{
  RtRule, get_rule, drop_route, apply_rule, update_rule, update_rules, read_rules, route_update,
  takes_routes,
}
use nrg_5_sorbonne.Son.Rules.{takes_routes-free}
use nrg_5_sorbonne.Son.Message.{Rules, Writable, rules_bytes, Rules-bytes}
use nrg_5_sorbonne.Son.Entries.{IsUnique}
use nrg_5_sorbonne.Son.Routes.{Room, RuleApplied, drop_route-Replaced, rule-RuleApplied}
use nrg_5_sorbonne.Son.RoutingMap.{
  RouteMap, with_rule, with_rules, Implements, Implements-RuleApplied, RuleApplied-lock,
  HopFrom-map,
}

module _ ⦃K : Kernel⦄ where
  -- What a rule does to the table, where memory is left.
  abbrev pub Applies : (RtRule → Option NsoIf → FwdTable → Run FwdTable) → Type 0
  Applies apply_one =
      (rule : RtRule) (iface : NsoIf) (t : FwdTable)
      → IsFwdTable t
      → IsUnique t
      → t.table.heap.room ≢ 0
      → Returns (λ t'. RuleApplied rule iface t t' × Room 1 t t') (apply_one rule (some iface) t)

  -- The state with another vSON table, that implements `m`.
  pub record Updated (nsol : NsoLayer) (m : RouteMap) (n : NsoLayer) : Type 0 where
    pub rest : n ≡ record nsol { son_fwdt = n.son_fwdt }
    pub routes : Implements n.son_fwdt m
    pub lock : n.son_fwdt.fwdt_lock ≡ nsol.son_fwdt.fwdt_lock

  update_rule-Updated :
      (apply_one : RtRule → Option NsoIf → FwdTable → Run FwdTable)
      → Applies apply_one
      → (pkt : Packet) (at : ℕ) (nsol : NsoLayer) (m : RouteMap) (rule : RtRule) (iface : NsoIf)
      → get_rule pkt at ≡ ok rule
      → rule.if_index < 10
      → get_or nsol.ifaces rule.if_index none ≡ some iface
      → Implements nsol.son_fwdt m
      → nsol.son_fwdt.table.heap.room ≢ 0
      → Returns
          (λ n. Updated nsol (with_rule rule iface m) n × Room 1 nsol.son_fwdt n.son_fwdt)
          (update_rule apply_one pkt at nsol)
  unfolding update_rule iface_at
  update_rule-Updated apply_one applies pkt at nsol m rule iface got small slot i room =
      rw (got, lt→ltb rule.if_index 10 small, slot)
        (Returns-bind (applies rule iface nsol.son_fwdt i.valid i.unique room) λ t (r, left).
          returns (
            record {
              rest = refl;
              routes = Implements-RuleApplied rule iface m nsol.son_fwdt t i r;
              lock = RuleApplied-lock rule iface nsol.son_fwdt t r;
            },
            left,
          ))

  Updated-trans :
      {m m' : RouteMap} (a b c : NsoLayer) → Updated a m b → Updated b m' c → Updated a m' c
  Updated-trans a b c u v = record {
    rest = v.rest ∙ ap {A = NsoLayer} (λ n. record n { son_fwdt = c.son_fwdt }) u.rest;
    routes = v.routes;
    lock = v.lock ∙ u.lock;
  }

  -- The loop, where memory is left for as many entries as there are rules.
  pub update_rules-Updated :
      (apply_one : RtRule → Option NsoIf → FwdTable → Run FwdTable)
      → Applies apply_one
      → (fuel : ℕ) (rules : List (RtRule × NsoIf)) (pkt : Packet) (at : ℕ) (nsol : NsoLayer)
        (m : RouteMap)
      → length rules * 18 ≤ fuel
      → Rules pkt nsol.ifaces at rules
      → Implements nsol.son_fwdt m
      → length rules ≤ nsol.son_fwdt.table.heap.room
      → Returns
          (Updated nsol (with_rules rules m))
          (update_rules apply_one fuel (length rules * 18) pkt at nsol)
  unfolding update_rules
  update_rules-Updated apply_one applies zero [] pkt at nsol m enough r i room =
      returns (record { rest = refl; routes = i; lock = refl })
  update_rules-Updated apply_one applies (suc fuel) [] pkt at nsol m enough r i room =
      returns (record { rest = refl; routes = i; lock = refl })
  update_rules-Updated apply_one applies zero (x ∷ rules) pkt at nsol m enough r i room =
      absurd (omega arith)
  update_rules-Updated apply_one applies (suc fuel) ((rule, iface) ∷ rules) pkt at nsol m enough
        (got, small, slot, more) i room =
      let size = suc (length rules) * 18 in
      let left : size - 18 ≡ length rules * 18 = omega arith in
      rw (ne→== size 0 (omega arith), update_rules)
        (Returns-bind
          (update_rule-Updated apply_one applies pkt at nsol m rule iface got small slot i
            (omega arith))
          λ n (u, kept).
            let still : Rules pkt n.ifaces (at + 18) rules =
              subst (λ l. Rules pkt l (at + 18) rules) (ap (λ x. x.ifaces) (sym u.rest)) more in
            rw (le→ltb 18 size (omega arith), left)
              (Returns-mono
                (update_rules-Updated apply_one applies fuel rules pkt (at + 18) n
                  (with_rule rule iface m) (omega arith) still u.routes (omega arith))
                λ n' v. Updated-trans nsol n n' u v))

  apply_rule-Applies : Applies apply_rule
  unfolding apply_rule
  apply_rule-Applies rule iface t w u room =
      rule-RuleApplied drop_route drop_route-Replaced rule iface t w u room

  -- The hop that the station chooses where its vSON table implements `m`.
  abbrev pub Chosen : RouteMap → NsoLayer → DeviceId → Option Hop → Type 0
  Chosen m nsol dst o =
      ((h : Hop) × (m dst ≡ some h) × (o ≡ some h))
      ⊎ ((m dst ≡ none) × HopFrom nsol.local_fwdt.table dst o)

  RouteOf-Chosen :
      (m : RouteMap) (n : NsoLayer) (dst : DeviceId) {o : Option Hop}
      → Implements n.son_fwdt m
      → RouteOf n dst o
      → Chosen m n dst o
  RouteOf-Chosen m n dst i (by_son {h} s) = inl (h, sym (HopFrom-map n.son_fwdt m dst i s), refl)
  RouteOf-Chosen m n dst i (by_local s l) = inr (sym (HopFrom-map n.son_fwdt m dst i s), l)

  pub find_hop-Chosen :
      (nsol n : NsoLayer) (m : RouteMap) (dst : DeviceId)
      → Updated nsol m n
      → nsol.son_fwdt.fwdt_lock ≡ false
      → IsFwdTable nsol.local_fwdt
      → nsol.local_fwdt.fwdt_lock ≡ false
      → Returns (λ r. Chosen m nsol dst r.0) (find_hop n dst)
  find_hop-Chosen nsol n m dst u free w free' =
      let local : n.local_fwdt ≡ nsol.local_fwdt = ap (λ x. x.local_fwdt) u.rest in
      Returns-mono
        (find_hop-RouteOf n dst u.routes.valid (rw local w) (u.lock ∙ free)
          (ap (λ x. x.fwdt_lock) local ∙ free'))
        λ r (c, _).
          subst
            (λ t.
              ((h : Hop) × (m dst ≡ some h) × (r.0 ≡ some h))
              ⊎ ((m dst ≡ none) × HopFrom t.table dst r.0))
            local (RouteOf-Chosen m n dst u.routes c)

  -- Let the base station take routes and its state be unlocked, the packet be for it and its
  -- bytes after the type be those of a list of rules, whose ids have 64 bits and whose interfaces
  -- are there, the vSON table implement a map from destinations to hops, with room on the heap
  -- for as many entries as there are rules, and both forwarding tables be unlocked and the local
  -- one well formed. Then the update returns with another vSON table, which implements the map as
  -- the rules change it, one after the other, and the rest of the state as before; and the lookup
  -- for any destination returns the hop of that map, or where it has none, what the local table
  -- says.
  pub route_update-Updated :
      (env : Env) (nsol : NsoLayer) (pkt : Packet) (rules : List (RtRule × NsoIf)) (m : RouteMap)
      (dst : DeviceId)
      → get_devid pkt 8 ≡ ok nsol.dev_id
      → nsol.state_lock ≡ false
      → takes_routes nsol.dev_state ≡ true
      → pkt.byte_len ≡ 21 + length rules * 18
      → Fits pkt pkt.byte_len
      → peek pkt 21 (length rules * 18) ≡ rules_bytes rules
      → Writable nsol.ifaces rules
      → Implements nsol.son_fwdt m
      → length rules ≤ nsol.son_fwdt.table.heap.room
      → nsol.son_fwdt.fwdt_lock ≡ false
      → IsFwdTable nsol.local_fwdt
      → nsol.local_fwdt.fwdt_lock ≡ false
      → Returns
          (λ n.
            Updated nsol (with_rules rules m) n
            × Returns (λ r. Chosen (with_rules rules m) nsol dst r.0) (find_hop n dst))
          (route_update env nsol pkt)
  unfolding route_update read_rules device_id_equal
  route_update-Updated env nsol pkt rules m dst mine free takes len f bytes w i room sf lw lf =
      let size : pkt.byte_len - 20 - 1 ≡ length rules * 18 = omega arith in
      rw
        (
          mine,
          ==_refl nsol.dev_id,
          takes_routes-free nsol free takes,
          le→ltb 21 pkt.byte_len (omega arith),
          size,
        )
        (Returns-mono
          (update_rules-Updated apply_rule apply_rule-Applies (length rules * 18) rules pkt 21 nsol
            m (omega arith)
            (Rules-bytes pkt nsol.ifaces 21 rules bytes
              (record { within = omega (arith, f.within) }) w)
            i room)
          λ n u. (u, find_hop-Chosen nsol n (with_rules rules m) dst u sf lw lf))
