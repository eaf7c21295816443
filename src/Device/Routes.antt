-- ===== src/Device/Routes.antt =====
-- The route updates of nso/src/nso_lib/nso_son.c, and the vSON table of a device.
use nrg_5_sorbonne.Base.{
  ◌+◌, ◌-◌, ◌*◌, ◌≤◌, ◌≡◌, ◌≢◌, refl, sym, subst, false, none, some, List, length, arith, ==_refl,
  le→ltb,
}
use nrg_5_sorbonne.Kernel.{Kernel}
use nrg_5_sorbonne.Memory.{ok, Returns, returns, Returns-mono}
use nrg_5_sorbonne.Memory.Laws.{load-ok}
use nrg_5_sorbonne.NsoCommon.{DeviceId, device_id_equal}
use nrg_5_sorbonne.NsoCommon.Bytes.{device_id_equal-eq}
use nrg_5_sorbonne.NsoIf.{NsoIf}
use nrg_5_sorbonne.Packet.{Packet, get_devid, peek}
use nrg_5_sorbonne.Packet.Header.{Fits}
use nrg_5_sorbonne.Table.Lookup.{Found-some}
use nrg_5_sorbonne.Table.Indexed.{unlink}
use nrg_5_sorbonne.Fwd.{FwdTable, fwd_table_del}
use nrg_5_sorbonne.Fwd.Laws.{IsFwdTable}
use nrg_5_sorbonne.Nso.State.{
  Env, NsoLayer, DeviceStatus, nrg5_unreg, nrg5_reg, nrg5_connected, lock_state, unlock_state,
}
use nrg_5_sorbonne.Nso.Forward.{find_hop}
use nrg_5_sorbonne.Son.{RtRule, read_rules}
use nrg_5_sorbonne.Son.Entries.{Replaced, del-Replaced}
use nrg_5_sorbonne.Son.Routes.{Drops, none-Replaced, rule-RuleApplied}
use nrg_5_sorbonne.Son.RoutingMap.{RouteMap, with_rules, Implements}
use nrg_5_sorbonne.Son.Message.{Writable, rules_bytes, Rules-bytes}
use nrg_5_sorbonne.Son.Updates.{Applies, Updated, update_rules-Updated, Chosen, find_hop-Chosen}
use nrg_5_sorbonne.Device.Son.{
  free_fwd_entry, drop_route, apply_rule, accept_routes, after_routes, route_update,
}

after_routes-connected : (s : DeviceStatus) → s ≢ nrg5_unreg → after_routes s ≡ nrg5_connected
after_routes-connected nrg5_unreg h = absurd (h refl)
after_routes-connected nrg5_reg h = refl
after_routes-connected nrg5_connected h = refl

module _ ⦃K : Kernel⦄ where
  -- The entry is out of the table, and stays on the heap.
  pub drop_route-Replaced : Drops drop_route
  unfolding drop_route free_fwd_entry fwd_table_del unlink
  drop_route-Replaced none dst t w u f = returns (none-Replaced dst t w u f, omega arith)
  drop_route-Replaced (some p) dst t w u f =
      let (e, m, c, is) = Found-some p f in
      let h = t.table.heap in
      let t' : FwdTable = record t { table = record (unlink t.table p) { heap = h } } in
      let r =
        del-Replaced t p e h w u (record { listed = m; cell = c }) w.allocated (λ q ne. refl) in
      let r' : Replaced dst none t t' =
        subst (λ d. Replaced d none t t') (sym (device_id_equal-eq dst e.dest is)) r in
      rw (load-ok h p c) (returns (r', omega arith))

  apply_rule-Applies : Applies apply_rule
  unfolding apply_rule
  apply_rule-Applies rule iface t w u room =
      rule-RuleApplied drop_route drop_route-Replaced rule iface t w u room

  accept_routes-connected :
      (nsol : NsoLayer)
      → nsol.state_lock ≡ false
      → nsol.dev_state ≢ nrg5_unreg
      → accept_routes nsol ≡ ok (record nsol { dev_state = nrg5_connected; state_lock = false })
  unfolding accept_routes lock_state unlock_state
  accept_routes-connected nsol free known =
      rw (free, after_routes-connected nsol.dev_state known) refl

  -- Let the device be connected, or registered and waiting for routes, its state be unlocked, the
  -- packet be for it and its bytes after the type be those of a list of rules, whose ids have 64
  -- bits and whose interfaces are there, the vSON table implement a map from destinations to
  -- hops, with room on the heap for as many entries as there are rules, and both forwarding
  -- tables be unlocked and the local one well formed. Then the update returns with the device
  -- connected and another vSON table, which implements the map as the rules change it, one after
  -- the other, and the rest of the state as before; and the lookup for any destination returns
  -- the hop of that map, or where it has none, what the local table says.
  pub device_route_update-Updated :
      (env : Env) (nsol : NsoLayer) (pkt : Packet) (rules : List (RtRule × NsoIf)) (m : RouteMap)
      (dst : DeviceId)
      → get_devid pkt 8 ≡ ok nsol.dev_id
      → nsol.state_lock ≡ false
      → nsol.dev_state ≢ nrg5_unreg
      → pkt.byte_len ≡ 21 + length rules * 18
      → Fits pkt pkt.byte_len
      → peek pkt 21 (length rules * 18) ≡ rules_bytes rules
      → Writable nsol.ifaces rules
      → Implements nsol.son_fwdt m
      → length rules ≤ nsol.son_fwdt.table.heap.room
      → nsol.son_fwdt.fwdt_lock ≡ false
      → IsFwdTable nsol.local_fwdt
      → nsol.local_fwdt.fwdt_lock ≡ false
      → Returns
          (λ n.
            Updated
              (record nsol { dev_state = nrg5_connected; state_lock = false })
              (with_rules rules m)
              n
            × Returns (λ r. Chosen (with_rules rules m) nsol dst r.0) (find_hop n dst))
          (route_update env nsol pkt)
  unfolding route_update read_rules device_id_equal
  device_route_update-Updated env nsol pkt rules m dst mine free known len f bytes w i room sf lw
        lf =
      let size : pkt.byte_len - 20 - 1 ≡ length rules * 18 = omega arith in
      let n0 : NsoLayer = record nsol { dev_state = nrg5_connected; state_lock = false } in
      rw
        (
          mine,
          ==_refl nsol.dev_id,
          accept_routes-connected nsol free known,
          le→ltb 21 pkt.byte_len (omega arith),
          size,
        )
        (Returns-mono
          (update_rules-Updated apply_rule apply_rule-Applies (length rules * 18) rules pkt 21 n0 m
            (omega arith)
            (Rules-bytes pkt nsol.ifaces 21 rules bytes
              (record { within = omega (arith, f.within) }) w)
            i room)
          λ n u. (u, find_hop-Chosen n0 n (with_rules rules m) dst u sf lw lf))
