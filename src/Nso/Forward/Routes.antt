-- ===== src/Nso/Forward/Routes.antt =====
-- The choice of the next hop in nso_layer_fwd of bs/src/bs_lib/nso.c.
use nrg_5_sorbonne.Base.{◌≡◌, refl, ap, true, false, Option, none, some, mem}
use nrg_5_sorbonne.Kernel.{Kernel, Ptr}
use nrg_5_sorbonne.Memory.{ok, Returns, returns, Returns-bind}
use nrg_5_sorbonne.Memory.Laws.{load-ok}
use nrg_5_sorbonne.NsoCommon.{DeviceId}
use nrg_5_sorbonne.Table.Lookup.{Found, Found-some, Found-none, Found-Returns}
use nrg_5_sorbonne.Table.Indexed.{Indexed}
use nrg_5_sorbonne.Table.Indexed.Laws.{members, cells}
use nrg_5_sorbonne.Fwd.{FwdEntry, FwdTable}
use nrg_5_sorbonne.Fwd.Laws.{
  IsFwdTable, fwd_members, fwd_cell, fwd_has, fwd_table_lookup_unsafe-Found,
}
use nrg_5_sorbonne.Nso.State.{NsoLayer}
use nrg_5_sorbonne.Nso.Forward.{Hop, hop_of, hop_at, find_hop, find_local}

abbrev pub entry_hop : FwdEntry → Hop
entry_hop e = record { nxt = e.nxthop; iface = e.interface }

module _ ⦃K : Kernel⦄ where
  -- What a table says of a destination.
  pub data HopFrom (tbl : Indexed FwdEntry) (dst : DeviceId) : Option Hop → Type 0 where
    via :
        (p : Ptr) (e : FwdEntry)
        → mem p (members tbl) ≡ true
        → cells tbl p ≡ some e
        → fwd_has dst e ≡ true
        → HopFrom tbl dst (some (entry_hop e))
    no_entry :
        ((p : Ptr) (e : FwdEntry)
          → mem p (members tbl) ≡ true
          → cells tbl p ≡ some e
          → fwd_has dst e ≡ false)
        → HopFrom tbl dst none

  pub data RouteOf (nsol : NsoLayer) (dst : DeviceId) : Option Hop → Type 0 where
    by_son : {h : Hop} → HopFrom nsol.son_fwdt.table dst (some h) → RouteOf nsol dst (some h)
    by_local :
        {r : Option Hop}
        → HopFrom nsol.son_fwdt.table dst none
        → HopFrom nsol.local_fwdt.table dst r
        → RouteOf nsol dst r

  hop_at-HopFrom :
      (o : Option Ptr) (dst : DeviceId) (tbl : FwdTable)
      → Found (fwd_has dst) (fwd_cell tbl) (fwd_members tbl) (ok o)
      → Returns (HopFrom tbl.table dst) (hop_at o tbl)
  unfolding hop_at
  hop_at-HopFrom (some p) dst tbl f =
      let (e, m, c, is) = Found-some p f in
      rw (load-ok tbl.table.heap p c) (returns (via p e m c is))
  hop_at-HopFrom none dst tbl f = returns (no_entry (Found-none f))

  hop_of-HopFrom :
      (dst : DeviceId) (tbl : FwdTable)
      → IsFwdTable tbl
      → tbl.fwdt_lock ≡ false
      → Returns (λ (hop, t'). HopFrom tbl.table dst hop × (t' ≡ tbl)) (hop_of tbl dst)
  unfolding hop_of
  hop_of-HopFrom dst tbl w free =
      let t1 : FwdTable = record tbl { fwdt_lock = true } in
      rw free (
        Returns-bind (Found-Returns (fwd_table_lookup_unsafe-Found t1 dst w))
          λ o f. Returns-bind (hop_at-HopFrom o dst t1 f) λ hop h. returns (h, refl))

  find_local-RouteOf :
      (nsol : NsoLayer) (dst : DeviceId) (o : Option Hop)
      → HopFrom nsol.son_fwdt.table dst o
      → IsFwdTable nsol.local_fwdt
      → nsol.local_fwdt.fwdt_lock ≡ false
      → Returns (λ (hop, nsol'). RouteOf nsol dst hop × (nsol' ≡ nsol)) (find_local o nsol dst)
  unfolding find_local
  find_local-RouteOf nsol dst (some h) s w free = returns (by_son s, refl)
  find_local-RouteOf nsol dst none s w free =
      Returns-bind (hop_of-HopFrom dst nsol.local_fwdt w free)
        λ r (h, same). returns (by_local s h, ap (λ t. record nsol { local_fwdt = t }) same)

  -- On well-formed and unlocked forwarding tables the two lookups of nso_layer_fwd return and
  -- change nothing. The hop is that of an entry for the destination in the vSON table; if that
  -- table has none, it is that of an entry of the local table, or none if that has none either.
  pub find_hop-RouteOf :
      (nsol : NsoLayer) (dst : DeviceId)
      → IsFwdTable nsol.son_fwdt
      → IsFwdTable nsol.local_fwdt
      → nsol.son_fwdt.fwdt_lock ≡ false
      → nsol.local_fwdt.fwdt_lock ≡ false
      → Returns (λ (hop, nsol'). RouteOf nsol dst hop × (nsol' ≡ nsol)) (find_hop nsol dst)
  unfolding find_hop
  find_hop-RouteOf nsol dst ws wl fs fl =
      Returns-bind (hop_of-HopFrom dst nsol.son_fwdt ws fs) λ r (h, same).
        rw (ap (λ t. record nsol { son_fwdt = t }) same) (find_local-RouteOf nsol dst r.0 h wl fl)
