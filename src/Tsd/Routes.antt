-- ===== src/Tsd/Routes.antt =====
-- The local forwarding table in __fwd_beacon of bs/src/bs_lib/nso_tsd.c.
use nrg_5_sorbonne.Base.{
  ◌≡◌, ◌≢◌, refl, sym, ap, Bool-cases, inl, inr, true, false, Option, none, some, List, [], ◌∷◌,
  ◌++◌, arith, mem, ◌==◌,
}
use nrg_5_sorbonne.Base.Members.{mem-append}
use nrg_5_sorbonne.Kernel.{Kernel, Ptr}
use nrg_5_sorbonne.Memory.{ok, store, Returns, returns, Returns-bind, Returns-mono}
use nrg_5_sorbonne.Memory.Laws.{malloc-some, load-ok, store-IsHeap}
use nrg_5_sorbonne.NsoCommon.{DeviceId, hash_device_id}
use nrg_5_sorbonne.NsoCommon.Bytes.{device_id_equal-eq}
use nrg_5_sorbonne.NsoIf.{NsoIf}
use nrg_5_sorbonne.Table.{active}
use nrg_5_sorbonne.Table.Lookup.{Found, Found-some, Found-none, Found-Returns}
use nrg_5_sorbonne.Table.Indexed.Laws.{IsIndexed-keep}
use nrg_5_sorbonne.Fwd.{FwdEntry, FwdTable, fwd_key, or_dest, alloc_fwd_entry, set_fwd_status}
use nrg_5_sorbonne.Fwd.New.{add_new-AddedNew}
use nrg_5_sorbonne.Fwd.Laws.{
  IsFwdTable, fwd_members, fwd_cell, fwd_has, fwd_table_lookup_unsafe-Found,
}
use nrg_5_sorbonne.Tsd.{touch_fwd, touch_fwd_at}

module _ ⦃K : Kernel⦄ where
  -- A well-formed and unlocked table with an active entry for this destination.
  pub record HasRoute (id : DeviceId) (t : FwdTable) : Type 0 where
    pub valid : IsFwdTable t
    pub at : Ptr
    pub entry : FwdEntry
    pub listed : mem at (fwd_members t) ≡ true
    pub cell : fwd_cell t at ≡ some entry
    pub of_id : entry.dest ≡ id
    pub is_active : entry.status ≡ active
    pub unlocked : t.fwdt_lock ≡ false

  -- Where the next hop and the interface of the route come from: an entry that the table had for the
  -- device keeps its own; for a device that had none they are `nxt` and `iface`.
  pub data HopOf (id nxt : DeviceId) (iface : NsoIf) (ps : List Ptr) (cell : Ptr → Option FwdEntry)
      (r : FwdEntry) : Type 0 where
    kept :
        (p : Ptr) (e : FwdEntry)
        → mem p ps ≡ true
        → cell p ≡ some e
        → fwd_has id e ≡ true
        → r.nxthop ≡ e.nxthop
        → r.interface ≡ e.interface
        → HopOf id nxt iface ps cell r
    of_frame :
        ((p : Ptr) (e : FwdEntry) → mem p ps ≡ true → cell p ≡ some e → fwd_has id e ≡ false)
        → r.nxthop ≡ nxt
        → r.interface ≡ iface
        → HopOf id nxt iface ps cell r

  pub record RouteIn (id nxt : DeviceId) (iface : NsoIf) (ps : List Ptr)
      (cell : Ptr → Option FwdEntry) (t' : FwdTable) : Type 0 where
    pub has : HasRoute id t'
    pub hop : HopOf id nxt iface ps cell has.entry

  -- What the table `t` becomes when `id` is heard of by way of `nxt` on `iface`.
  abbrev pub RouteBack : DeviceId → DeviceId → NsoIf → FwdTable → FwdTable → Type 0
  RouteBack id nxt iface t = RouteIn id nxt iface (fwd_members t) (fwd_cell t)

  pub mem-last : (p : Ptr) (ps : List Ptr) → mem p (ps ++ p ∷ []) ≡ true
  unfolding mem
  mem-last p ps = ground (arith, mem-append p ps (p ∷ []))

  -- An entry that is found becomes active; the interface is not read.
  pub touch_fwd_at-active :
      (p : Ptr) (id : DeviceId) (nxt : Option DeviceId) (iface : Option NsoIf) (t : FwdTable)
      → IsFwdTable t
      → Found (fwd_has id) (fwd_cell t) (fwd_members t) (ok (some p))
      → Returns
          (λ t'.
            (r : HasRoute id t') × ((nxt' : DeviceId) (i : NsoIf)
              → HopOf id nxt' i (fwd_members t) (fwd_cell t) r.entry))
          (touch_fwd_at (some p) id nxt iface t)
  unfolding touch_fwd_at store set_fwd_status
  touch_fwd_at-active p id nxt iface t w f =
      let (e, m, c, is) = Found-some p f in
      let e' = set_fwd_status active e in
      rw (load-ok t.table.heap p c) (
        returns (
          (record {
            valid =
                IsIndexed-keep fwd_key t.table (store p e' t.table.heap) w
                  (store-IsHeap p e' t.table.heap w.allocated c)
                  (λ q g here d. elim (Bool-cases (q == p)) [
                    | inl same ↦ (e', ground arith, ap hash_device_id (ground arith))
                    | inr other ↦ (g, ground arith, refl)
                  ]);
            at = p;
            entry = e';
            listed = m;
            cell = ground arith;
            of_id = sym (device_id_equal-eq id e.dest is);
            is_active = refl;
            unlocked = refl;
          }),
          λ nxt' i. kept p e m c is refl refl,
        ))

  pub touch_fwd_at-HasRoute :
      (o : Option Ptr) (id : DeviceId) (nxt : Option DeviceId) (iface : NsoIf) (t : FwdTable)
      → IsFwdTable t
      → (o ≡ none → t.table.heap.room ≢ 0)
      → Found (fwd_has id) (fwd_cell t) (fwd_members t) (ok o)
      → Returns (RouteBack id (or_dest nxt id) iface t) (touch_fwd_at o id nxt (some iface) t)
  unfolding touch_fwd_at alloc_fwd_entry
  touch_fwd_at-HasRoute (some p) id nxt iface t w room f =
      Returns-mono (touch_fwd_at-active p id nxt (some iface) t w f)
        λ t' (r, hop). record { has = r; hop = hop (or_dest nxt id) iface }
  touch_fwd_at-HasRoute none id nxt iface t w room f =
      let e : FwdEntry = record {
        dest = id;
        nxthop = or_dest nxt id;
        interface = iface;
        status = active;
      } in
      rw (malloc-some t.table.heap e (room refl)) (
        Returns-mono (add_new-AddedNew t e false w) λ t' i. record {
          has = record {
            valid = i.valid;
            at = t.table.heap.next;
            entry = e;
            listed = rw i.order (mem-last t.table.heap.next (fwd_members t));
            cell = i.cell;
            of_id = refl;
            is_active = refl;
            unlocked = i.lock_is;
          };
          hop = of_frame (Found-none f) refl refl;
        })

  -- On a well-formed, unlocked forwarding table, with room on the heap and an interface: after a
  -- beacon of a device the table is well formed and unlocked, and has an active entry for the
  -- device: the one that it had, or a new one with the next hop and the interface that are given.
  pub touch_fwd-HasRoute :
      (id : DeviceId) (nxt : Option DeviceId) (iface : NsoIf) (t : FwdTable)
      → IsFwdTable t
      → t.fwdt_lock ≡ false
      → t.table.heap.room ≢ 0
      → Returns (RouteBack id (or_dest nxt id) iface t) (touch_fwd id nxt (some iface) t)
  unfolding touch_fwd
  touch_fwd-HasRoute id nxt iface t w free room =
      let t1 : FwdTable = record t { fwdt_lock = true } in
      rw free (
        Returns-bind (Found-Returns (fwd_table_lookup_unsafe-Found t1 id w))
          λ o f. touch_fwd_at-HasRoute o id nxt iface t1 w (λ _. room) f)
