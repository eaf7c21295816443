-- ===== src/Son/Neighbours.antt =====
-- The neighbour table in __neighbor_maintain of bs/src/bs_lib/nso_son.c.
use nrg_5_sorbonne.Base.{
  List, ◌≡◌, ◌≢◌, refl, sym, ap, Bool-cases, inl, inr, true, false, Option, none, some, arith, mem,
  ◌==◌,
}
use nrg_5_sorbonne.Base.Members.{mem-head}
use nrg_5_sorbonne.Kernel.{Kernel, Ptr}
use nrg_5_sorbonne.Memory.{ok, store, Returns, returns, Returns-bind, Returns-mono}
use nrg_5_sorbonne.Memory.Laws.{
  malloc-some, load-ok, grown, grown-IsHeap, grown-old, grown-new, store-IsHeap, next-fresh,
}
use nrg_5_sorbonne.NsoCommon.{DeviceId, hash_device_id}
use nrg_5_sorbonne.NsoCommon.Bytes.{device_id_equal-eq}
use nrg_5_sorbonne.NsoIf.{NsoIf}
use nrg_5_sorbonne.Table.{active}
use nrg_5_sorbonne.Table.Lookup.{Found, Found-some, Found-none, Found-Returns}
use nrg_5_sorbonne.Table.Indexed.Laws.{IsIndexed-keep}
use nrg_5_sorbonne.Nbr.{NbrEntry, NbrTable, nbr_key, alloc_nbr_entry, set_nbr_status}
use nrg_5_sorbonne.Nbr.Laws.{
  IsNbrTable, nbr_members, nbr_cell, nbr_has, nbr_table_lookup_unsafe-Found, nbr_table_add-Inserted,
}
use nrg_5_sorbonne.Son.{touch_nbr, touch_nbr_at}

module _ ⦃K : Kernel⦄ where
  -- A well-formed and unlocked table with an active entry for this neighbour.
  pub record HasNeighbour (id : DeviceId) (t : NbrTable) : Type 0 where
    pub valid : IsNbrTable t
    pub at : Ptr
    pub entry : NbrEntry
    pub listed : mem at (nbr_members t) ≡ true
    pub cell : nbr_cell t at ≡ some entry
    pub of_id : entry.dev_id ≡ id
    pub is_active : entry.status ≡ active
    pub unlocked : t.nbrt_lock ≡ false

  -- Where the metric and the interface of the neighbour come from: an entry that the table had for it
  -- keeps its own; a new one has the metric 1 and the interface of the frame.
  pub data LinkOf (id : DeviceId) (iface : Option NsoIf) (ps : List Ptr)
      (cell : Ptr → Option NbrEntry) (r : NbrEntry) : Type 0 where
    kept :
        (p : Ptr) (e : NbrEntry)
        → mem p ps ≡ true
        → cell p ≡ some e
        → nbr_has id e ≡ true
        → r ≡ record e { status = active }
        → LinkOf id iface ps cell r
    of_frame :
        ((p : Ptr) (e : NbrEntry) → mem p ps ≡ true → cell p ≡ some e → nbr_has id e ≡ false)
        → r.metric.w ≡ 1
        → r.iface ≡ iface
        → LinkOf id iface ps cell r

  pub record NeighbourIn (id : DeviceId) (iface : Option NsoIf) (ps : List Ptr)
      (cell : Ptr → Option NbrEntry) (t' : NbrTable) : Type 0 where
    pub has : HasNeighbour id t'
    pub link : LinkOf id iface ps cell has.entry

  -- What the table `t` becomes when `id` is heard of on `iface`.
  abbrev pub NeighbourHeard : DeviceId → Option NsoIf → NbrTable → NbrTable → Type 0
  NeighbourHeard id iface t = NeighbourIn id iface (nbr_members t) (nbr_cell t)

  pub touch_nbr_at-HasNeighbour :
      (o : Option Ptr) (id : DeviceId) (iface : Option NsoIf) (t : NbrTable)
      → IsNbrTable t
      → (o ≡ none → t.table.heap.room ≢ 0)
      → Found (nbr_has id) (nbr_cell t) (nbr_members t) (ok o)
      → Returns (NeighbourHeard id iface t) (touch_nbr_at o id iface t)
  unfolding touch_nbr_at alloc_nbr_entry store set_nbr_status
  touch_nbr_at-HasNeighbour (some p) id iface t w room f =
      let (e, m, c, is) = Found-some p f in
      let e' = set_nbr_status active e in
      let v =
        IsIndexed-keep nbr_key t.table (store p e' t.table.heap) w
          (store-IsHeap p e' t.table.heap w.allocated c)
          λ q g here d. elim (Bool-cases (q == p)) [
            | inl same ↦ (e', ground arith, ap hash_device_id (ground arith))
            | inr other ↦ (g, ground arith, refl)
          ] in
      rw (load-ok t.table.heap p c) (
        returns (record {
          has = record {
            valid = v;
            at = p;
            entry = e';
            listed = m;
            cell = ground arith;
            of_id = sym (device_id_equal-eq id e.dev_id is);
            is_active = refl;
            unlocked = refl;
          };
          link = kept p e m c is refl;
        }))
  touch_nbr_at-HasNeighbour none id iface t w room f =
      let e : NbrEntry = record {
        dev_id = id;
        metric = record { w = 1 };
        iface = iface;
        status = active;
      } in
      let h = t.table.heap in
      let fresh = next-fresh h (nbr_members t) w.allocated w.listed.live in
      let v =
        IsIndexed-keep nbr_key t.table (grown e h) w (grown-IsHeap e h w.allocated)
          λ q g here d. (g, grown-old e h q w.allocated d, refl) in
      let t1 : NbrTable = record t {
        table = record t.table { heap = grown e h };
        nbrt_lock = false;
      } in
      rw (malloc-some h e (room refl)) (
        Returns-mono (nbr_table_add-Inserted t1 h.next e v refl (grown-new e h) fresh)
          λ t' (i, lock). record {
            has = record {
              valid = i.valid;
              at = h.next;
              entry = e;
              listed = rw i.order (mem-head h.next (nbr_members t));
              cell = rw i.same_heap (grown-new e h);
              of_id = refl;
              is_active = refl;
              unlocked = lock;
            };
            link = of_frame (Found-none f) refl refl;
          })

  -- On a well-formed, unlocked neighbour table, with room on the heap: after a neighbour has
  -- advertised itself the table is well formed and unlocked, and has an active entry with its id,
  -- whether it had one before or not.
  pub touch_nbr-HasNeighbour :
      (id : DeviceId) (iface : Option NsoIf) (t : NbrTable)
      → IsNbrTable t
      → t.nbrt_lock ≡ false
      → t.table.heap.room ≢ 0
      → Returns (NeighbourHeard id iface t) (touch_nbr id iface t)
  unfolding touch_nbr
  touch_nbr-HasNeighbour id iface t w free room =
      let t1 : NbrTable = record t { nbrt_lock = true } in
      rw free (
        Returns-bind (Found-Returns (nbr_table_lookup_unsafe-Found t1 id w))
          λ o f. touch_nbr_at-HasNeighbour o id iface t1 w (λ _. room) f)
