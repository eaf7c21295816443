-- ===== src/Layer/Tables.antt =====
-- What the handlers of bs/src/bs_lib do to one table: it stays well formed, whatever the state of
-- its lock and of the heap, if the code returns at all.
use nrg_5_sorbonne.Base.{
  ◌≡◌, refl, true, false, Bool-cases, inl, inr, Option, none, some, [], arith, ◌==◌,
}
use nrg_5_sorbonne.Kernel.{Kernel, Ptr}
use nrg_5_sorbonne.Memory.{
  ok, non_null, load, Ensures, returned, crashes, waits, Ensures-bind, Ensures-then, Ensures-mono,
  Returns-Ensures,
}
use nrg_5_sorbonne.Memory.Laws.{malloc-none}
use nrg_5_sorbonne.NsoCommon.{DeviceId, L2Addr}
use nrg_5_sorbonne.NsoIf.{NsoIf}
use nrg_5_sorbonne.Table.Lookup.{Found, Found-Returns}
use nrg_5_sorbonne.Arp.{
  ArpTable, arp_table_lock, arp_table_lookup_from_l2addr_unsafe, alloc_arp_entry,
}
use nrg_5_sorbonne.Arp.Invariant.{IsArpTable, arp_entries}
use nrg_5_sorbonne.Arp.Operations.{arp_table_lookup_from_dev_id_unsafe-Found, has_dev_id}
use nrg_5_sorbonne.Fwd.{FwdTable, fwd_table_lookup_unsafe, alloc_fwd_entry}
use nrg_5_sorbonne.Fwd.Laws.{
  IsFwdTable, fwd_members, fwd_cell, fwd_has, fwd_table_lookup_unsafe-Found,
}
use nrg_5_sorbonne.Nbr.{NbrTable, alloc_nbr_entry}
use nrg_5_sorbonne.Nbr.Laws.{
  IsNbrTable, nbr_members, nbr_cell, nbr_has, nbr_table_lookup_unsafe-Found,
}
use nrg_5_sorbonne.Tsd.{touch_arp, touch_arp_at, touch_fwd, touch_fwd_at, sender_of}
use nrg_5_sorbonne.Tsd.Beacon.{relock, touch_arp_at-Touched}
use nrg_5_sorbonne.Tsd.Routes.{touch_fwd_at-HasRoute, touch_fwd_at-active}
use nrg_5_sorbonne.Son.{touch_nbr, touch_nbr_at}
use nrg_5_sorbonne.Nso.Forward.{hop_of, hop_at}
use nrg_5_sorbonne.Son.Neighbours.{touch_nbr_at-HasNeighbour}

module _ ⦃K : Kernel⦄ where
  pub arp_table_lock-same :
      (t : ArpTable) → Ensures (λ t'. t' ≡ record t { arpt_lock = true }) (arp_table_lock t)
  unfolding arp_table_lock
  arp_table_lock-same t = elim (Bool-cases t.arpt_lock) [
    | inl held ↦ rw held waits
    | inr free ↦ rw free (returned refl)
  ]

  touch_arp_at-IsArpTable :
      (o : Option Ptr) (id : DeviceId) (src : Option L2Addr) (t : ArpTable)
      → IsArpTable t
      → Found (has_dev_id id) t.heap.cell (arp_entries t) (ok o)
      → Ensures IsArpTable (touch_arp_at o id src t)
  unfolding touch_arp_at alloc_arp_entry
  touch_arp_at-IsArpTable (some p) id src t w f =
      Ensures-mono (Returns-Ensures (touch_arp_at-Touched (some p) id [] t w (λ e. absurd cc) f))
        λ t' d. d.valid
  touch_arp_at-IsArpTable none id none t w f = crashes
  touch_arp_at-IsArpTable none id (some mac) t w f = elim (Bool-cases (t.heap.room == 0)) [
    | inl full ↦ rw (malloc-none t.heap _ (ground arith)) crashes
    | inr room ↦
        Ensures-mono (Returns-Ensures (touch_arp_at-Touched none id mac t w (λ _. ground arith) f))
          λ t' d. d.valid
  ]

  pub touch_arp-IsArpTable :
      (id : DeviceId) (src : Option L2Addr) (t : ArpTable)
      → IsArpTable t
      → Ensures IsArpTable (touch_arp id src t)
  unfolding touch_arp
  touch_arp-IsArpTable id src t w = elim (Bool-cases t.arpt_lock) [
    | inl held ↦ rw held waits
    | inr free ↦
        let t1 : ArpTable = record t { arpt_lock = true } in
        rw free (
          Ensures-then
            (Returns-Ensures
              (Found-Returns (arp_table_lookup_from_dev_id_unsafe-Found t1 id (relock true w))))
            λ o f. touch_arp_at-IsArpTable o id src t1 (relock true w) f)
  ]

  touch_fwd_at-IsFwdTable :
      (o : Option Ptr) (id : DeviceId) (nxt : Option DeviceId) (iface : Option NsoIf) (t : FwdTable)
      → IsFwdTable t
      → Found (fwd_has id) (fwd_cell t) (fwd_members t) (ok o)
      → Ensures IsFwdTable (touch_fwd_at o id nxt iface t)
  unfolding touch_fwd_at alloc_fwd_entry
  touch_fwd_at-IsFwdTable none id nxt none t w f = crashes
  touch_fwd_at-IsFwdTable (some p) id nxt iface t w f =
      Ensures-mono (Returns-Ensures (touch_fwd_at-active p id nxt iface t w f)) λ t' d. d.0.valid
  touch_fwd_at-IsFwdTable none id nxt (some iface) t w f =
      elim (Bool-cases (t.table.heap.room == 0)) [
        | inl full ↦ rw (malloc-none t.table.heap _ (ground arith)) crashes
        | inr room ↦
            Ensures-mono
              (Returns-Ensures (touch_fwd_at-HasRoute none id nxt iface t w (λ _. ground arith) f))
              λ t' d. d.has.valid
      ]

  pub touch_fwd-IsFwdTable :
      (id : DeviceId) (nxt : Option DeviceId) (iface : Option NsoIf) (t : FwdTable)
      → IsFwdTable t
      → Ensures IsFwdTable (touch_fwd id nxt iface t)
  unfolding touch_fwd
  touch_fwd-IsFwdTable id nxt iface t w = elim (Bool-cases t.fwdt_lock) [
    | inl held ↦ rw held waits
    | inr free ↦
        let t1 : FwdTable = record t { fwdt_lock = true } in
        rw free (
          Ensures-then (Returns-Ensures (Found-Returns (fwd_table_lookup_unsafe-Found t1 id w)))
            λ o f. touch_fwd_at-IsFwdTable o id nxt iface t1 w f)
  ]

  touch_nbr_at-IsNbrTable :
      (o : Option Ptr) (id : DeviceId) (iface : Option NsoIf) (t : NbrTable)
      → IsNbrTable t
      → Found (nbr_has id) (nbr_cell t) (nbr_members t) (ok o)
      → Ensures IsNbrTable (touch_nbr_at o id iface t)
  unfolding touch_nbr_at alloc_nbr_entry
  touch_nbr_at-IsNbrTable (some p) id iface t w f =
      Ensures-mono
        (Returns-Ensures (touch_nbr_at-HasNeighbour (some p) id iface t w (λ e. absurd cc) f))
        λ t' d. d.has.valid
  touch_nbr_at-IsNbrTable none id iface t w f = elim (Bool-cases (t.table.heap.room == 0)) [
    | inl full ↦ rw (malloc-none t.table.heap _ (ground arith)) crashes
    | inr room ↦
        Ensures-mono
          (Returns-Ensures (touch_nbr_at-HasNeighbour none id iface t w (λ _. ground arith) f))
          λ t' d. d.has.valid
  ]

  pub touch_nbr-IsNbrTable :
      (id : DeviceId) (iface : Option NsoIf) (t : NbrTable)
      → IsNbrTable t
      → Ensures IsNbrTable (touch_nbr id iface t)
  unfolding touch_nbr
  touch_nbr-IsNbrTable id iface t w = elim (Bool-cases t.nbrt_lock) [
    | inl held ↦ rw held waits
    | inr free ↦
        let t1 : NbrTable = record t { nbrt_lock = true } in
        rw free (
          Ensures-then (Returns-Ensures (Found-Returns (nbr_table_lookup_unsafe-Found t1 id w)))
            λ o f. touch_nbr_at-IsNbrTable o id iface t1 w f)
  ]

  -- What a lookup by address, between its lock and unlock, leaves.
  pub sender_of-same :
      (src : L2Addr) (t : ArpTable)
      → Ensures (λ r. r.1 ≡ record t { arpt_lock = false }) (sender_of src t)
  unfolding sender_of
  sender_of-same src t = elim (Bool-cases t.arpt_lock) [
    | inl held ↦ rw held waits
    | inr free ↦
        let t1 : ArpTable = record t { arpt_lock = true } in
        rw free (
          Ensures-bind (arp_table_lookup_from_l2addr_unsafe t1 src) _ λ o _.
            Ensures-bind (non_null o) _ λ p _. Ensures-bind (load t.heap p) _ λ e _. returned refl)
  ]

  -- What a lookup of a route, between its lock and unlock, leaves.
  pub hop_of-same :
      (t : FwdTable) (dst : DeviceId)
      → Ensures (λ r. r.1 ≡ record t { fwdt_lock = false }) (hop_of t dst)
  unfolding hop_of
  hop_of-same t dst = elim (Bool-cases t.fwdt_lock) [
    | inl held ↦ rw held waits
    | inr free ↦
        let t1 : FwdTable = record t { fwdt_lock = true } in
        rw free (
          Ensures-bind (fwd_table_lookup_unsafe t1 dst) _
            λ o _. Ensures-bind (hop_at o t1) _ λ h _. returned refl)
  ]
