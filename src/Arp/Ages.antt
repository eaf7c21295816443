-- ===== src/Arp/Ages.antt =====
-- arp_table_aging and arp_table_destroy of bs/src/bs_lib/arp.c.
use nrg_5_sorbonne.Base.{
  ◌-◌, ◌%◌, ◌<◌, ◌^◌, ◌≡◌, refl, ap, ◌∙◌, Bool, true, false, not, Option, none, some, List, [],
  arith, mem, distinct, keep, length, if◌then◌else◌, some_of,
}
use nrg_5_sorbonne.Base.Members.{mem-remove, mem-keep, keep-congr, keep-none, distinct-keep}
use nrg_5_sorbonne.Kernel.{Ptr, Kernel}
use nrg_5_sorbonne.Memory.{Heap, update, Returns, returns, Returns-bind, Returns-mono, ◌>>=◌}
use nrg_5_sorbonne.Memory.Laws.{IsHeap, free-ok}
use nrg_5_sorbonne.NsoCommon.{hash_device_id, hash_l2addr}
use nrg_5_sorbonne.Table.{is_expired, expired}
use nrg_5_sorbonne.Table.Linked.{Listed, Listed-keep, Linked-keep}
use nrg_5_sorbonne.Table.Aging.{holds, changed, Marked, mark-Marked, Drops, sweep-Swept}
use nrg_5_sorbonne.Table.Destroy.{first, Dropped, Drained, drain-Drained}
use nrg_5_sorbonne.Arp.{
  ArpEntry, ArpTable, arp_table_del_nolock, arp_age_out, free_arp_entry, set_arp_status,
  arp_table_aging, arp_destroy_first, arp_table_destroy,
}
use nrg_5_sorbonne.Arp.Invariant.{IsArpTable, arp_entries, dev_id_key, l2addr_key}
use nrg_5_sorbonne.Arp.Operations.{arp_table_del_nolock-IsArpTable}

module _ ⦃K : Kernel⦄ where
  abbrev pub arp_cell : ArpTable → Ptr → Option ArpEntry
  arp_cell t = t.heap.cell

  -- A table stays well formed if its entries keep their keys and stay allocated.
  pub IsArpTable-keep :
      (t : ArpTable) (h : Heap ArpEntry)
      → IsArpTable t
      → IsHeap h
      → ((q : Ptr) (e : ArpEntry)
          → mem q (arp_entries t) ≡ true
          → t.heap.cell q ≡ some e
          → (f : ArpEntry) × (h.cell q ≡ some f) × (e.dev_id ≡ f.dev_id) × (e.l2addr ≡ f.l2addr))
      → IsArpTable (record t { heap = h })
  IsArpTable-keep t h w allocated same = record {
    listed = Listed-keep w.listed h.cell λ q e m c. let (f, d, _, _) = same q e m c in (f, d);
    by_dev_id =
        Linked-keep w.listed dev_id_key h.cell w.by_dev_id
          λ q e m c. let (f, d, k, _) = same q e m c in (f, d, ap hash_device_id k);
    by_l2addr =
        Linked-keep w.listed l2addr_key h.cell w.by_l2addr
          λ q e m c. let (f, d, _, k) = same q e m c in (f, d, ap hash_l2addr k);
    allocated = allocated;
  }

  -- An entry that is out of the table can be given back.
  free_arp_entry-IsArpTable :
      (p : Ptr) (t : ArpTable) (e : ArpEntry)
      → IsArpTable t
      → mem p (arp_entries t) ≡ false
      → t.heap.cell p ≡ some e
      → Returns
          (λ t'.
            IsArpTable t' × (t'.ll_head ≡ t.ll_head) × (t'.heap.cell ≡ update t.heap.cell p none))
          (free_arp_entry p t)
  unfolding free_arp_entry
  free_arp_entry-IsArpTable p t e w out c = rw (free-ok t.heap p c) (
      returns (
        IsArpTable-keep t _ w (λ q b. ground (arith, w.allocated q))
            (λ q f m d. (f, ground arith, refl, refl)),
        refl,
        refl,
      ))

  arp_age_out-Drops :
      (p : Ptr) (t : ArpTable)
      → IsArpTable t
      → mem p (arp_entries t) ≡ true
      → Returns (Drops arp_entries arp_cell IsArpTable t p) (arp_age_out p t)
  unfolding arp_age_out arp_table_del_nolock
  arp_age_out-Drops p t w here =
      let (e, c) = some_of (t.heap.cell p) (w.listed.live p here) in
      let (v, left) = arp_table_del_nolock-IsArpTable t p w here in
      let out : mem p (K.entries (K.list_del p t.ll_head)) ≡ false =
        rw left (ground (arith, mem-remove p p (arp_entries t))) in
      Returns-mono (free_arp_entry-IsArpTable p (arp_table_del_nolock t p) e v out c)
        λ t' (v', same, cells). record {
          inv = v';
          left = ap K.entries same ∙ left;
          cells = λ q. ap (λ f. f q) cells;
        }

  -- Whether the lock is held does not matter to the invariant.
  relock : {t : ArpTable} (b : Bool) → IsArpTable t → IsArpTable (record t { arpt_lock = b })
  relock b w = record {
    listed = w.listed;
    by_dev_id = w.by_dev_id;
    by_l2addr = w.by_l2addr;
    allocated = w.allocated;
  }

  abbrev pub is_old : ArpEntry → Bool
  is_old e = is_expired e.status

  -- What one round of aging does to a table.
  pub record ArpAged (t t' : ArpTable) : Type 0 where
    pub valid : IsArpTable t'
    pub left : arp_entries t' ≡ keep (λ p. not (holds is_old (arp_cell t p))) (arp_entries t)
    pub cells :
        (q : Ptr)
        → arp_cell t' q ≡ (
            if mem q (arp_entries t)
            then (if holds is_old (arp_cell t q)
                then none
                else changed (set_arp_status expired) (arp_cell t q))
            else arp_cell t q)
    pub unlocked : t'.arpt_lock ≡ false

  -- After the first loop the table is still well formed.
  Marked-IsArpTable :
      (t : ArpTable) (r : List Ptr × Heap ArpEntry)
      → IsArpTable t
      → Marked is_old (set_arp_status expired) t.heap (arp_entries t) [] r
      → IsArpTable (record t { heap = r.1 })
  unfolding set_arp_status
  Marked-IsArpTable t r w m =
      IsArpTable-keep t r.1 w (λ q b. ground (arith, m.cells q, m.next, w.allocated q))
        λ q e here c. (record e { status = expired }, ground (arith, m.cells q), refl, refl)

  -- Where malloc gives the array for the expired entries, aging of a well-formed and unlocked ARP
  -- table returns a well-formed and unlocked table. Its list is the old one without the entries
  -- that were expired, which are freed; the others are expired now, and no other block changes.
  pub arp_table_aging-ArpAged :
      (t : ArpTable)
      → IsArpTable t
      → t.arpt_lock ≡ false
      → Returns (ArpAged t) (arp_table_aging true t)
  unfolding arp_table_aging mem distinct
  arp_table_aging-ArpAged t w free = rw free (
      Returns-bind
        (mark-Marked is_old (set_arp_status expired) (arp_entries t) [] t.heap w.listed.live
          w.listed.once refl (λ q m. refl))
        λ r m.
          let t1 : ArpTable = record t { arpt_lock = true; heap = r.1 } in
          let v = Marked-IsArpTable t r w m in
          Returns-bind
            (sweep-Swept arp_age_out arp_entries arp_cell IsArpTable arp_age_out-Drops r.0 t1
              (relock true v) m.once (λ q c. ground (arith, m.collected q)))
            λ t2 s. returns (record {
              valid = relock false s.inv;
              left =
                  s.left ∙ keep-congr _ _ (arp_entries t) (λ q here. ground (arith, m.collected q));
              cells = λ q. ground (arith, s.cells q, m.cells q, m.collected q);
              unlocked = refl;
            }))

  -- A well-formed and unlocked ARP table that ages twice, where malloc gives the array for the
  -- expired entries both times, has no entries.
  pub aging_twice-empty :
      (t : ArpTable)
      → IsArpTable t
      → t.arpt_lock ≡ false
      → Returns (λ t'. arp_entries t' ≡ []) (arp_table_aging true t >>= arp_table_aging true)
  unfolding set_arp_status
  aging_twice-empty t w free = Returns-bind (arp_table_aging-ArpAged t w free) λ t1 a.
      Returns-mono (arp_table_aging-ArpAged t1 a.valid a.unlocked) λ t2 b.
        b.left
        ∙ keep-none _ (arp_entries t1) λ q here.
          let (e, c) = some_of (arp_cell t1 q) (a.valid.listed.live q here) in
          ground (
            arith,
            a.cells q,
            ap (mem q) a.left,
            mem-keep q (λ p. not (holds is_old (arp_cell t p))) (arp_entries t),
          )

  arp_destroy_first-Dropped :
      (p : Ptr) (t : ArpTable)
      → Listed t.heap.cell (arp_entries t) (length (arp_entries t) % 2 ^ 32)
      → mem p (arp_entries t) ≡ true
      → distinct (arp_entries t) ≡ true
      → Returns
          (λ t'.
            Listed t'.heap.cell (arp_entries t') (length (arp_entries t') % 2 ^ 32)
            × Dropped arp_entries arp_cell t p t')
          (arp_destroy_first p t)
  unfolding arp_destroy_first
  arp_destroy_first-Dropped p t w here once =
      let (e, c) = some_of (t.heap.cell p) (w.live p here) in
      let left = K.entries-del p t.ll_head here in
      rw (free-ok t.heap p c) (
        returns (
          rw left (record {
            live = λ q m. ground (arith, mem-remove q p (arp_entries t), w.live q);
            once = distinct-keep _ (arp_entries t) once;
            count = refl;
          }),
          record { left = left; cells = λ q. refl },
        ))

  -- Destroying a well-formed ARP table of less than 2^32 entries returns an empty list; the
  -- entries are freed, no other block changes, and `size` is -1 as a 32-bit pattern.
  pub arp_table_destroy-Drained :
      (t : ArpTable)
      → IsArpTable t
      → length (arp_entries t) < 2 ^ 32
      → Returns
          (λ t'. Drained arp_entries arp_cell t t' × (t'.size ≡ 2 ^ 32 - 1))
          (arp_table_destroy t)
  unfolding arp_table_destroy
  arp_table_destroy-Drained t w small =
      Returns-bind
        (drain-Drained (λ t. first (arp_entries t)) arp_destroy_first arp_entries arp_cell
          (λ t. Listed t.heap.cell (arp_entries t) (length (arp_entries t) % 2 ^ 32)) (λ t. refl)
          arp_destroy_first-Dropped t.size t
          (record { live = w.listed.live; once = w.listed.once; count = refl }) w.listed.once
          (arp_entries t) refl (omega (arith, w.listed.count)))
        λ t' d. returns (record { left = d.left; cells = d.cells }, refl)
