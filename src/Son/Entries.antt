-- ===== src/Son/Entries.antt =====
-- The entries of a forwarding table, with at most one for each destination: what an insertion and a
-- deletion do to them.
use nrg_5_sorbonne.Base.{
  ◌≡◌, ◌≢◌, refl, sym, ap, ◌∙◌, ◌⊎◌, inl, inr, Bool-cases, true, Option, none, some, some_inj, [],
  ◌∷◌, ◌++◌, ◌||◌, arith, mem, ◌==◌,
}
use nrg_5_sorbonne.Base.Members.{mem-append, mem-remove}
use nrg_5_sorbonne.Kernel.{Kernel, Ptr}
use nrg_5_sorbonne.Memory.{Heap}
use nrg_5_sorbonne.Memory.Laws.{IsHeap, grown, grown-old, grown-new}
use nrg_5_sorbonne.NsoCommon.{DeviceId}
use nrg_5_sorbonne.Table.Indexed.Laws.{IsIndexed-keep}
use nrg_5_sorbonne.Table.Indexed.{unlink}
use nrg_5_sorbonne.Fwd.{FwdEntry, FwdTable, fwd_key, fwd_table_del}
use nrg_5_sorbonne.Fwd.Laws.{IsFwdTable, fwd_members, fwd_cell, fwd_table_del-IsFwdTable}

module _ ⦃K : Kernel⦄ where
  -- The entry at an address of the table.
  pub record EntryAt (t : FwdTable) (p : Ptr) (e : FwdEntry) : Type 0 where
    pub listed : mem p (fwd_members t) ≡ true
    pub cell : fwd_cell t p ≡ some e

  -- No destination has two entries.
  abbrev pub IsUnique : FwdTable → Type 0
  IsUnique t =
      (p q : Ptr) (e f : FwdEntry) → EntryAt t p e → EntryAt t q f → e.dest ≡ f.dest → p ≡ q

  -- The entries of `dst` are replaced by `new`, those of other destinations are as before.
  pub record Replaced (dst : DeviceId) (new : Option FwdEntry) (t t' : FwdTable) : Type 0 where
    pub valid : IsFwdTable t'
    pub lock : t'.fwdt_lock ≡ t.fwdt_lock
    pub unique : IsUnique t'
    pub own : (p : Ptr) (e : FwdEntry) → EntryAt t' p e → e.dest ≡ dst → new ≡ some e
    pub has : (e : FwdEntry) → new ≡ some e → (p : Ptr) × EntryAt t' p e
    pub kept : (p : Ptr) (e : FwdEntry) → e.dest ≢ dst → EntryAt t p e → EntryAt t' p e
    pub only : (p : Ptr) (e : FwdEntry) → e.dest ≢ dst → EntryAt t' p e → EntryAt t p e

  -- An entry taken out, on a heap that keeps all others.
  pub del-Replaced :
      (t : FwdTable) (p : Ptr) (e : FwdEntry) (h : Heap FwdEntry)
      → IsFwdTable t
      → IsUnique t
      → EntryAt t p e
      → IsHeap h
      → ((q : Ptr) → q ≢ p → h.cell q ≡ fwd_cell t q)
      → Replaced e.dest none t (record t { table = record (unlink t.table p) { heap = h } })
  unfolding fwd_table_del unlink
  del-Replaced t p e h w u here a keep =
      let (v, left, _) = fwd_table_del-IsFwdTable t p w here.listed in
      let t' : FwdTable = record t { table = record (unlink t.table p) { heap = h } } in
      let gone = λ (q : Ptr). mem-remove q p (fwd_members t) in
      let other : (q : Ptr) → mem q (fwd_members t') ≡ true → q ≢ p =
        λ q m same. ground (arith, ap (mem q) left, gone q) in
      let back : (q : Ptr) (g : FwdEntry) → EntryAt t' q g → EntryAt t q g = λ q g b. record {
        listed = ground (arith, b.listed, ap (mem q) left, gone q);
        cell = sym (keep q (other q b.listed)) ∙ b.cell;
      } in
      record {
        valid =
            IsIndexed-keep fwd_key (fwd_table_del t p).table h v a
              (λ q g l d. (g, keep q (other q l) ∙ d, refl));
        lock = refl;
        unique = λ q r g k b c. u q r g k (back q g b) (back r k c);
        own = λ q g b d. absurd (other q b.listed (u q p g e (back q g b) here d));
        has = λ g k. cc;
        kept = λ q g d b.
            let ne : q ≢ p = λ same.
              d (ap (λ x. x.dest) (some_inj (sym b.cell ∙ ap (fwd_cell t) same ∙ here.cell))) in
            record {
              listed = ground (arith, b.listed, ap (mem q) left, gone q);
              cell = keep q ne ∙ b.cell;
            };
        only = λ q g d b. back q g b;
      }

  -- After an insertion on a heap that has grown by the new entry: the entries are the new one and
  -- the old ones.
  module _ (t t' : FwdTable) (e : FwdEntry) (w : IsFwdTable t)
      (order : fwd_members t' ≡ fwd_members t ++ t.table.heap.next ∷ [])
      (same : t'.table.heap ≡ grown e t.table.heap) where
    listed_after :
        (q : Ptr) → mem q (fwd_members t') ≡ (mem q (fwd_members t) || (q == t.table.heap.next))
    unfolding mem
    listed_after q =
        ground (arith, ap (mem q) order, mem-append q (fwd_members t) (t.table.heap.next ∷ []))

    cell_after : (q : Ptr) → fwd_cell t' q ≡ (grown e t.table.heap).cell q
    cell_after q = ap (λ h. h.cell q) same

    pub EntryAt-cases :
        (q : Ptr) (f : FwdEntry)
        → EntryAt t' q f
        → ((q ≡ t.table.heap.next) × (some e ≡ some f)) ⊎ EntryAt t q f
    EntryAt-cases q f a = elim (Bool-cases (q == t.table.heap.next)) [
      | inl here ↦ inl (ground arith, ground (arith, a.cell, cell_after q))
      | inr there ↦ inr (record {
        listed = ground (arith, a.listed, listed_after q);
        cell = ground (arith, a.cell, cell_after q);
      })
    ]

    pub EntryAt-old : (q : Ptr) (f : FwdEntry) → EntryAt t q f → EntryAt t' q f
    EntryAt-old q f a = record {
      listed = ground (arith, a.listed, listed_after q);
      cell = cell_after q ∙ grown-old e t.table.heap q w.allocated a.cell;
    }

    pub EntryAt-new : EntryAt t' t.table.heap.next e
    EntryAt-new = record {
      listed = ground (arith, listed_after t.table.heap.next);
      cell = cell_after t.table.heap.next ∙ grown-new e t.table.heap;
    }

    -- The destination of the new entry has no other.
    pub grown-IsUnique :
        ((p : Ptr) (f : FwdEntry) → EntryAt t p f → f.dest ≢ e.dest) → IsUnique t → IsUnique t'
    grown-IsUnique fresh u p q f g a b d = elim (EntryAt-cases p f a) [
      | inl (hp, ef) ↦ elim (EntryAt-cases q g b) [
        | inl (hq, eg) ↦ hp ∙ sym hq
        | inr old ↦ absurd (fresh q g old (sym d ∙ ap (λ x. x.dest) (sym (some_inj ef))))
      ]
      | inr old ↦ elim (EntryAt-cases q g b) [
        | inl (hq, eg) ↦ absurd (fresh p f old (d ∙ ap (λ x. x.dest) (sym (some_inj eg))))
        | inr old' ↦ u p q f g old old' d
      ]
    ]
