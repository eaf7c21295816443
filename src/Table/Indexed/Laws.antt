-- ===== src/Table/Indexed/Laws.antt =====
-- The invariant of a table of this kind; adding, looking up and deleting.
use nrg_5_sorbonne.Base.{
  ℕ, ◌≡◌, refl, ap, Bool, true, false, Option, some, List, [], ◌∷◌, ◌++◌, arith, is_some, mem,
  distinct, remove,
}
use nrg_5_sorbonne.Base.Members.{mem-append}
use nrg_5_sorbonne.Kernel.{Ptr, Kernel}
use nrg_5_sorbonne.Memory.{Heap, Returns, returns}
use nrg_5_sorbonne.Memory.Laws.{IsHeap, load-ok}
use nrg_5_sorbonne.Table.Linked.{
  Listed, Linked, Linked-add, Linked-del, Linked-empty, Listed-cons, Listed-snoc, Listed-del,
  Listed-keep, Linked-keep,
}
use nrg_5_sorbonne.Table.Lookup.{Found, lookup-Found}
use nrg_5_sorbonne.Table.Indexed.{Indexed, clear, insert_front, insert_back, find, unlink}

module _ ⦃K : Kernel⦄ {E : Type 0} where
  abbrev pub members : Indexed E → List Ptr
  members t = K.entries t.ll_head

  abbrev pub cells : Indexed E → Ptr → Option E
  cells t = t.heap.cell

module _ ⦃K : Kernel⦄ {E : Type 0} (key : E → ℕ) where
  pub record IsIndexed (t : Indexed E) : Type 0 where
    pub listed : Listed t.heap.cell (members t) t.size
    pub linked : Linked key t.heap.cell (members t) t.ht
    pub allocated : IsHeap t.heap

  pub clear-IsIndexed :
      (bits : ℕ) (t : Indexed E)
      → IsHeap t.heap
      → IsIndexed (clear bits t) × (members (clear bits t) ≡ [])
  unfolding clear mem distinct
  clear-IsIndexed bits t w = (
    record {
      listed = rw K.entries-init (record { live = λ p m. cc; once = refl; count = refl });
      linked = rw K.entries-init (Linked-empty key (λ j. K.chain-init bits j));
      allocated = w;
    },
    K.entries-init,
  )

  -- The table after an insertion, with the new list of its entries.
  pub record Inserted (t : Indexed E) (ps : List Ptr) (t' : Indexed E) : Type 0 where
    pub valid : IsIndexed t'
    pub order : members t' ≡ ps
    pub same_heap : t'.heap ≡ t.heap

  module _ (t : Indexed E) (p : Ptr) (e : E) (w : IsIndexed t) (c : t.heap.cell p ≡ some e)
      (fresh : mem p (members t) ≡ false) where
    pub insert_front-Inserted : Returns (Inserted t (p ∷ members t)) (insert_front key t p)
    unfolding insert_front mem
    insert_front-Inserted =
        let front = K.entries-add p t.ll_head fresh in
        rw (load-ok t.heap p c) (
          returns (record {
            valid = record {
              listed = rw front (Listed-cons w.listed p fresh (ap is_some c));
              linked = rw front (Linked-add key w.linked p e c fresh _ (λ q. refl));
              allocated = w.allocated;
            };
            order = front;
            same_heap = refl;
          }))

    pub insert_back-Inserted : Returns (Inserted t (members t ++ p ∷ [])) (insert_back key t p)
    unfolding insert_back mem
    insert_back-Inserted =
        let back = K.entries-add_tail p t.ll_head fresh in
        rw (load-ok t.heap p c) (
          returns (record {
            valid = record {
              listed = rw back (Listed-snoc w.listed p fresh (ap is_some c));
              linked = rw back (
                  Linked-add key w.linked p e c fresh _
                    λ q. ground (arith, mem-append q (members t) (p ∷ [])));
              allocated = w.allocated;
            };
            order = back;
            same_heap = refl;
          }))

  pub find-Found :
      (t : Indexed E) (k : ℕ) (test : E → Bool)
      → IsIndexed t
      → ((e : E) → test e ≡ true → key e ≡ k)
      → Found test t.heap.cell (members t) (find t k test)
  unfolding find
  find-Found t k test w of_key = lookup-Found key test t.heap k w.listed w.linked of_key

  pub unlink-IsIndexed :
      (t : Indexed E) (p : Ptr)
      → IsIndexed t
      → mem p (members t) ≡ true
      → IsIndexed (unlink t p)
        × (members (unlink t p) ≡ remove p (members t))
        × ((unlink t p).heap ≡ t.heap)
  unfolding unlink
  unlink-IsIndexed t p w here =
      let left = K.entries-del p t.ll_head here in
      (
        record {
          listed = rw left (Listed-del w.listed p here);
          linked = rw left (Linked-del key w.linked p);
          allocated = w.allocated;
        },
        left,
        refl,
      )

  -- A table stays well formed if its entries keep their keys and stay allocated.
  pub IsIndexed-keep :
      (t : Indexed E) (h : Heap E)
      → IsIndexed t
      → IsHeap h
      → ((q : Ptr) (e : E)
          → mem q (members t) ≡ true
          → t.heap.cell q ≡ some e
          → (f : E) × (h.cell q ≡ some f) × (key e ≡ key f))
      → IsIndexed (record t { heap = h })
  IsIndexed-keep t h w allocated same = record {
    listed = Listed-keep w.listed h.cell λ q e m c. let (f, d, _) = same q e m c in (f, d);
    linked = Linked-keep w.listed key h.cell w.linked same;
    allocated = allocated;
  }
