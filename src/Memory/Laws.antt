-- ===== src/Memory/Laws.antt =====
-- Laws of the heap of entries.
use nrg_5_sorbonne.Base.{
  ◌+◌, ◌-◌, ◌≤◌, ◌<◌, ◌≡◌, ◌≢◌, true, false, List, mem, is_some, none, some, arith,
}
use nrg_5_sorbonne.Kernel.{Ptr}
use nrg_5_sorbonne.Memory.{ok, Heap, update, malloc, load, store, free}

-- No block lies at an address that malloc has not given out.
abbrev pub IsHeap : {E : Type 0} → Heap E → Type 0
IsHeap h = (p : Ptr) → h.next ≤ p → h.cell p ≡ none

module _ {E : Type 0} (h : Heap E) where
  pub next-lt : {p : Ptr} {e : E} → IsHeap h → h.cell p ≡ some e → p < h.next
  next-lt {p} w c = ground (arith, w p)

  pub malloc-some :
      (e : E)
      → h.room ≢ 0
      → malloc e h ≡ (
        some h.next,
        record { cell = update h.cell h.next (some e); next = h.next + 1; room = h.room - 1 },
      )
  unfolding malloc
  malloc-some e r = ground arith

  pub malloc-none : (e : E) → h.room ≡ 0 → malloc e h ≡ (none, h)
  unfolding malloc
  malloc-none e r = ground arith

  pub load-ok : (p : Ptr) {e : E} → h.cell p ≡ some e → load h p ≡ ok e
  unfolding load
  load-ok p c = rw c

  pub free-ok :
      (p : Ptr) {e : E}
      → h.cell p ≡ some e
      → free p h ≡ ok (record h { cell = update h.cell p none; room = h.room + 1 })
  unfolding free
  free-ok p c = rw c

-- The heap after malloc has given out a block for `e`.
abbrev pub grown : {E : Type 0} → E → Heap E → Heap E
grown e h = record { cell = update h.cell h.next (some e); next = h.next + 1; room = h.room - 1 }

pub grown-IsHeap : {E : Type 0} (e : E) (h : Heap E) → IsHeap h → IsHeap (grown e h)
grown-IsHeap e h w q b = ground (arith, w q)

pub store-IsHeap :
    {E : Type 0} (p : Ptr) {e : E} (f : E) (h : Heap E)
    → IsHeap h
    → h.cell p ≡ some e
    → IsHeap (store p f h)
unfolding store
store-IsHeap p f h w c q b = ground (arith, w q)

pub grown-old :
    {E : Type 0} (e : E) (h : Heap E) (q : Ptr) {f : E}
    → IsHeap h
    → h.cell q ≡ some f
    → (grown e h).cell q ≡ some f
grown-old e h q w c = ground (arith, w q)

pub grown-new : {E : Type 0} (e : E) (h : Heap E) → (grown e h).cell h.next ≡ some e
grown-new e h = ground arith

-- malloc gives an address that no list of allocated entries has.
pub next-fresh :
    {E : Type 0} (h : Heap E) (ps : List Ptr)
    → IsHeap h
    → ((p : Ptr) → mem p ps ≡ true → is_some (h.cell p) ≡ true)
    → mem h.next ps ≡ false
next-fresh h ps w live = ground (arith, live h.next, w h.next)
