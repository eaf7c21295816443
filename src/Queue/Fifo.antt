-- ===== src/Queue/Fifo.antt =====
-- The queue of bs/src/bs_lib/packet_queue.c as a list of packets, oldest first.
use nrg_5_sorbonne.Base.{
  ℕ, zero, suc, ◌<◌, ◌≡◌, ◌≢◌, refl, ap, ◌∙◌, true, false, Option, none, some, List, [], ◌∷◌, ◌++◌,
  arith, is_some, length, mem, distinct, remove,
}
use nrg_5_sorbonne.Base.Members.{distinct-snoc, remove-head, distinct-tail, mem-head}
use nrg_5_sorbonne.Kernel.{Ptr, Kernel}
use nrg_5_sorbonne.Memory.{ok, Heap, Returns, returns, Returns-bind}
use nrg_5_sorbonne.Memory.Laws.{IsHeap, next-lt, malloc-some, load-ok, free-ok}
use nrg_5_sorbonne.Packet.{Packet}
use nrg_5_sorbonne.Queue.{
  Pq, pq_init, pq_put_packet, pq_get_packet, pq_empty, pq_destroy, pq_destroy_loop,
}

-- The packets at some addresses, in order, where there is one at each.
pub data Holds (cell : Ptr → Option Packet) : List Ptr → List Packet → Type 0 where
  nil : Holds cell [] []
  cons :
      {p : Ptr} {x : Packet} {ps : List Ptr} {xs : List Packet}
      → cell p ≡ some x
      → Holds cell ps xs
      → Holds cell (p ∷ ps) (x ∷ xs)

Holds-frame :
    {cell cell' : Ptr → Option Packet} {ps : List Ptr} {xs : List Packet}
    → Holds cell ps xs
    → ((q : Ptr) → mem q ps ≡ true → cell' q ≡ cell q)
    → Holds cell' ps xs
unfolding mem
Holds-frame nil same = nil
Holds-frame (cons {p} c h) same =
    cons (same p (ground arith) ∙ c) (Holds-frame h λ q m. same q (ground arith))

Holds-snoc :
    {cell : Ptr → Option Packet} {ps : List Ptr} {xs : List Packet}
    → Holds cell ps xs
    → (p : Ptr) (x : Packet) → cell p ≡ some x
    → Holds cell (ps ++ p ∷ []) (xs ++ x ∷ [])
Holds-snoc nil p x c = cons c nil
Holds-snoc (cons d h) p x c = cons d (Holds-snoc h p x c)

Holds-live :
    {cell : Ptr → Option Packet} {ps : List Ptr} {xs : List Packet}
    → Holds cell ps xs
    → (q : Ptr) → mem q ps ≡ true
    → is_some (cell q) ≡ true
unfolding mem
Holds-live nil q m = cc
Holds-live (cons c h) q m = ground (arith, Holds-live h q)

length-Holds :
    {cell : Ptr → Option Packet} {ps : List Ptr} {xs : List Packet}
    → Holds cell ps xs
    → length ps ≡ length xs
length-Holds nil = refl
length-Holds (cons c h) = ap suc (length-Holds h)

module _ ⦃K : Kernel⦄ where
  -- The queue stands for the list of packets `xs`, oldest first.
  pub record IsPq (pq : Pq) (xs : List Packet) : Type 0 where
    pub items : Holds pq.heap.cell (K.entries pq.pq_head) xs
    pub once : distinct (K.entries pq.pq_head) ≡ true
    pub allocated : IsHeap pq.heap

  pub pq_init-IsPq : (pq : Pq) → IsHeap pq.heap → IsPq (pq_init pq) []
  unfolding pq_init distinct
  pq_init-IsPq pq w = record {
    items = rw K.entries-init nil;
    once = rw K.entries-init refl;
    allocated = w;
  }

  -- malloc gives an address that is not in the queue.
  next-fresh :
      (h : Heap Packet) (ps : List Ptr) {xs : List Packet}
      → Holds h.cell ps xs
      → IsHeap h
      → mem h.next ps ≡ false
  unfolding mem
  next-fresh h [] q w = refl
  next-fresh h (p ∷ ps) (cons c q) w = ground (arith, next-lt h {p = p} w c, next-fresh h ps q w)

  -- Putting a packet into a queue of the packets `xs`, with room on the heap, returns a queue of
  -- `xs` with the packet behind them.
  pub pq_put_packet-IsPq :
      (pq : Pq) (pkt : Packet) {xs : List Packet}
      → IsPq pq xs
      → pq.heap.room ≢ 0
      → Returns (λ pq'. IsPq pq' (xs ++ pkt ∷ [])) (pq_put_packet pq pkt)
  unfolding pq_put_packet
  pq_put_packet-IsPq pq pkt w room =
      let fresh = next-fresh pq.heap (K.entries pq.pq_head) w.items w.allocated in
      let back = K.entries-add_tail pq.heap.next pq.pq_head fresh in
      rw (malloc-some pq.heap pkt room) (
        returns (record {
          items = rw back (
              Holds-snoc (Holds-frame w.items λ q m. ground arith) pq.heap.next pkt (ground arith));
          once = rw back (distinct-snoc pq.heap.next (K.entries pq.pq_head) w.once fresh);
          allocated = λ q b. ground (arith, w.allocated q);
        }))

  get-nil :
      (pq : Pq) (ps : List Ptr)
      → K.entries pq.pq_head ≡ ps
      → Holds pq.heap.cell ps []
      → pq_get_packet pq ≡ ok (none, pq)
  unfolding pq_get_packet
  get-nil pq ps e nil = rw e

  -- An empty queue gives NULL and stays as it is.
  pub pq_get_packet-nil : (pq : Pq) → IsPq pq [] → pq_get_packet pq ≡ ok (none, pq)
  pq_get_packet-nil pq w = get-nil pq (K.entries pq.pq_head) refl w.items

  get-cons :
      (pq : Pq) (ps : List Ptr) {x : Packet} {xs : List Packet}
      → K.entries pq.pq_head ≡ ps
      → distinct ps ≡ true
      → IsHeap pq.heap
      → Holds pq.heap.cell ps (x ∷ xs)
      → Returns (λ (r, pq'). (r ≡ some x) × IsPq pq' xs) (pq_get_packet pq)
  unfolding pq_get_packet distinct
  get-cons pq ps {x} {xs} e once w (cons {p} {ps = qs} c h) =
      let left : K.entries (K.list_del p pq.pq_head) ≡ qs =
        K.entries-del p pq.pq_head (rw e (mem-head p qs))
        ∙ ap (remove p) e
        ∙ remove-head p qs once in
      rw (e, load-ok pq.heap p c, free-ok pq.heap p c)
        (returns (
          refl,
          record {
            items = rw left (Holds-frame h λ q m. ground arith);
            once = rw left (distinct-tail p qs once);
            allocated = λ q b. ground (arith, w q);
          },
        ))

  -- Getting a packet from a queue of `x` and then `xs` returns `x`, and leaves a queue of `xs`.
  pub pq_get_packet-cons :
      (pq : Pq) {x : Packet} {xs : List Packet}
      → IsPq pq (x ∷ xs)
      → Returns (λ (r, pq'). (r ≡ some x) × IsPq pq' xs) (pq_get_packet pq)
  pq_get_packet-cons pq w = get-cons pq (K.entries pq.pq_head) refl w.once w.allocated w.items

  empty-Holds :
      (pq : Pq) (ps : List Ptr) {xs : List Packet}
      → K.entries pq.pq_head ≡ ps
      → Holds pq.heap.cell ps xs
      → (length ps ≡ length xs) × (pq_empty pq ≡ elim xs [ [] ↦ true | x ∷ r ↦ false ])
  unfolding pq_empty
  empty-Holds pq ps e nil = (refl, rw e)
  empty-Holds pq ps e (cons c h) = (ap suc (length-Holds h), rw e)

  pub pq_empty-cons :
      (pq : Pq) {x : Packet} {xs : List Packet} → IsPq pq (x ∷ xs) → pq_empty pq ≡ false
  pq_empty-cons pq w = (empty-Holds pq (K.entries pq.pq_head) refl w.items).1

  destroy_loop-nil :
      (n : ℕ) (pq : Pq) (xs : List Packet)
      → IsPq pq xs
      → length xs < n
      → Returns (λ pq'. IsPq pq' []) (pq_destroy_loop n pq)
  unfolding pq_destroy_loop
  destroy_loop-nil zero pq xs w fuel = absurd (omega arith)
  destroy_loop-nil (suc n) pq [] w fuel =
      rw ((empty-Holds pq (K.entries pq.pq_head) refl w.items).1, pq_destroy_loop) (returns w)
  destroy_loop-nil (suc n) pq (x ∷ xs) w fuel =
      rw ((empty-Holds pq (K.entries pq.pq_head) refl w.items).1, pq_destroy_loop)
        (Returns-bind (pq_get_packet-cons pq w)
          λ r (_, w'). destroy_loop-nil n r.1 xs w' (omega arith))

  -- Destroying a queue of any packets returns, with an empty queue.
  pub pq_destroy-nil :
      (pq : Pq) (xs : List Packet) → IsPq pq xs → Returns (λ pq'. IsPq pq' []) (pq_destroy pq)
  unfolding pq_destroy
  pq_destroy-nil pq xs w =
      destroy_loop-nil (suc (length (K.entries pq.pq_head))) pq xs w
        (omega (arith, (empty-Holds pq (K.entries pq.pq_head) refl w.items).0))
