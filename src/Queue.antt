-- ===== src/Queue.antt =====
-- bs/src/bs_lib/packet_queue.c: the queue of received data packets, entries on a heap in a list.
pub mod Fifo
use nrg_5_sorbonne.Base.{ℕ, zero, suc, Bool, true, false, Option, none, some, List, [], ◌∷◌, length}
use nrg_5_sorbonne.Kernel.{Ptr, Kernel}
use nrg_5_sorbonne.Memory.{Run, ok, crash, ◌>>=◌, non_null, Heap, malloc, load, free}
use nrg_5_sorbonne.Packet.{Packet}
use nrg_5_sorbonne.Table.Destroy.{first}

-- list_empty
abbrev pub is_empty : List Ptr → Bool
is_empty [] = true
is_empty (_ ∷ _) = false

module _ ⦃K : Kernel⦄ where
  -- The heap holds the packet of each queue entry.
  pub record Pq : Type 0 where
    pub pq_head : K.ListHead
    pub heap : Heap Packet

  unfoldable pub pq_init : Pq → Pq
  pq_init pq = record pq { pq_head = K.init_list_head }

  -- The entry is written through what malloc returns, NULL or not.
  unfoldable pub pq_put_packet : Pq → Packet → Run Pq
  pq_put_packet pq pkt =
      let (pq_e, h) = malloc pkt pq.heap in
      non_null pq_e >>= λ e. ok (record { pq_head = K.list_add_tail e pq.pq_head; heap = h })

  -- What is done with the first entry, if there is one.
  unfoldable pub take_first : Option Ptr → Pq → Run (Option Packet × Pq)
  take_first none pq = ok (none, pq)
  take_first (some pq_e) pq = do
    pkt ← load pq.heap pq_e
    h ← free pq_e pq.heap
    ok (some pkt, record { pq_head = K.list_del pq_e pq.pq_head; heap = h })

  unfoldable pub pq_get_packet : Pq → Run (Option Packet × Pq)
  unfolding take_first
  pq_get_packet pq = take_first (first (K.entries pq.pq_head)) pq

  unfoldable pub pq_empty : Pq → Bool
  pq_empty pq = is_empty (K.entries pq.pq_head)

  -- `while (!list_empty (…))`, with fuel; `crash` stands for running out of it.
  unfoldable pub pq_destroy_loop : ℕ → Pq → Run Pq
  unfolding pq_get_packet pq_empty
  pq_destroy_loop zero pq = crash
  pq_destroy_loop (suc n) pq = elim (pq_empty pq) [
    | true ↦ ok pq
    | false ↦ pq_get_packet pq >>= λ r. pq_destroy_loop n r.1
  ]

  -- One round for each entry, and one for the last test.
  unfoldable pub pq_destroy : Pq → Run Pq
  unfolding pq_destroy_loop
  pq_destroy pq = pq_destroy_loop (suc (length (K.entries pq.pq_head))) pq
