-- ===== src/Bspc/Laws.antt =====
-- The operations of bs/src/bs_lib/bspc.c on the table of network functions.
use nrg_5_sorbonne.Base.{
  ℕ, ◌-◌, ◌<◌, ◌^◌, ◌≡◌, Bool, true, false, some, [], ◌∷◌, arith, mem, remove, length, ◌==◌,
}
use nrg_5_sorbonne.Kernel.{Ptr, Kernel}
use nrg_5_sorbonne.Memory.{Returns}
use nrg_5_sorbonne.Memory.Laws.{IsHeap}
use nrg_5_sorbonne.Table.Lookup.{Found}
use nrg_5_sorbonne.Table.Destroy.{Drained}
use nrg_5_sorbonne.Table.Indexed.Laws.{
  members, cells, IsIndexed, clear-IsIndexed, Inserted, insert_front-Inserted, find-Found,
  unlink-IsIndexed,
}
use nrg_5_sorbonne.Table.Indexed.Ages.{destroy-Drained}
use nrg_5_sorbonne.Bspc.{
  BspcEntry, BspcTable, bspc_key, bspc_table_init, bspc_table_add, bspc_table_lookup,
  bspc_table_del, bspc_table_destroy,
}

module _ ⦃K : Kernel⦄ where
  abbrev pub IsBspcTable : BspcTable → Type 0
  IsBspcTable t = IsIndexed bspc_key t

  abbrev pub of_proto : ℕ → BspcEntry → Bool
  of_proto proto e = e.proto == proto

  pub bspc_table_init-IsBspcTable :
      (t : BspcTable)
      → IsHeap t.heap
      → IsBspcTable (bspc_table_init t) × (members (bspc_table_init t) ≡ [])
  unfolding bspc_table_init
  bspc_table_init-IsBspcTable t w = clear-IsIndexed bspc_key 10 t w

  -- Adding an allocated entry that is not in a well-formed table of network functions returns a
  -- well-formed table with that entry in front, on the same heap.
  pub bspc_table_add-Inserted :
      (t : BspcTable) (p : Ptr) (e : BspcEntry)
      → IsBspcTable t
      → cells t p ≡ some e
      → mem p (members t) ≡ false
      → Returns (Inserted bspc_key t (p ∷ members t)) (bspc_table_add t p)
  unfolding bspc_table_add
  bspc_table_add-Inserted t p e w c fresh = insert_front-Inserted bspc_key t p e w c fresh

  -- On a well-formed table the lookup returns an entry of the table with the protocol, or NULL if
  -- no entry has it.
  pub bspc_table_lookup-Found :
      (t : BspcTable) (proto : ℕ)
      → IsBspcTable t
      → Found (of_proto proto) (cells t) (members t) (bspc_table_lookup t proto)
  unfolding bspc_table_lookup
  bspc_table_lookup-Found t proto w =
      find-Found bspc_key t proto (of_proto proto) w λ e h. ground arith

  -- Deleting an entry of a well-formed table leaves a well-formed table without it, on the same
  -- heap.
  pub bspc_table_del-IsBspcTable :
      (t : BspcTable) (p : Ptr)
      → IsBspcTable t
      → mem p (members t) ≡ true
      → IsBspcTable (bspc_table_del t p)
        × (members (bspc_table_del t p) ≡ remove p (members t))
        × ((bspc_table_del t p).heap ≡ t.heap)
  unfolding bspc_table_del
  bspc_table_del-IsBspcTable t p w here = unlink-IsIndexed bspc_key t p w here

  -- Destroying a well-formed table of less than 2^32 entries returns an empty list; the entries
  -- are freed, no other block changes, and `size` is -1 as a 32-bit pattern.
  pub bspc_table_destroy-Drained :
      (t : BspcTable)
      → IsBspcTable t
      → length (members t) < 2 ^ 32
      → Returns (λ t'. Drained members cells t t' × (t'.size ≡ 2 ^ 32 - 1)) (bspc_table_destroy t)
  unfolding bspc_table_destroy
  bspc_table_destroy-Drained t w small = destroy-Drained bspc_key t w small
