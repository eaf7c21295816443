-- ===== src/Bspc.antt =====
-- bs/src/bs_lib/bspc.c and include/bspc.h: the table of the base station's connections to the
-- virtual network functions, from protocol numbers to sockets. It has no lock.
pub mod Laws
use nrg_5_sorbonne.Base.{ℕ, ◌%◌, ◌^◌, Bool, Option, none, some, ◌==◌}
use nrg_5_sorbonne.Kernel.{Ptr, Kernel}
use nrg_5_sorbonne.Memory.{Run, ok, ◌>>=◌, Heap, malloc}
use nrg_5_sorbonne.Table.Indexed.{Indexed, clear, insert_front, find, unlink, destroy}

pub record BspcEntry : Type 0 where
  pub proto : ℕ
  pub sockfd : ℕ

-- The parameter `proto` is a uint16_t, so an int that is passed is cut to 16 bits.
unfoldable pub alloc_bspc_entry : ℕ → ℕ → Heap BspcEntry → Option Ptr × Heap BspcEntry
alloc_bspc_entry proto sockfd h = malloc (record { proto = proto % 2 ^ 16; sockfd = sockfd }) h

-- BSPC_HASH_BITS
abbrev pub bspc_hash_bits : ℕ
bspc_hash_bits = 10

module _ ⦃K : Kernel⦄ where
  abbrev pub BspcTable : Type 0
  BspcTable = Indexed BspcEntry

  -- The protocol number is itself the key of the hash table.
  abbrev pub bspc_key : BspcEntry → ℕ
  bspc_key e = e.proto

  unfoldable pub bspc_table_init : BspcTable → BspcTable
  bspc_table_init tbl = clear bspc_hash_bits tbl

  -- The argument is what malloc returned, with whatever the block holds.
  unfoldable pub bspc_table_create : Option BspcTable → Option BspcTable
  unfolding bspc_table_init
  bspc_table_create none = none
  bspc_table_create (some tbl) = some (bspc_table_init tbl)

  unfoldable pub bspc_table_add : BspcTable → Ptr → Run BspcTable
  bspc_table_add tbl e = insert_front bspc_key tbl e

  unfoldable pub bspc_table_lookup : BspcTable → ℕ → Run (Option Ptr)
  bspc_table_lookup tbl proto = find tbl proto λ pos. pos.proto == proto

  unfoldable pub bspc_table_del : BspcTable → Ptr → BspcTable
  bspc_table_del tbl e = unlink tbl e

  unfoldable pub bspc_table_destroy : BspcTable → Run BspcTable
  bspc_table_destroy tbl = destroy tbl

  -- The table itself is given back to malloc; what is left is the heap of the entries.
  unfoldable pub bspc_table_free : BspcTable → Run (Heap BspcEntry)
  unfolding bspc_table_destroy
  bspc_table_free tbl = bspc_table_destroy tbl >>= λ t. ok t.heap
