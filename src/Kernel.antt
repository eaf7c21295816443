-- ===== src/Kernel.antt =====
-- What the code uses of three vendored headers: list.h and hashtable.h (bs/src/bs_lib/include,
-- from the Linux kernel) and hash_crc.h (from DPDK). They are not modelled: they enter as this
-- record of operations, with the documented behaviour of each as a law. An embedded node
-- (`e->ll`, `e->hl`) is named by the address of the entry that holds it.
use nrg_5_sorbonne.Base.{ℕ, ◌≡◌, ◌≢◌, true, false, List, [], ◌∷◌, ◌++◌, mem, remove}

-- The address of an entry on the C heap.
abbrev pub Ptr : Type 0
Ptr = ℕ

pub record Kernel : Type 1 where
  pub ListHead : Type 0
  pub HashTable : Type 0
  -- list.h: `INIT_LIST_HEAD`, `list_add`, `list_add_tail`, `list_del`, and the nodes that
  -- `list_for_each_entry` visits, in order.
  pub init_list_head : ListHead
  pub list_add : Ptr → ListHead → ListHead
  pub list_add_tail : Ptr → ListHead → ListHead
  pub list_del : Ptr → ListHead → ListHead
  pub entries : ListHead → List Ptr
  pub entries-init : entries init_list_head ≡ []
  pub entries-add :
      (p : Ptr) (l : ListHead) → mem p (entries l) ≡ false → entries (list_add p l) ≡ p ∷ entries l
  pub entries-add_tail :
      (p : Ptr) (l : ListHead)
      → mem p (entries l) ≡ false
      → entries (list_add_tail p l) ≡ entries l ++ p ∷ []
  pub entries-del :
      (p : Ptr) (l : ListHead)
      → mem p (entries l) ≡ true
      → entries (list_del p l) ≡ remove p (entries l)
  -- hashtable.h: `hash_init` of a table of 2^bits buckets, `hash_add`, `hash_del`, and the nodes
  -- that `hash_for_each_possible` visits for a key: those of the key's bucket, last added first.
  pub hash_init : ℕ → HashTable
  pub hash_add : Ptr → ℕ → HashTable → HashTable
  pub hash_del : Ptr → HashTable → HashTable
  pub chain : HashTable → ℕ → List Ptr
  pub chain-init : (bits k : ℕ) → chain (hash_init bits) k ≡ []
  pub chain-add :
      (p : Ptr) (k : ℕ) (t : HashTable)
      → ((j : ℕ) → mem p (chain t j) ≡ false)
      → chain (hash_add p k t) k ≡ p ∷ chain t k
  pub chain-add_other :
      (p : Ptr) (k : ℕ) (t : HashTable)
      → ((j : ℕ) → mem p (chain t j) ≡ false)
      → (j : ℕ) (q : Ptr) → q ≢ p
      → mem q (chain (hash_add p k t) j) ≡ mem q (chain t j)
  pub chain-del : (p : Ptr) (t : HashTable) (j : ℕ) → chain (hash_del p t) j ≡ remove p (chain t j)
  -- hash_crc.h: the CRC32 of some bytes, from an initial value.
  pub hash_crc : List ℕ → ℕ → ℕ
