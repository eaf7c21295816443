-- ===== src/Tests/Linux.antt =====
-- One way to keep the promises of list.h and hashtable.h: a list of addresses, and a list of
-- addresses with their keys, whose buckets are the keys' last bits.
use nrg_5_sorbonne.Base.{
  ℕ, ◌+◌, ◌%◌, ◌^◌, ◌≡◌, ◌≢◌, refl, Bool, List, [], ◌∷◌, ◌++◌, ◌==◌, if◌then◌else◌, arith, mem,
  remove, length,
}
use nrg_5_sorbonne.Kernel.{Kernel, Ptr}

abbrev pub Nodes : Type 0
Nodes = List (Ptr × ℕ)

abbrev pub same_bucket : ℕ → ℕ → ℕ → Bool
same_bucket bits k j = (k % 2 ^ bits) == (j % 2 ^ bits)

abbrev pub bucket : ℕ → Nodes → ℕ → List Ptr
bucket bits [] j = []
bucket bits (n ∷ t) j = if same_bucket bits n.1 j then n.0 ∷ bucket bits t j else bucket bits t j

abbrev pub unhash : Ptr → Nodes → Nodes
unhash p [] = []
unhash p (n ∷ t) = if p == n.0 then unhash p t else n ∷ unhash p t

pub bucket-own :
    (bits : ℕ) (p : Ptr) (k : ℕ) (t : Nodes) → bucket bits ((p, k) ∷ t) k ≡ p ∷ bucket bits t k
bucket-own bits p k t = ground arith

pub mem-bucket :
    (bits : ℕ) (p : Ptr) (k : ℕ) (t : Nodes) (j : ℕ) (q : Ptr)
    → q ≢ p
    → mem q (bucket bits ((p, k) ∷ t) j) ≡ mem q (bucket bits t j)
unfolding mem
mem-bucket bits p k t j q other = ground arith

pub bucket-unhash :
    (bits : ℕ) (p : Ptr) (t : Nodes) (j : ℕ)
    → bucket bits (unhash p t) j ≡ remove p (bucket bits t j)
bucket-unhash bits p [] j = refl
bucket-unhash bits p (n ∷ t) j = ground (arith, bucket-unhash bits p t j)

instance abbrev pub linux : Kernel
linux = record {
  ListHead = List Ptr;
  HashTable = ℕ × Nodes;
  init_list_head = [];
  list_add = λ p l. p ∷ l;
  list_add_tail = λ p l. l ++ p ∷ [];
  list_del = λ p l. remove p l;
  entries = λ l. l;
  entries-init = refl;
  entries-add = λ p l out. refl;
  entries-add_tail = λ p l out. refl;
  entries-del = λ p l here. refl;
  hash_init = λ bits. (bits, []);
  hash_add = λ p k t. (t.0, (p, k) ∷ t.1);
  hash_del = λ p t. (t.0, unhash p t.1);
  chain = λ t j. bucket t.0 t.1 j;
  chain-init = λ bits k. refl;
  chain-add = λ p k t out. bucket-own t.0 p k t.1;
  chain-add_other = λ p k t out j q other. mem-bucket t.0 p k t.1 j q other;
  chain-del = λ p t j. bucket-unhash t.0 p t.1 j;
  hash_crc = λ bytes seed. (length bytes + seed) % 2 ^ 32;
}
