-- ===== src/Table/Indexed.antt =====
-- What neighbor.c, fwding.c and bspc.c do alike, step by step the same code under three names: a
-- table with one linear list, one hash table and a count of its entries, on a heap.
pub mod Laws
pub mod Ages
use nrg_5_sorbonne.Base.{ℕ, zero, suc, Bool, true, false, Option, none, some, List, []}
use nrg_5_sorbonne.Kernel.{Ptr, Kernel}
use nrg_5_sorbonne.Memory.{Run, ok, ◌>>=◌, Heap, load, free}
use nrg_5_sorbonne.Table.{incr, decr, scan, mark, sweep, drain}
use nrg_5_sorbonne.Table.Destroy.{first}

module _ ⦃K : Kernel⦄ where
  pub record Indexed (E : Type 0) : Type 0 where
    pub size : ℕ
    pub ll_head : K.ListHead
    pub ht : K.HashTable
    pub heap : Heap E

module _ ⦃K : Kernel⦄ {E : Type 0} where
  -- `size = 0; INIT_LIST_HEAD (…); hash_init (…);`
  unfoldable pub clear : ℕ → Indexed E → Indexed E
  clear bits t = record t { size = 0; ll_head = K.init_list_head; ht = K.hash_init bits }

  -- `list_add (…); hash_add (…); size++;`
  unfoldable pub insert_front : (E → ℕ) → Indexed E → Ptr → Run (Indexed E)
  insert_front key t p = do
    e ← load t.heap p
    ok (record t {
      ll_head = K.list_add p t.ll_head;
      ht = K.hash_add p (key e) t.ht;
      size = incr t.size;
    })

  -- `list_add_tail (…); hash_add (…); size++;`
  unfoldable pub insert_back : (E → ℕ) → Indexed E → Ptr → Run (Indexed E)
  insert_back key t p = do
    e ← load t.heap p
    ok (record t {
      ll_head = K.list_add_tail p t.ll_head;
      ht = K.hash_add p (key e) t.ht;
      size = incr t.size;
    })

  -- `hash_for_each_possible (…, key) if (test) break;`
  unfoldable pub find : Indexed E → ℕ → (E → Bool) → Run (Option Ptr)
  find t key test = scan test t.heap (K.chain t.ht key)

  -- `list_del (…); hash_del (…); size--;`
  unfoldable pub unlink : Indexed E → Ptr → Indexed E
  unlink t p = record t {
    ll_head = K.list_del p t.ll_head;
    ht = K.hash_del p t.ht;
    size = decr t.size;
  }

  unfoldable pub release : Ptr → Indexed E → Run (Indexed E)
  release p t = free p t.heap >>= λ h. ok (record t { heap = h })

  unfoldable pub age_out : Ptr → Indexed E → Run (Indexed E)
  unfolding unlink release
  age_out p t = release p (unlink t p)

  -- The two loops of aging.
  unfoldable pub age : Bool → (E → Bool) → (E → E) → Indexed E → Run (Indexed E)
  unfolding age_out
  age given is_old expire t = do
    (rec, h) ← mark given is_old expire (K.entries t.ll_head) [] t.heap
    sweep age_out rec (record t { heap = h })

  unfoldable pub destroy_first : Ptr → Indexed E → Run (Indexed E)
  unfolding release
  destroy_first p t =
      release p (record t { ll_head = K.list_del p t.ll_head; ht = K.hash_del p t.ht })

  -- `while (size--) …`: the test comes before the count, so `size` ends at -1.
  unfoldable pub destroy : Indexed E → Run (Indexed E)
  unfolding destroy_first
  destroy t = do
    t ← drain (λ t. first (K.entries t.ll_head)) destroy_first t.size t
    ok (record t { size = decr 0 })
