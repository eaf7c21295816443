-- ===== src/Table/Linked.antt =====
-- A list and a hash table that index the same entries; adding, removing and rewriting an entry.
use nrg_5_sorbonne.Base.{
  some_of, some_inj, sym, ◌∙◌, Bool-cases, inl, inr, ap, ℕ, ◌%◌, ◌^◌, ◌≡◌, true, false, ◌||◌,
  Option, some, List, [], ◌∷◌, arith, ◌==◌, is_some, length, length-append, ◌++◌, mem, remove,
  distinct,
}
use nrg_5_sorbonne.Base.Members.{
  mem-append, distinct-snoc, mem-remove, length-remove, distinct-keep,
}
use nrg_5_sorbonne.Kernel.{Ptr, Kernel}
use nrg_5_sorbonne.Table.{incr, decr}

-- The list holds each entry once, all of them are allocated, and `size` counts them.
pub record Listed {E : Type 0} (cell : Ptr → Option E) (ps : List Ptr) (size : ℕ) : Type 0 where
  pub live : (p : Ptr) → mem p ps ≡ true → is_some (cell p) ≡ true
  pub once : distinct ps ≡ true
  pub count : size ≡ length ps % 2 ^ 32

module _ ⦃K : Kernel⦄ {E : Type 0} (key : E → ℕ) where
  -- The hash table holds the same entries, each in the bucket of its key.
  pub record Linked (cell : Ptr → Option E) (ps : List Ptr) (ht : K.HashTable) : Type 0 where
    pub chained :
        (p : Ptr) (e : E) → mem p ps ≡ true → cell p ≡ some e → mem p (K.chain ht (key e)) ≡ true
    pub only : (p : Ptr) (j : ℕ) → mem p (K.chain ht j) ≡ true → mem p ps ≡ true

  -- The entry is in no bucket, since it is not in the list.
  unchained :
      {cell : Ptr → Option E} {ps : List Ptr} {ht : K.HashTable}
      → Linked cell ps ht
      → (p : Ptr) → mem p ps ≡ false
      → (j : ℕ) → mem p (K.chain ht j) ≡ false
  unchained {ht} l p fresh j = elim (Bool-cases (mem p (K.chain ht j))) [
    | inl here ↦ cc (l.only p j here)
    | inr out ↦ out
  ]

  pub Linked-add :
      {cell : Ptr → Option E} {ps : List Ptr} {ht : K.HashTable}
      → Linked cell ps ht
      → (p : Ptr) (e : E) → cell p ≡ some e
      → mem p ps ≡ false
      → (ps' : List Ptr) → ((q : Ptr) → mem q ps' ≡ ((q == p) || mem q ps))
      → Linked cell ps' (K.hash_add p (key e) ht)
  unfolding mem
  Linked-add {ht} l p e c fresh ps' same =
      let out = unchained l p fresh in
      let own = K.chain-add p (key e) ht out in
      let other = K.chain-add_other p (key e) ht out in
      record {
        chained = λ q f m d. elim (Bool-cases (q == p)) [
          | inl here ↦ ground (arith, ap (mem p) own)
          | inr there ↦ ground (arith, same q, l.chained q f, other (key f) q)
        ];
        only = λ q j m. elim (Bool-cases (q == p)) [
          | inl here ↦ ground (arith, same q)
          | inr there ↦ ground (arith, same q, l.only q j, other j q)
        ];
      }

  pub Linked-del :
      {cell : Ptr → Option E} {ps : List Ptr} {ht : K.HashTable}
      → Linked cell ps ht
      → (p : Ptr) → Linked cell (remove p ps) (K.hash_del p ht)
  Linked-del {ps} {ht} l p = record {
    chained = λ q f m d. ground (
      arith,
      l.chained q f,
      mem-remove q p ps,
      ap (mem q) (K.chain-del p ht (key f)),
      mem-remove q p (K.chain ht (key f)),
    );
    only = λ q j m. ground (
      arith,
      l.only q j,
      mem-remove q p ps,
      ap (mem q) (K.chain-del p ht j),
      mem-remove q p (K.chain ht j),
    );
  }

  -- Other blocks may change as they like, and the entries where the key is left alone.
  pub Linked-write :
      {cell : Ptr → Option E} {ps : List Ptr} {ht : K.HashTable}
      → Linked cell ps ht
      → (cell' : Ptr → Option E)
      → ((q : Ptr) (f : E)
          → mem q ps ≡ true
          → cell' q ≡ some f
          → (e : E) × (cell q ≡ some e) × (key e ≡ key f))
      → Linked cell' ps ht
  Linked-write {ht} l cell' same = record {
    chained = λ q f m d.
        let (e, c, k) = same q f m d in
        rw (ap (λ x. mem q (K.chain ht x)) k) at (l.chained q e m c);
    only = l.only;
  }

  pub Linked-empty :
      {cell : Ptr → Option E} {ht : K.HashTable} → ((j : ℕ) → K.chain ht j ≡ []) → Linked cell [] ht
  unfolding mem
  Linked-empty none_there = record {
    chained = λ q f m d. cc;
    only = λ q j m. ground (arith, none_there j);
  }

module _ {E : Type 0} {cell : Ptr → Option E} {ps : List Ptr} {size : ℕ}
    (l : Listed cell ps size) where
  pub Listed-cons :
      (p : Ptr) → mem p ps ≡ false → is_some (cell p) ≡ true → Listed cell (p ∷ ps) (incr size)
  unfolding mem distinct
  Listed-cons p fresh here = record {
    live = λ q m. ground (arith, l.live q);
    once = ground (arith, l.once);
    count = omega (arith, l.count);
  }

  pub Listed-snoc :
      (p : Ptr)
      → mem p ps ≡ false
      → is_some (cell p) ≡ true
      → Listed cell (ps ++ p ∷ []) (incr size)
  unfolding mem
  Listed-snoc p fresh here = record {
    live = λ q m. ground (arith, l.live q, mem-append q ps (p ∷ []));
    once = distinct-snoc p ps l.once fresh;
    count = omega (arith, l.count, length-append ps (p ∷ []));
  }

  pub Listed-del : (p : Ptr) → mem p ps ≡ true → Listed cell (remove p ps) (decr size)
  Listed-del p here = record {
    live = λ q m. ground (arith, l.live q, mem-remove q p ps);
    once = distinct-keep _ ps l.once;
    count = omega (arith, l.count, length-remove p ps l.once here);
  }

  -- The entries may be rewritten in place.
  pub Listed-keep :
      (cell' : Ptr → Option E)
      → ((q : Ptr) (e : E) → mem q ps ≡ true → cell q ≡ some e → (f : E) × (cell' q ≡ some f))
      → Listed cell' ps size
  Listed-keep cell' changes = record {
    live = λ q m. let (e, c) = some_of (cell q) (l.live q m) in ap is_some (changes q e m c).1;
    once = l.once;
    count = l.count;
  }

  pub Linked-keep :
      ⦃K : Kernel⦄ (key : E → ℕ) {ht : K.HashTable} (cell' : Ptr → Option E)
      → Linked key cell ps ht
      → ((q : Ptr) (e : E)
          → mem q ps ≡ true
          → cell q ≡ some e
          → (f : E) × (cell' q ≡ some f) × (key e ≡ key f))
      → Linked key cell' ps ht
  Linked-keep key cell' linked changes = Linked-write key linked cell' λ q f m d.
      let (e, c) = some_of (cell q) (l.live q m) in
      let (g, d', k) = changes q e m c in (e, c, k ∙ ap key (some_inj (sym d' ∙ d)))
