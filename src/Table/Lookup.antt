-- ===== src/Table/Lookup.antt =====
-- A lookup in a bucket.
use nrg_5_sorbonne.Base.{
  ℕ, ◌≡◌, refl, Bool, true, false, Option, none, some, List, [], ◌∷◌, arith, is_some, mem,
  Bool-cases, inl, inr, Option-cases, ap,
}
use nrg_5_sorbonne.Kernel.{Ptr, Kernel}
use nrg_5_sorbonne.Memory.{Run, ok, Heap, Returns, returns}
use nrg_5_sorbonne.Memory.Laws.{load-ok}
use nrg_5_sorbonne.Table.{scan}
use nrg_5_sorbonne.Table.Linked.{Listed, Linked}

-- What a lookup among the entries `ps` returns.
pub data Found {E : Type 0} (test : E → Bool) (cell : Ptr → Option E) (ps : List Ptr)
    : Run (Option Ptr) → Type 0 where
  hit :
      (p : Ptr) (e : E)
      → mem p ps ≡ true
      → cell p ≡ some e
      → test e ≡ true
      → Found test cell ps (ok (some p))
  miss :
      ((p : Ptr) (e : E) → mem p ps ≡ true → cell p ≡ some e → test e ≡ false)
      → Found test cell ps (ok none)

module _ {E : Type 0} (test : E → Bool) (h : Heap E) where
  Found-cons :
      (p : Ptr) {e : E} (ps : List Ptr) {r : Run (Option Ptr)}
      → h.cell p ≡ some e
      → test e ≡ false
      → Found test h.cell ps r
      → Found test h.cell (p ∷ ps) r
  unfolding mem
  Found-cons p ps c t (hit q f m d u) = hit q f (ground arith) d u
  Found-cons p {e} ps c t (miss absent) = miss λ q f m d. ground (arith, absent q f)

  pub scan-Found :
      (ps : List Ptr)
      → ((p : Ptr) → mem p ps ≡ true → is_some (h.cell p) ≡ true)
      → Found test h.cell ps (scan test h ps)
  unfolding scan mem
  scan-Found [] live = miss λ p e m c. cc
  scan-Found (p ∷ ps) live = elim (Option-cases (h.cell p)) [
    | inl gone ↦ ground (arith, live p)
    | inr (e, c) ↦ elim (Bool-cases (test e)) [
      | inl t ↦ rw (load-ok h p c, t) (hit p e (ground arith) c t)
      | inr f ↦
          rw (load-ok h p c, f) (Found-cons p ps c f (scan-Found ps λ q m. live q (ground arith)))
    ]
  ]

module _ ⦃K : Kernel⦄ {E : Type 0} (key : E → ℕ) (test : E → Bool) (h : Heap E) where
  widen :
      (ps qs : List Ptr) {r : Run (Option Ptr)}
      → Found test h.cell qs r
      → ((p : Ptr) → mem p qs ≡ true → mem p ps ≡ true)
      → ((p : Ptr) (e : E) → mem p ps ≡ true → h.cell p ≡ some e → test e ≡ true → mem p qs ≡ true)
      → Found test h.cell ps r
  widen ps qs (hit p e m c t) sub all = hit p e (sub p m) c t
  widen ps qs (miss absent) sub all = miss λ p e m c. ground (arith, absent p e, all p e)

  pub lookup-Found :
      {ps : List Ptr} {ht : K.HashTable} {size : ℕ} (k : ℕ)
      → Listed h.cell ps size
      → Linked key h.cell ps ht
      → ((e : E) → test e ≡ true → key e ≡ k)
      → Found test h.cell ps (scan test h (K.chain ht k))
  lookup-Found {ps} {ht} k listed linked of_key =
      widen ps (K.chain ht k)
        (scan-Found test h (K.chain ht k) λ p m. listed.live p (linked.only p k m))
        (λ p m. linked.only p k m)
        (λ p e m c t. rw (ap (K.chain ht) (of_key e t)) at (linked.chained p e m c))

-- A lookup returns.
pub Found-Returns :
    {E : Type 0} {test : E → Bool} {cell : Ptr → Option E} {ps : List Ptr} {r : Run (Option Ptr)}
    → Found test cell ps r
    → Returns (λ o. Found test cell ps (ok o)) r
Found-Returns (hit p e m c t) = returns (hit p e m c t)
Found-Returns (miss absent) = returns (miss absent)

-- Which entry a lookup has found, and that it has found none.
pub Found-some :
    {E : Type 0} {test : E → Bool} {cell : Ptr → Option E} {ps : List Ptr} (p : Ptr)
    → Found test cell ps (ok (some p))
    → (e : E) × (mem p ps ≡ true) × (cell p ≡ some e) × (test e ≡ true)
Found-some p (hit _ e m c t) = (e, m, c, t)

pub Found-none :
    {E : Type 0} {test : E → Bool} {cell : Ptr → Option E} {ps : List Ptr}
    → Found test cell ps (ok none)
    → (p : Ptr) (e : E) → mem p ps ≡ true
    → cell p ≡ some e
    → test e ≡ false
Found-none (miss absent) = absent

pub Found-absent :
    {E : Type 0} {test : E → Bool} {cell : Ptr → Option E} {ps : List Ptr} {r : Run (Option Ptr)}
    → Found test cell ps r
    → ((p : Ptr) (e : E) → mem p ps ≡ true → cell p ≡ some e → test e ≡ false)
    → r ≡ ok none
Found-absent (hit p e m c t) absent = absurd (ground (arith, absent p e m c, t))
Found-absent (miss _) absent = refl
