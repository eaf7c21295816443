-- ===== src/Table/Destroy.antt =====
-- The loop of a destroy function, over any table.
use nrg_5_sorbonne.Base.{
  ℕ, zero, suc, ◌≡◌, refl, ap, ◌∙◌, true, Option, none, some, List, [], ◌∷◌, arith, ◌==◌,
  if◌then◌else◌, length, mem, remove, distinct,
}
use nrg_5_sorbonne.Base.Members.{remove-head, distinct-tail, mem-head}
use nrg_5_sorbonne.Kernel.{Ptr}
use nrg_5_sorbonne.Memory.{Run, Returns, returns, Returns-bind, Returns-mono}
use nrg_5_sorbonne.Table.{drain}

-- What destroying the first entry promises, and what the whole loop does.
pub record Dropped {T E : Type 0} (ps : T → List Ptr) (cell : T → Ptr → Option E) (t : T) (p : Ptr)
    (t' : T) : Type 0 where
  pub left : ps t' ≡ remove p (ps t)
  pub cells : (q : Ptr) → cell t' q ≡ (if q == p then none else cell t q)

pub record Drained {T E : Type 0} (ps : T → List Ptr) (cell : T → Ptr → Option E) (t t' : T)
    : Type 0 where
  pub left : ps t' ≡ []
  pub cells : (q : Ptr) → cell t' q ≡ (if mem q (ps t) then none else cell t q)

abbrev pub first : List Ptr → Option Ptr
first [] = none
first (p ∷ ps) = some p

module _ {T E : Type 0} (first_entry : T → Option Ptr) (drop_first : Ptr → T → Run T)
    (ps : T → List Ptr) (cell : T → Ptr → Option E) (Inv : T → Type 0)
    (head : (t : T) → first_entry t ≡ first (ps t))
    (one : (p : Ptr) (t : T)
      → Inv t
      → mem p (ps t) ≡ true
      → distinct (ps t) ≡ true
      → Returns (λ t'. Inv t' × Dropped ps cell t p t') (drop_first p t)) where
  pub drain-Drained :
      (n : ℕ) (t : T)
      → Inv t
      → distinct (ps t) ≡ true
      → (xs : List Ptr) → ps t ≡ xs
      → n ≡ length xs
      → Returns (Drained ps cell t) (drain first_entry drop_first n t)
  unfolding drain mem distinct
  drain-Drained zero t inv once [] e c = returns (record { left = e; cells = λ q. rw e refl })
  drain-Drained zero t inv once (x ∷ xs) e c = absurd (omega arith)
  drain-Drained (suc n) t inv once [] e c = absurd (omega arith)
  drain-Drained (suc n) t inv once (x ∷ xs) e c =
      let d0 : distinct (x ∷ xs) ≡ true = rw e at once in
      rw (head t, e)
        (Returns-bind (one x t inv (rw e (mem-head x xs)) once) λ t1 (inv1, d).
          let l : ps t1 ≡ xs = d.left ∙ ap (remove x) e ∙ remove-head x xs d0 in
          Returns-mono (drain-Drained n t1 inv1 (rw l (distinct-tail x xs d0)) xs l (omega arith))
            λ t2 s. record {
              left = s.left;
              cells = λ q. ground (arith, s.cells q, d.cells q, ap (mem q) e, ap (mem q) l);
            })
