-- ===== src/Table/Aging.antt =====
-- The two loops of aging: the first collects the expired entries and expires every entry, the
-- second drops those that were collected.
use nrg_5_sorbonne.Base.{
  ◌≡◌, refl, sym, ap, ◌∙◌, Bool, true, false, not, ◌&&◌, ◌||◌, Option, none, some, List, [], ◌∷◌,
  arith, ◌==◌, if◌then◌else◌, is_some, mem, remove, keep, distinct, Option-cases, inl, inr,
}
use nrg_5_sorbonne.Base.Members.{keep-remove, keep-all, mem-remove}
use nrg_5_sorbonne.Kernel.{Ptr}
use nrg_5_sorbonne.Memory.{Run, Heap, store, Returns, returns, Returns-bind, Returns-mono}
use nrg_5_sorbonne.Memory.Laws.{load-ok}
use nrg_5_sorbonne.Table.{mark, sweep}

module _ {E : Type 0} where
  -- A test of the entry at an address.
  abbrev pub holds : (E → Bool) → Option E → Bool
  holds f none = false
  holds f (some e) = f e

  abbrev pub changed : (E → E) → Option E → Option E
  changed f none = none
  changed f (some e) = some (f e)

module _ {E : Type 0} (is_old : E → Bool) (expire : E → E) where
  pub record Marked (h : Heap E) (ps rec : List Ptr) (r : List Ptr × Heap E) : Type 0 where
    pub collected : (q : Ptr) → mem q r.0 ≡ (mem q rec || (mem q ps && holds is_old (h.cell q)))
    pub once : distinct r.0 ≡ true
    pub cells : (q : Ptr) → r.1.cell q ≡ (if mem q ps then changed expire (h.cell q) else h.cell q)
    pub next : r.1.next ≡ h.next
    pub room : r.1.room ≡ h.room

  pub mark-Marked :
      (ps rec : List Ptr) (h : Heap E)
      → ((p : Ptr) → mem p ps ≡ true → is_some (h.cell p) ≡ true)
      → distinct ps ≡ true
      → distinct rec ≡ true
      → ((q : Ptr) → mem q ps ≡ true → mem q rec ≡ false)
      → Returns (Marked h ps rec) (mark true is_old expire ps rec h)
  unfolding mark mem distinct store
  mark-Marked [] rec h live once done apart = returns (record {
    collected = λ q. ground arith;
    once = done;
    cells = λ q. refl;
    next = refl;
    room = refl;
  })
  mark-Marked (p ∷ ps) rec h live once done apart = elim (Option-cases (h.cell p)) [
    | inl gone ↦ absurd (ground (arith, live p))
    | inr (e, c) ↦ rw (load-ok h p c) (
        Returns-mono
          (mark-Marked ps (if is_old e then p ∷ rec else rec) (store p (expire e) h)
            (λ q m. ground (arith, live q)) (ground arith) (ground (arith, apart p))
            (λ q m. ground (arith, apart q)))
          λ r m. record {
            collected = λ q. ground (arith, m.collected q, apart p);
            once = m.once;
            cells = λ q. ground (arith, m.cells q);
            next = m.next;
            room = m.room;
          })
  ]

-- What a function that drops one entry promises.
pub record Drops {T E : Type 0} (ps : T → List Ptr) (cell : T → Ptr → Option E) (Inv : T → Type 0)
    (t : T) (p : Ptr) (t' : T) : Type 0 where
  pub inv : Inv t'
  pub left : ps t' ≡ remove p (ps t)
  pub cells : (q : Ptr) → cell t' q ≡ (if q == p then none else cell t q)

pub record Swept {T E : Type 0} (ps : T → List Ptr) (cell : T → Ptr → Option E) (Inv : T → Type 0)
    (t : T) (rec : List Ptr) (t' : T) : Type 0 where
  pub inv : Inv t'
  pub left : ps t' ≡ keep (λ x. not (mem x rec)) (ps t)
  pub cells : (q : Ptr) → cell t' q ≡ (if mem q rec then none else cell t q)

module _ {T E : Type 0} (drop_entry : Ptr → T → Run T) (ps : T → List Ptr)
    (cell : T → Ptr → Option E) (Inv : T → Type 0)
    (one : (p : Ptr) (t : T)
      → Inv t
      → mem p (ps t) ≡ true
      → Returns (Drops ps cell Inv t p) (drop_entry p t)) where
  pub sweep-Swept :
      (rec : List Ptr) (t : T)
      → Inv t
      → distinct rec ≡ true
      → ((q : Ptr) → mem q rec ≡ true → mem q (ps t) ≡ true)
      → Returns (Swept ps cell Inv t rec) (sweep drop_entry rec t)
  unfolding sweep mem distinct
  sweep-Swept [] t inv once sub =
      returns (record { inv = inv; left = sym (keep-all (ps t)); cells = λ q. refl })
  sweep-Swept (p ∷ rec) t inv once sub = Returns-bind (one p t inv (sub p (ground arith))) λ t1 d.
      Returns-mono
        (sweep-Swept rec t1 d.inv (ground arith)
          (λ q m. ground (arith, sub q, ap (mem q) d.left, mem-remove q p (ps t))))
        λ t2 s. record {
          inv = s.inv;
          left = s.left ∙ ap (keep (λ x. not (mem x rec))) d.left ∙ keep-remove p rec (ps t);
          cells = λ q. ground (arith, s.cells q, d.cells q);
        }
