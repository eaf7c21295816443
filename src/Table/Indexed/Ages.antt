-- ===== src/Table/Indexed/Ages.antt =====
-- Aging and destroying a table of this kind.
use nrg_5_sorbonne.Base.{
  ℕ, ◌-◌, ◌%◌, ◌<◌, ◌^◌, ◌≡◌, refl, ap, ◌∙◌, Bool, true, false, not, none, some, List, [], arith,
  mem, distinct, keep, length, if◌then◌else◌, some_of,
}
use nrg_5_sorbonne.Base.Members.{mem-remove, keep-congr, distinct-keep}
use nrg_5_sorbonne.Kernel.{Ptr, Kernel}
use nrg_5_sorbonne.Memory.{Heap, update, Returns, returns, Returns-bind, Returns-mono}
use nrg_5_sorbonne.Memory.Laws.{free-ok}
use nrg_5_sorbonne.Table.Linked.{Listed}
use nrg_5_sorbonne.Table.Aging.{holds, changed, Marked, mark-Marked, Drops, sweep-Swept}
use nrg_5_sorbonne.Table.Destroy.{first, Dropped, Drained, drain-Drained}
use nrg_5_sorbonne.Table.Indexed.{Indexed, unlink, release, age_out, age, destroy_first, destroy}
use nrg_5_sorbonne.Table.Indexed.Laws.{members, cells, IsIndexed, unlink-IsIndexed, IsIndexed-keep}

module _ ⦃K : Kernel⦄ {E : Type 0} (key : E → ℕ) where
  -- An entry that is out of the table can be given back.
  pub release-IsIndexed :
      (p : Ptr) (t : Indexed E) (e : E)
      → IsIndexed key t
      → mem p (members t) ≡ false
      → t.heap.cell p ≡ some e
      → Returns
          (λ t'.
            IsIndexed key t'
            × (t'.ll_head ≡ t.ll_head)
            × (t'.heap.cell ≡ update t.heap.cell p none))
          (release p t)
  unfolding release
  release-IsIndexed p t e w out c = rw (free-ok t.heap p c) (
      returns (
        IsIndexed-keep key t _ w (λ q b. ground (arith, w.allocated q))
            (λ q f m d. (f, ground arith, refl)),
        refl,
        refl,
      ))

  pub age_out-Drops :
      (p : Ptr) (t : Indexed E)
      → IsIndexed key t
      → mem p (members t) ≡ true
      → Returns (Drops members cells (IsIndexed key) t p) (age_out p t)
  unfolding age_out unlink
  age_out-Drops p t w here =
      let (e, c) = some_of (t.heap.cell p) (w.listed.live p here) in
      let (v, left, _) = unlink-IsIndexed key t p w here in
      let out : mem p (members (unlink t p)) ≡ false =
        rw left (ground (arith, mem-remove p p (members t))) in
      Returns-mono (release-IsIndexed p (unlink t p) e v out c) λ t' (v', same, cs). record {
        inv = v';
        left = ap K.entries same ∙ left;
        cells = λ q. ap (λ f. f q) cs;
      }

  module _ (is_old : E → Bool) (expire : E → E) where
    -- What one round of aging does to a table.
    pub record Aged (t t' : Indexed E) : Type 0 where
      pub valid : IsIndexed key t'
      pub left : members t' ≡ keep (λ p. not (holds is_old (cells t p))) (members t)
      pub cells_after :
          (q : Ptr)
          → cells t' q ≡ (
              if mem q (members t)
              then (if holds is_old (cells t q) then none else changed expire (cells t q))
              else cells t q)

    module _ (same_key : (e : E) → key e ≡ key (expire e)) where
      Marked-IsIndexed :
          (t : Indexed E) (r : List Ptr × Heap E)
          → IsIndexed key t
          → Marked is_old expire t.heap (members t) [] r
          → IsIndexed key (record t { heap = r.1 })
      Marked-IsIndexed t r w m =
          IsIndexed-keep key t r.1 w (λ q b. ground (arith, m.cells q, m.next, w.allocated q))
            λ q e here c. (expire e, ground (arith, m.cells q), same_key e)

      pub age-Aged : (t : Indexed E) → IsIndexed key t → Returns (Aged t) (age true is_old expire t)
      unfolding age mem distinct
      age-Aged t w =
          Returns-bind
            (mark-Marked is_old expire (members t) [] t.heap w.listed.live w.listed.once refl
              (λ q m. refl))
            λ r m.
              Returns-mono
                (sweep-Swept age_out members cells (IsIndexed key) age_out-Drops r.0
                  (record t { heap = r.1 }) (Marked-IsIndexed t r w m) m.once
                  (λ q c. ground (arith, m.collected q)))
                λ t2 s. record {
                  valid = s.inv;
                  left =
                      s.left ∙ keep-congr _ _ (members t) (λ q here. ground (arith, m.collected q));
                  cells_after = λ q. ground (arith, s.cells q, m.cells q, m.collected q);
                }

  destroy_first-Dropped :
      (p : Ptr) (t : Indexed E)
      → Listed t.heap.cell (members t) (length (members t) % 2 ^ 32)
      → mem p (members t) ≡ true
      → distinct (members t) ≡ true
      → Returns
          (λ t'.
            Listed t'.heap.cell (members t') (length (members t') % 2 ^ 32)
            × Dropped members cells t p t')
          (destroy_first p t)
  unfolding destroy_first
  destroy_first-Dropped p t w here once =
      let (e, c) = some_of (t.heap.cell p) (w.live p here) in
      let left = K.entries-del p t.ll_head here in
      rw (free-ok t.heap p c) (
        returns (
          rw left (record {
            live = λ q m. ground (arith, mem-remove q p (members t), w.live q);
            once = distinct-keep _ (members t) once;
            count = refl;
          }),
          record { left = left; cells = λ q. refl },
        ))

  -- Destroying frees every entry of the table and nothing else. The int `size` ends at -1.
  pub destroy-Drained :
      (t : Indexed E)
      → IsIndexed key t
      → length (members t) < 2 ^ 32
      → Returns (λ t'. Drained members cells t t' × (t'.size ≡ 2 ^ 32 - 1)) (destroy t)
  unfolding destroy
  destroy-Drained t w small =
      Returns-bind
        (drain-Drained (λ t. first (members t)) destroy_first members cells
          (λ t. Listed t.heap.cell (members t) (length (members t) % 2 ^ 32)) (λ t. refl)
          destroy_first-Dropped t.size t
          (record { live = w.listed.live; once = w.listed.once; count = refl }) w.listed.once
          (members t) refl (omega (arith, w.listed.count)))
        λ t' d. returns (record { left = d.left; cells = d.cells }, refl)
