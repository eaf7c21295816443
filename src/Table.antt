-- ===== src/Table.antt =====
-- What the tables of arp.c, neighbor.c, fwding.c and bspc.c share: an entry is on the C heap, in
-- a linear list, and in the bucket of a hash table; a table counts its entries in an int, kept
-- here as a 32-bit pattern. The loops over a bucket, over the list when it ages, over the entries
-- that aging collected, and over the list when the table is destroyed.
pub mod Linked
pub mod Lookup
pub mod Aging
pub mod Destroy
pub mod Indexed
use nrg_5_sorbonne.Base.{
  ℕ, zero, suc, ◌+◌, ◌-◌, ◌%◌, ◌^◌, Bool, true, false, not, ◌&&◌, Option, none, some, List, [], ◌∷◌,
  if◌then◌else◌,
}
use nrg_5_sorbonne.Kernel.{Ptr}
use nrg_5_sorbonne.Memory.{Run, ok, crash, ◌>>=◌, non_null, Heap, load, store}

-- ARP_ACTIVE and ARP_EXPIRED, and so for the neighbour and the forwarding table.
pub data EntryStatus : Type 0 where
  active expired : EntryStatus

abbrev pub is_expired : EntryStatus → Bool
is_expired active = false
is_expired expired = true

-- `size++` and `size--` on an int.
abbrev pub incr : ℕ → ℕ
incr n = (n + 1) % 2 ^ 32

abbrev pub decr : ℕ → ℕ
decr n = (n + 2 ^ 32 - 1) % 2 ^ 32

module _ {E : Type 0} where
  -- `hash_for_each_possible (…) if (test) break;`: the cursor ends at the entry, or is NULL.
  unfoldable pub scan : (E → Bool) → Heap E → List Ptr → Run (Option Ptr)
  unfolding load
  scan test h [] = ok none
  scan test h (p ∷ ps) =
      let rest = scan test h ps in load h p >>= λ e. if test e then ok (some p) else rest

  -- The first loop of aging: expired entries are put in `rec`, and every entry expires. `rec` is
  -- in the order in which `while (used--)` takes it up, last one first; `given` is whether malloc has
  -- given the array, which is not tested before it is written.
  unfoldable pub mark :
      Bool → (E → Bool) → (E → E) → List Ptr → List Ptr → Heap E → Run (List Ptr × Heap E)
  unfolding load store
  mark given is_old expire [] rec h = ok (rec, h)
  mark given is_old expire (p ∷ ps) rec h = load h p >>= λ e.
      let rest =
        mark given is_old expire ps (if is_old e then p ∷ rec else rec) (store p (expire e) h) in
      if not given && is_old e then crash else rest

module _ {T : Type 0} (drop_entry : Ptr → T → Run T) where
  -- `while (used--)`: what is done with each entry of `rec`.
  unfoldable pub sweep : List Ptr → T → Run T
  sweep [] t = ok t
  sweep (p ∷ rec) t = drop_entry p t >>= sweep rec

module _ {T : Type 0} (first_entry : T → Option Ptr) (drop_first : Ptr → T → Run T) where
  -- `while (tbl->size--)` of a destroy function: what is done with the first entry each time.
  -- `list_entry (head.next)` of an empty list is no entry.
  unfoldable pub drain : ℕ → T → Run T
  drain zero t = ok t
  drain (suc n) t = non_null (first_entry t) >>= λ p. drop_first p t >>= drain n
