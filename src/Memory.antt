-- ===== src/Memory.antt =====
-- The outcome of C code, and a C heap of entries of one type, by address.
pub mod Laws
use nrg_5_sorbonne.Base.{
  ℕ, ◌+◌, ◌-◌, ◌≡◌, refl, subst, Bool, true, false, Option, none, some, ◌==◌, if◌then◌else◌,
}
use nrg_5_sorbonne.Kernel.{Ptr}

-- `crash`: an assertion, a call of exit, or an access that C leaves undefined. `blocked`: a wait
-- for a mutex that the same thread holds.
pub data Run (A : Type 0) : Type 0 where
  ok : A → Run A
  crash : Run A
  blocked : Run A

infixl 5 ◌>>=◌
abbrev pub ◌>>=◌ : {A B : Type 0} → Run A → (A → Run B) → Run B
ok a >>= f = f a
crash >>= f = crash
blocked >>= f = blocked

-- A default mutex: locking it again from the thread that holds it waits for ever.
abbrev pub mutex_lock : Bool → Run Bool
mutex_lock false = ok true
mutex_lock true = blocked

-- A pointer that is read, and must not be NULL.
abbrev pub non_null : {A : Type 0} → Option A → Run A
non_null none = crash
non_null (some a) = ok a

-- `next` is the address that malloc gives out next, `room` how often it still succeeds.
pub record Heap (E : Type 0) : Type 0 where
  pub cell : Ptr → Option E
  pub next : Ptr
  pub room : ℕ

module _ {E : Type 0} where
  abbrev pub update : (Ptr → Option E) → Ptr → Option E → Ptr → Option E
  update f p c q = if q == p then c else f q

  -- malloc, with the value that the caller stores in the new block.
  unfoldable pub malloc : E → Heap E → Option Ptr × Heap E
  malloc e h = if h.room == 0 then (none, h) else (
    some h.next,
    record { cell = update h.cell h.next (some e); next = h.next + 1; room = h.room - 1 },
  )

  unfoldable pub load : Heap E → Ptr → Run E
  load h p = non_null (h.cell p)

  unfoldable pub store : Ptr → E → Heap E → Heap E
  store p e h = record h { cell = update h.cell p (some e) }

  -- `free` of a block that is not allocated is undefined.
  unfoldable pub free : Ptr → Heap E → Run (Heap E)
  unfolding load
  free p h = load h p >>= λ _. ok (record h { cell = update h.cell p none; room = h.room + 1 })

-- The code returns (no crash, no wait for ever), and what it returns has a property.
pub data Returns {A : Type 0} (P : A → Type 0) : Run A → Type 0 where
  returns : {a : A} → P a → Returns P (ok a)

module _ {A : Type 0} {P : A → Type 0} where
  pub Returns-bind :
      {B : Type 0} {Q : B → Type 0} {r : Run A} {k : A → Run B}
      → Returns P r
      → ((a : A) → P a → Returns Q (k a))
      → Returns Q (r >>= k)
  Returns-bind (returns p) next = next _ p

  pub Returns-mono :
      {Q : A → Type 0} {r : Run A} → Returns P r → ((a : A) → P a → Q a) → Returns Q r
  Returns-mono (returns p) weaken = returns (weaken _ p)

  -- A property of what an `ok` returns.
  pub Returns-ok : {a : A} → Returns P (ok a) → P a
  Returns-ok (returns p) = p

  -- What comes after a step that returns may crash.
  pub Returns-crash :
      {B : Type 0} {r : Run A} {k : A → Run B}
      → Returns P r
      → ((a : A) → P a → k a ≡ crash)
      → (r >>= k) ≡ crash
  Returns-crash (returns p) next = next _ p

-- Every result that is returned has the property.
pub data Ensures {A : Type 0} (P : A → Type 0) : Run A → Type 0 where
  returned : {a : A} → P a → Ensures P (ok a)
  crashes : Ensures P crash
  waits : Ensures P blocked

module _ {A : Type 0} {P : A → Type 0} where
  pub Ensures-ok : (r : Run A) → Ensures P r → (a : A) → r ≡ ok a → P a
  Ensures-ok (ok b) (returned p) a e = subst P (cc e) p
  Ensures-ok crash h a e = cc
  Ensures-ok blocked h a e = cc

  pub Ensures-run : (r : Run A) → ((a : A) → r ≡ ok a → P a) → Ensures P r
  Ensures-run (ok a) h = returned (h a refl)
  Ensures-run crash h = crashes
  Ensures-run blocked h = waits

  pub Ensures-mono :
      {Q : A → Type 0} {r : Run A} → Ensures P r → ((a : A) → P a → Q a) → Ensures Q r
  Ensures-mono (returned p) weaken = returned (weaken _ p)
  Ensures-mono crashes weaken = crashes
  Ensures-mono waits weaken = waits

  pub Ensures-bind :
      {B : Type 0} (r : Run B) (k : B → Run A)
      → ((b : B) → r ≡ ok b → Ensures P (k b))
      → Ensures P (r >>= k)
  Ensures-bind (ok b) k next = next b refl
  Ensures-bind crash k next = crashes
  Ensures-bind blocked k next = waits

  pub Ensures-then :
      {B : Type 0} {Q : B → Type 0} {r : Run A} {k : A → Run B}
      → Ensures P r
      → ((a : A) → P a → Ensures Q (k a))
      → Ensures Q (r >>= k)
  Ensures-then (returned p) next = next _ p
  Ensures-then crashes next = crashes
  Ensures-then waits next = waits

  pub Ensures-if :
      (c : Bool) {r s : Run A} → Ensures P r → Ensures P s → Ensures P (if c then r else s)
  Ensures-if true h g = h
  Ensures-if false h g = g

  pub Returns-Ensures : {r : Run A} → Returns P r → Ensures P r
  Returns-Ensures (returns p) = returned p
