-- ===== src/Packet/Bytes.antt =====
-- Reading what was written into a list of bytes, and what was not.
use nrg_5_sorbonne.Base.{
  ℕ, zero, suc, ◌+◌, ◌≤◌, ◌≡◌, refl, ap, ◌⊎◌, inl, inr, List, [], ◌∷◌, arith, length, take, drop,
}
use nrg_5_sorbonne.Packet.{Packet, slice, splice, peek, poke}

pub length-splice : (off : ℕ) (bs xs : List ℕ) → length (splice off bs xs) ≡ length xs
unfolding splice
length-splice zero [] xs = refl
length-splice zero (b ∷ bs) [] = refl
length-splice zero (b ∷ bs) (x ∷ xs) = ap suc (length-splice zero bs xs)
length-splice (suc off) bs [] = refl
length-splice (suc off) bs (x ∷ xs) = ap suc (length-splice off bs xs)

slice-splice_self :
    (off : ℕ) (bs xs : List ℕ)
    → off + length bs ≤ length xs
    → slice off (length bs) (splice off bs xs) ≡ bs
unfolding splice
slice-splice_self zero [] xs h = refl
slice-splice_self zero (b ∷ bs) [] h = absurd (omega arith)
slice-splice_self zero (b ∷ bs) (x ∷ xs) h = ap (◌∷◌ b) (slice-splice_self zero bs xs (omega arith))
slice-splice_self (suc off) bs [] h = absurd (omega arith)
slice-splice_self (suc off) bs (x ∷ xs) h = slice-splice_self off bs xs (omega arith)

take-splice : (n off : ℕ) (bs xs : List ℕ) → n ≤ off → take n (splice off bs xs) ≡ take n xs
unfolding splice
take-splice zero off bs xs h = refl
take-splice (suc n) zero bs xs h = absurd (omega arith)
take-splice (suc n) (suc off) bs [] h = refl
take-splice (suc n) (suc off) bs (x ∷ xs) h = ap (◌∷◌ x) (take-splice n off bs xs (omega arith))

slice-splice_before :
    (o n off : ℕ) (bs xs : List ℕ) → o + n ≤ off → slice o n (splice off bs xs) ≡ slice o n xs
unfolding splice
slice-splice_before zero n off bs xs h = take-splice n off bs xs (omega arith)
slice-splice_before (suc o) n zero bs xs h = absurd (omega arith)
slice-splice_before (suc o) n (suc off) bs [] h = refl
slice-splice_before (suc o) n (suc off) bs (x ∷ xs) h =
    slice-splice_before o n off bs xs (omega arith)

drop-splice :
    (o off : ℕ) (bs xs : List ℕ) → off + length bs ≤ o → drop o (splice off bs xs) ≡ drop o xs
unfolding splice
drop-splice o zero [] xs h = refl
drop-splice zero zero (b ∷ bs) xs h = absurd (omega arith)
drop-splice (suc o) zero (b ∷ bs) [] h = refl
drop-splice (suc o) zero (b ∷ bs) (x ∷ xs) h = drop-splice o zero bs xs (omega arith)
drop-splice zero (suc off) bs xs h = absurd (omega arith)
drop-splice (suc o) (suc off) bs [] h = refl
drop-splice (suc o) (suc off) bs (x ∷ xs) h = drop-splice o off bs xs (omega arith)

module _ (p : Packet) where
  pub peek-poke_self :
      (off : ℕ) (bs : List ℕ) (n : ℕ)
      → p.data_at + off + length bs ≤ length p.buf
      → n ≡ length bs
      → peek (poke off bs p) off n ≡ bs
  unfolding peek poke
  peek-poke_self off bs n h e = rw e (slice-splice_self (p.data_at + off) bs p.buf h)

  pub peek-poke_apart :
      (off : ℕ) (bs : List ℕ) (o n : ℕ)
      → (o + n ≤ off) ⊎ (off + length bs ≤ o)
      → peek (poke off bs p) o n ≡ peek p o n
  unfolding peek poke
  peek-poke_apart off bs o n (inl h) =
      slice-splice_before (p.data_at + o) n (p.data_at + off) bs p.buf (omega arith)
  peek-poke_apart off bs o n (inr h) =
      ap (take n) (drop-splice (p.data_at + o) (p.data_at + off) bs p.buf (omega arith))

  pub length-poke : (off : ℕ) (bs : List ℕ) → length (poke off bs p).buf ≡ length p.buf
  unfolding poke
  length-poke off bs = length-splice (p.data_at + off) bs p.buf
