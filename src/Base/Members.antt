-- ===== src/Base/Members.antt =====
-- Laws of membership, removal and filtering for lists of addresses.
use nrg_5_sorbonne.Base.Tests.{◌==◌, if◌then◌else◌}
use nrg_5_sorbonne.Base.Lists.{mem, remove, distinct, keep, length}
use Prim.Native.Nat.{ℕ, suc}
use mathlib.Core.Path.{◌≡◌, refl}
use mathlib.Core.Bool.{Bool, true, false, ◌&&◌, ◌||◌, not}
use mathlib.Core.List.{List, [], ◌∷◌, ◌++◌}
use native.Mathlib.Omega.{arith}

pub mem-keep : (q : ℕ) (f : ℕ → Bool) (xs : List ℕ) → mem q (keep f xs) ≡ (f q && mem q xs)
unfolding mem
mem-keep q f [] = ground arith
mem-keep q f (x ∷ xs) = ground (arith, mem-keep q f xs)

pub mem-remove :
    (q p : ℕ) (xs : List ℕ) → mem q (remove p xs) ≡ (if p == q then false else mem q xs)
mem-remove q p xs = rw mem-keep (ground arith)

pub mem-append : (q : ℕ) (xs ys : List ℕ) → mem q (xs ++ ys) ≡ (mem q xs || mem q ys)
unfolding mem
mem-append q [] ys = refl
mem-append q (x ∷ xs) ys = ground (arith, mem-append q xs ys)

pub remove-fresh : (p : ℕ) (xs : List ℕ) → mem p xs ≡ false → remove p xs ≡ xs
unfolding mem
remove-fresh p [] h = refl
remove-fresh p (x ∷ xs) h = ground (arith, remove-fresh p xs)

pub length-remove :
    (p : ℕ) (xs : List ℕ)
    → distinct xs ≡ true
    → mem p xs ≡ true
    → suc (length (remove p xs)) ≡ length xs
unfolding mem distinct
length-remove p [] d h = cc
length-remove p (x ∷ xs) d h = ground (arith, length-remove p xs, remove-fresh p xs)

pub distinct-keep : (f : ℕ → Bool) (xs : List ℕ) → distinct xs ≡ true → distinct (keep f xs) ≡ true
unfolding distinct
distinct-keep f [] d = refl
distinct-keep f (x ∷ xs) d = ground (arith, distinct-keep f xs, mem-keep x f xs)

pub distinct-snoc :
    (p : ℕ) (xs : List ℕ) → distinct xs ≡ true → mem p xs ≡ false → distinct (xs ++ p ∷ []) ≡ true
unfolding mem distinct
distinct-snoc p [] d h = refl
distinct-snoc p (x ∷ xs) d h = ground (arith, distinct-snoc p xs, mem-append x xs (p ∷ []))

pub keep-congr :
    (f g : ℕ → Bool) (xs : List ℕ) → ((x : ℕ) → mem x xs ≡ true → f x ≡ g x) → keep f xs ≡ keep g xs
unfolding mem
keep-congr f g [] same = refl
keep-congr f g (x ∷ xs) same =
    ground (arith, same x, keep-congr f g xs λ q m. same q (ground arith))

pub keep-remove :
    (p : ℕ) (rec xs : List ℕ)
    → keep (λ x. not (mem x rec)) (remove p xs) ≡ keep (λ x. not (mem x (p ∷ rec))) xs
unfolding mem
keep-remove p rec [] = refl
keep-remove p rec (x ∷ xs) = ground (arith, keep-remove p rec xs)

pub keep-all : (xs : List ℕ) → keep (λ x. not (mem x [])) xs ≡ xs
unfolding mem
keep-all [] = refl
keep-all (x ∷ xs) = rw (keep-all xs)

pub remove-head : (p : ℕ) (xs : List ℕ) → distinct (p ∷ xs) ≡ true → remove p (p ∷ xs) ≡ xs
unfolding distinct
remove-head p xs d = ground (arith, remove-fresh p xs)

pub distinct-tail : (p : ℕ) (xs : List ℕ) → distinct (p ∷ xs) ≡ true → distinct xs ≡ true
unfolding distinct
distinct-tail p xs d = ground arith

pub mem-head : (p : ℕ) (xs : List ℕ) → mem p (p ∷ xs) ≡ true
unfolding mem
mem-head p xs = ground arith

pub keep-none :
    (f : ℕ → Bool) (xs : List ℕ) → ((x : ℕ) → mem x xs ≡ true → f x ≡ false) → keep f xs ≡ []
unfolding mem
keep-none f [] none_holds = refl
keep-none f (x ∷ xs) none_holds =
    ground (arith, none_holds x, keep-none f xs λ q m. none_holds q (ground arith))
