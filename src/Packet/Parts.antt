-- ===== src/Packet/Parts.antt =====
-- A packet whose bytes behind the type are written in three parts.
use nrg_5_sorbonne.Base.{
  ℕ, ◌+◌, ◌-◌, ◌^◌, ◌≤◌, ◌<◌, ◌≡◌, refl, ap, ◌∙◌, List, [], ◌∷◌, ◌++◌, arith, length, length-append,
  append_assoc,
}
use nrg_5_sorbonne.Memory.{Returns, Returns-mono}
use nrg_5_sorbonne.Packet.{Packet, peek, poke, htons, finish_pkt}
use nrg_5_sorbonne.Packet.Header.{Fits, Fits-poke}
use nrg_5_sorbonne.Packet.Bytes.{peek-poke_self}
use nrg_5_sorbonne.Packet.Contents.{peek-extend}
use nrg_5_sorbonne.Packet.Fields.{Header, Header-payload}
use nrg_5_sorbonne.Packet.Made.{Made, Made-as, finish_pkt-Made}

-- Three writes behind the type.
peek-parts :
    (p : Packet) {m : ℕ} (xs ys zs : List ℕ) (at n : ℕ)
    → Fits p m
    → at ≡ 21 + length xs
    → length ys ≡ 2
    → n ≡ 1 + length xs + 2 + length zs
    → 20 + n ≤ m
    → peek (poke (at + 2) zs (poke at ys (poke 21 xs (poke 20 (0 ∷ []) p)))) 20 n
      ≡ 0 ∷ (xs ++ (ys ++ zs))
peek-parts p xs ys zs at n f is two size room =
    let p1 = poke 20 (0 ∷ []) p in
    let f1 = Fits-poke p f 20 (0 ∷ []) in
    let p2 = poke 21 xs p1 in
    let f2 = Fits-poke p1 f1 21 xs in
    let p3 = poke at ys p2 in
    let type = peek-poke_self p 20 (0 ∷ []) 1 (omega (arith, f.within)) refl in
    let with_xs =
      peek-extend p1 20 1 21 (1 + length xs) (0 ∷ []) xs f1 refl refl (omega arith) type in
    let with_ys =
      peek-extend p2 20 (1 + length xs) at (1 + length xs + 2) (0 ∷ xs) ys f2 (omega arith)
        (omega arith) (omega arith) with_xs in
    peek-extend p3 20 (1 + length xs + 2) (at + 2) n (0 ∷ (xs ++ ys)) zs (Fits-poke p2 f2 at ys)
      (omega arith) (omega arith) (omega arith) with_ys
    ∙ ap (◌∷◌ 0) (append_assoc xs ys zs)

-- The end of a packet with those parts.
pub finish-parts :
    (p : Packet) (m src dst proto v : ℕ) (xs ys zs : List ℕ) (at n : ℕ)
    → Header p m src dst (htons proto) v
    → v < 2 ^ 14
    → p.byte_len ≡ 0
    → at ≡ 21 + length xs
    → length ys ≡ 2
    → n ≡ at + 2 + length zs
    → n < 2 ^ 14
    → n ≤ m
    → Returns
        (λ q. Made q src dst proto (21 + length (xs ++ (ys ++ zs))) (0 ∷ (xs ++ (ys ++ zs))))
        (finish_pkt n (poke (at + 2) zs (poke at ys (poke 21 xs (poke 20 (0 ∷ []) p)))))
unfolding poke
finish-parts p m src dst proto v xs ys zs at n h no_version empty is two size small room =
    let h2 = Header-payload h 20 (0 ∷ []) (omega arith) in
    let h3 = Header-payload h2 21 xs (omega arith) in
    let h4 = Header-payload h3 at ys (omega arith) in
    let h5 = Header-payload h4 (at + 2) zs (omega arith) in
    let p5 = poke (at + 2) zs (poke at ys (poke 21 xs (poke 20 (0 ∷ []) p))) in
    let body = peek-parts p xs ys zs at (n - 20) h.fits is two (omega arith) (omega arith) in
    Returns-mono
      (finish_pkt-Made p5 m src dst proto v n h5 (omega arith) (omega arith) small room empty)
      λ q (made, at').
        Made-as made (omega (arith, length-append xs (ys ++ zs), length-append ys zs)) body
