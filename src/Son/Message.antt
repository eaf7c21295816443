-- ===== src/Son/Message.antt =====
-- The rules of a route update as bytes, as vSON writes them, and how __route_update of nso_son.c reads
-- them.
use nrg_5_sorbonne.Base.{
  ℕ, suc, ◌+◌, ◌*◌, ◌^◌, ◌≤◌, ◌<◌, ◌≡◌, refl, ap, ◌∙◌, Option, none, some, List, [], ◌∷◌, ◌++◌,
  get_or, length, length-append, arith,
}
use nrg_5_sorbonne.Memory.{ok}
use nrg_5_sorbonne.NsoCommon.{to_bytes}
use nrg_5_sorbonne.NsoCommon.Bytes.{of_bytes-to_bytes, length-to_bytes}
use nrg_5_sorbonne.NsoIf.{NsoIf}
use nrg_5_sorbonne.Packet.{Packet, peek, slice, get_byte}
use nrg_5_sorbonne.Packet.Header.{Fits, get_bytes-ok, get_devid-ok}
use nrg_5_sorbonne.Packet.Contents.{peek-within, take-all}
use nrg_5_sorbonne.Son.{RtRule, get_rule}

-- [action 1B][dst id 8B][next hop id 8B][iface index 1B]
abbrev pub rule_bytes : RtRule → List ℕ
rule_bytes r = r.action ∷ (to_bytes 8 r.dst_id ++ (to_bytes 8 r.nh_id ++ r.if_index ∷ []))

abbrev pub rules_bytes : List (RtRule × NsoIf) → List ℕ
rules_bytes [] = []
rules_bytes ((rule, iface) ∷ rules) = rule_bytes rule ++ rules_bytes rules

-- The ids have 64 bits, and the interfaces are there.
abbrev pub Writable : List (Option NsoIf) → List (RtRule × NsoIf) → Type 0
Writable ifaces [] = Unit {0}
Writable ifaces ((rule, iface) ∷ rules) =
    (rule.dst_id < 2 ^ 64)
    × (rule.nh_id < 2 ^ 64)
    × (rule.if_index < 10)
    × (get_or ifaces rule.if_index none ≡ some iface)
    × Writable ifaces rules

-- The rules that the packet has from an offset on, and the interface of each among `ifaces`.
abbrev pub Rules : Packet → List (Option NsoIf) → ℕ → List (RtRule × NsoIf) → Type 0
Rules pkt ifaces at [] = Unit {0}
Rules pkt ifaces at ((rule, iface) ∷ rules) =
    (get_rule pkt at ≡ ok rule)
    × (rule.if_index < 10)
    × (get_or ifaces rule.if_index none ≡ some iface)
    × Rules pkt ifaces (at + 18) rules

length-rules_bytes :
    (rules : List (RtRule × NsoIf)) → length (rules_bytes rules) ≡ length rules * 18
length-rules_bytes [] = refl
length-rules_bytes ((r, iface) ∷ rules) = omega (
  arith,
  length-rules_bytes rules,
  length-append (rule_bytes r) (rules_bytes rules),
  length-append (to_bytes 8 r.dst_id) (to_bytes 8 r.nh_id ++ r.if_index ∷ []),
  length-append (to_bytes 8 r.nh_id) (r.if_index ∷ []),
  length-to_bytes 8 r.dst_id,
  length-to_bytes 8 r.nh_id,
)

module _ (pkt : Packet) (at n : ℕ) (r : RtRule) (more : List ℕ)
    (bytes : peek pkt at n ≡ rule_bytes r ++ more) (long : 18 ≤ n) where
  part : (off k : ℕ) → off + k ≤ 18 → peek pkt (at + off) k ≡ slice off k (rule_bytes r ++ more)
  part off k h = peek-within pkt at off k n (omega arith) ∙ ap (slice off k) bytes

  get_rule-ok : Fits pkt (at + n) → r.dst_id < 2 ^ 64 → r.nh_id < 2 ^ 64 → get_rule pkt at ≡ ok r
  unfolding get_rule get_byte to_bytes
  get_rule-ok f b1 b2 =
      let action : peek pkt at 1 ≡ r.action ∷ [] =
        ap (λ o. peek pkt o 1) {x = at} {y = at + 0} (omega arith) ∙ part 0 1 (omega arith) in
      let dst : peek pkt (at + 1) 8 ≡ to_bytes 8 r.dst_id = part 1 8 (omega arith) in
      let nh : peek pkt (at + 9) 8 ≡ to_bytes 8 r.nh_id = part 9 8 (omega arith) in
      let index : peek pkt (at + 17) 1 ≡ r.if_index ∷ [] = part 17 1 (omega arith) in
      rw
        (
          get_bytes-ok pkt f at 1 (omega arith),
          action,
          get_devid-ok pkt f (at + 1) (omega arith),
          dst,
          of_bytes-to_bytes 8 r.dst_id b1,
          get_devid-ok pkt f (at + 9) (omega arith),
          nh,
          of_bytes-to_bytes 8 r.nh_id b2,
          get_bytes-ok pkt f (at + 17) 1 (omega arith),
          index,
        )
        refl

  rest-bytes : (k : ℕ) → n ≡ 18 + k → length more ≡ k → peek pkt (at + 18) k ≡ more
  unfolding to_bytes
  rest-bytes k size len =
      peek-within pkt at 18 k n (omega arith)
      ∙ ap (slice 18 k) bytes
      ∙ take-all k more (omega arith)

-- What is written is read.
pub Rules-bytes :
    (pkt : Packet) (ifaces : List (Option NsoIf)) (at : ℕ) (rules : List (RtRule × NsoIf))
    → peek pkt at (length rules * 18) ≡ rules_bytes rules
    → Fits pkt (at + length rules * 18)
    → Writable ifaces rules
    → Rules pkt ifaces at rules
Rules-bytes pkt ifaces at [] bytes f w = tt
Rules-bytes pkt ifaces at ((r, iface) ∷ rules) bytes f (b1, b2, small, slot, more) =
    let n = suc (length rules) * 18 in
    let left = length rules * 18 in
    (
      get_rule-ok pkt at n r (rules_bytes rules) bytes (omega arith) f b1 b2,
      small,
      slot,
      Rules-bytes pkt ifaces (at + 18) rules
          (rest-bytes pkt at n r (rules_bytes rules) bytes (omega arith) left (omega arith)
            (length-rules_bytes rules))
          (record { within = omega (arith, f.within) }) more,
    )
