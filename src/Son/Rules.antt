-- ===== src/Son/Rules.antt =====
-- The loop over the rules in __route_update of bs/src/bs_lib/nso_son.c, and the size of a packet.
use nrg_5_sorbonne.Base.{
  Option, ℕ, zero, suc, ◌+◌, ◌-◌, ◌%◌, ◌≤◌, ◌≡◌, ◌≢◌, refl, inl, inr, true, false, arith, ltb,
  Bool-cases, ne→==, ==_refl,
}
use nrg_5_sorbonne.Kernel.{Kernel}
use nrg_5_sorbonne.Memory.{Run, ok, crash, blocked, ◌>>=◌}
use nrg_5_sorbonne.NsoCommon.{device_id_equal}
use nrg_5_sorbonne.Packet.{Packet, get_devid}
use nrg_5_sorbonne.Nso.State.{Env, NsoLayer, check_state, lock_state}
use nrg_5_sorbonne.NsoIf.{NsoIf}
use nrg_5_sorbonne.Fwd.{FwdTable}
use nrg_5_sorbonne.Son.{
  RtRule, apply_rule, update_rule, update_rules, read_rules, route_update, takes_routes,
}

-- No result: the code stops, or waits for ever.
pub data Fails {A : Type 0} : Run A → Type 0 where
  crashes : Fails crash
  waits : Fails blocked

pub Fails-bind :
    {A B : Type 0} (r : Run A) (k : A → Run B) → ((a : A) → Fails (k a)) → Fails (r >>= k)
Fails-bind (ok a) k next = next a
Fails-bind crash k next = crashes
Fails-bind blocked k next = waits

long_enough : (n : ℕ) → (n - 21) % 18 ≢ 0 → ltb n 21 ≡ false
long_enough n h = ground arith

module _ ⦃K : Kernel⦄ where
  pub takes_routes-free :
      (nsol : NsoLayer)
      → nsol.state_lock ≡ false
      → takes_routes nsol.dev_state ≡ true
      → check_state takes_routes nsol ≡ ok true
  unfolding check_state lock_state
  takes_routes-free nsol free ready = rw (free, ready) refl

  -- The loop over the rules never returns unless the bytes are a whole number of rules.
  pub update_rules-Fails :
      (apply_one : RtRule → Option NsoIf → FwdTable → Run FwdTable) (fuel size : ℕ) (pkt : Packet)
      (at : ℕ) (nsol : NsoLayer)
      → size ≤ fuel
      → size % 18 ≢ 0
      → Fails (update_rules apply_one fuel size pkt at nsol)
  unfolding update_rules
  update_rules-Fails apply_one zero size pkt at nsol b h = absurd (omega arith)
  update_rules-Fails apply_one (suc fuel) size pkt at nsol b h =
      rw (ne→== size 0 (omega arith), update_rules)
        (Fails-bind (update_rule apply_one pkt at nsol) _ λ n. elim (Bool-cases (ltb size 18)) [
          | inl short ↦ rw short crashes
          | inr long ↦ rw long (
              update_rules-Fails apply_one fuel (size - 18) pkt (at + 18) n (ground arith)
                (ground arith))
        ])

  -- A packet for this base station, which takes routes and whose state lock is free, whose
  -- `byte_len` less 21 (at 0 where negative) is not a multiple of 18, makes __route_update stop
  -- or wait for ever.
  pub route_update-Fails :
      (env : Env) (nsol : NsoLayer) (pkt : Packet)
      → nsol.state_lock ≡ false
      → takes_routes nsol.dev_state ≡ true
      → get_devid pkt 8 ≡ ok nsol.dev_id
      → (pkt.byte_len - 21) % 18 ≢ 0
      → Fails (route_update env nsol pkt)
  unfolding route_update read_rules device_id_equal
  route_update-Fails env nsol pkt free ready mine bad =
      rw
        (mine, ==_refl nsol.dev_id, takes_routes-free nsol free ready, long_enough pkt.byte_len bad)
        (update_rules-Fails apply_rule (pkt.byte_len - 20 - 1) (pkt.byte_len - 20 - 1) pkt 21 nsol
          (omega arith) (omega arith))
