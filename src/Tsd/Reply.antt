-- ===== src/Tsd/Reply.antt =====
-- __process_bs_reg_reply of bs/src/bs_lib/nso_tsd.c: the answer to a registration.
use nrg_5_sorbonne.Base.{ℕ, ◌≡◌, false, ◌&&◌, arith, ◌==◌, if◌then◌else◌}
use nrg_5_sorbonne.Kernel.{Kernel}
use nrg_5_sorbonne.Memory.{ok}
use nrg_5_sorbonne.NsoCommon.{DeviceId}
use nrg_5_sorbonne.Packet.{Packet, get_devid, get_byte}
use nrg_5_sorbonne.Nso.State.{NsoLayer, nrg5_connected}
use nrg_5_sorbonne.Tsd.{process_bs_reg_reply, is_unreg, nrg5_reg_success}

module _ ⦃K : Kernel⦄ where
  -- What a reply from `src` to `dst` with answer `ans` does to the state.
  unfoldable pub after_reply : DeviceId → DeviceId → ℕ → NsoLayer → NsoLayer
  after_reply src dst ans nsol =
      if (dst == nsol.dev_id) && (is_unreg nsol.dev_state && (ans == nrg5_reg_success))
      then record nsol { gw_id = src; dev_state = nrg5_connected }
      else nsol

  -- For a packet with source `src`, destination `dst` and answer `ans`, and a free state lock:
  -- the reply connects the base station, with `src` as its gateway, if `dst` is its id, it is
  -- unregistered and the answer is success. Otherwise nothing changes.
  pub process_bs_reg_reply_lem :
      (nsol : NsoLayer) (pkt : Packet) (src dst ans : ℕ)
      → nsol.state_lock ≡ false
      → get_devid pkt 0 ≡ ok src
      → get_devid pkt 8 ≡ ok dst
      → get_byte pkt 21 ≡ ok ans
      → process_bs_reg_reply nsol pkt ≡ ok (after_reply src dst ans nsol)
  unfolding process_bs_reg_reply after_reply
  process_bs_reg_reply_lem nsol pkt src dst ans free s d a = ground arith
