-- ===== src/Nso/Threads.antt =====
-- The sending thread of bs/src/bs_lib/nso.c. Each of its two loops is a function of one round, from
-- its test to its wait.
use nrg_5_sorbonne.Base.{Bool, true, false, if◌then◌else◌}
use nrg_5_sorbonne.Kernel.{Kernel}
use nrg_5_sorbonne.Memory.{Run, ok, ◌>>=◌}
use nrg_5_sorbonne.Nso.State.{Env, NsoLayer, is_connected, check_state}
use nrg_5_sorbonne.Tsd.{is_unreg, tsd_bs_reg}
use nrg_5_sorbonne.Son.{son_topo_report, son_nbr_advertise}

module _ ⦃K : Kernel⦄ where
  -- The Boolean is whether the loop goes on.
  unfoldable pub tx_register : Env → NsoLayer → Run (Bool × NsoLayer)
  unfolding tsd_bs_reg
  tx_register env nsol = do
    unreg ← check_state is_unreg nsol
    if unreg then (tsd_bs_reg env nsol >>= λ n. ok (true, n)) else ok (false, nsol)

  unfoldable pub tx_report : Env → NsoLayer → Run (Bool × NsoLayer)
  unfolding son_topo_report son_nbr_advertise
  tx_report env nsol = do
    connected ← check_state is_connected nsol
    if connected
        then (do
          nsol ← son_topo_report env nsol
          nsol ← son_nbr_advertise env nsol
          ok (true, nsol))
        else ok (false, nsol)
