-- ===== src/Layer/FromInit.antt =====
-- A base station of bs/src/bs_lib from __nso_layer_init on.
use nrg_5_sorbonne.Base.{ℕ, ◌≡◌, ◌≢◌, refl, sym, ◌∙◌, ap, true, some, [], mem}
use nrg_5_sorbonne.Kernel.{Kernel}
use nrg_5_sorbonne.Memory.{ok, Ensures-ok}
use nrg_5_sorbonne.Memory.Laws.{IsHeap}
use nrg_5_sorbonne.Fwd.{FwdTable}
use nrg_5_sorbonne.Fwd.Laws.{fwd_members}
use nrg_5_sorbonne.Son.Entries.{IsUnique}
use nrg_5_sorbonne.Nso.State.{NsoLayer, nrg5_reg}
use nrg_5_sorbonne.Nso.Setup.{Config, Outside, Setup}
use nrg_5_sorbonne.Nso.Init.{nso_layer_init}
use nrg_5_sorbonne.Nso.Init.Start.{Blocks, Starts, nso_layer_init-Started}
use nrg_5_sorbonne.Layer.{Reach}
use nrg_5_sorbonne.Layer.Safety.{IsLayer}
use nrg_5_sorbonne.Layer.Runs.{Reach-Safe, Reach-reg}

module _ ⦃K : Kernel⦄ where
  empty-IsUnique : (t : FwdTable) → fwd_members t ≡ [] → IsUnique t
  unfolding mem
  empty-IsUnique t e p q x y a b d = cc (ap (mem p) e, a.listed)

  Starts-IsLayer : (n : NsoLayer) {id : ℕ} → Starts id n → IsLayer n
  Starts-IsLayer n w = record {
    arp = w.arp.0;
    son = record { table = w.son.0; unique = empty-IsUnique n.son_fwdt w.son.1 };
    local = w.local.0;
    nbr = w.nbr.0;
    bspc = w.bspc;
  }

  -- Let the configuration file open, and let no block of the heaps of the five tables lie at an
  -- address that malloc has not given out. If __nso_layer_init returns 0, the base station is
  -- unregistered, with its state unlocked, the id of the file, a well-formed table of network
  -- functions and the other four tables well formed and empty; and every sequence of steps from
  -- there leads to a station with well-formed tables, with no two vSON routes for a destination,
  -- with the id of the file and the same MTU, that is not in NRG5_REG.
  pub init-Reach :
      (o : Outside) (c : Config) (nsol : NsoLayer)
      → o.file ≡ some c
      → Blocks nsol
      → IsHeap nsol.bspc_tbl.heap
      → (s : Setup) → nso_layer_init o nsol ≡ ok (true, s)
      → {b : NsoLayer} → Reach s.nsol b
      → Starts c.dev_id s.nsol
        × IsLayer b
        × (b.dev_id ≡ c.dev_id)
        × (b.mtu ≡ s.nsol.mtu)
        × (b.dev_state ≢ nrg5_reg)
  init-Reach o c nsol found blocks h s ran r =
      let w : Starts c.dev_id s.nsol =
        Ensures-ok (nso_layer_init o nsol) (nso_layer_init-Started o c nsol found blocks h)
          (true, s) ran refl in
      let layer = Starts-IsLayer s.nsol w in
      let safe = Reach-Safe layer r in
      (w, safe.layer, safe.dev_id ∙ w.dev_id, safe.mtu, Reach-reg layer r λ e. cc (sym w.unreg ∙ e))
