-- ===== src/Device/Init.antt =====
-- __nso_layer_init of nso/src/nso_lib/nso.c, that of the base station without network functions.
-- tsd_init of a device only sets the interface of the first beacon, and son_init does nothing.
use nrg_5_sorbonne.Base.{
  ℕ, refl, ap, Option-cases, inl, inr, Bool, true, false, none, some, [], ◌∷◌, arith, mem,
}
use nrg_5_sorbonne.Base.Members.{mem-remove}
use nrg_5_sorbonne.Kernel.{Kernel}
use nrg_5_sorbonne.Memory.{Run, ok, ◌>>=◌, non_null, Ensures, returned, Ensures-bind, Ensures-then}
use nrg_5_sorbonne.Queue.{pq_init}
use nrg_5_sorbonne.Nso.State.{NsoLayer}
use nrg_5_sorbonne.Nso.Setup.{Outside, Setup, give_back, open_ifaces, file_block}
use nrg_5_sorbonne.Nso.Init.{aaa_init, init_ifaces}
use nrg_5_sorbonne.Nso.Init.Cleanup.{below, Held}
use nrg_5_sorbonne.Nso.Init.Loops.{
  After, went_on, stopped, After-cases, FileClosed, open_ifaces-After,
}
use nrg_5_sorbonne.Nso.Init.Failure.{init_ifaces-After}

module _ ⦃K : Kernel⦄ where
  -- From the interfaces' opening on.
  unfoldable pub init_open : Outside → ℕ → Setup → Run (Bool × Setup)
  unfolding open_ifaces aaa_init pq_init
  init_open o if_id s = do
    (opened, mtu, s) ← open_ifaces o if_id s.nsol.ifaces_nb 0 none s
    elim opened [
      | false ↦ ok (false, s)
      | true ↦ (do
        mtu ← non_null mtu
        let nsol : NsoLayer = aaa_init (record s.nsol { mtu = mtu; battery = 100 })
        let nsol : NsoLayer = record nsol { data_pq = pq_init nsol.data_pq; data_lock = false }
        ok (true, give_back file_block (record s { nsol = nsol })))
    ]

  unfoldable pub nso_layer_init : Outside → NsoLayer → Run (Bool × Setup)
  unfolding init_ifaces init_open
  nso_layer_init o nsol = elim o.file [
    | none ↦ ok (false, record { nsol = nsol; held = []; opened = [] })
    | some c ↦
        init_ifaces o c (init_open o) (record { nsol = nsol; held = file_block ∷ []; opened = [] })
  ]

  init_open-After :
      (o : Outside) (if_id : ℕ) (s : Setup)
      → Held (below 8 if_id) s
      → Ensures (After FileClosed) (init_open o if_id s)
  unfolding init_open mem
  init_open-After o if_id s h =
      Ensures-then
        (open_ifaces-After o if_id s.nsol.ifaces_nb 0 none s
          (λ fd m. absurd (ground (arith, ap (mem fd) h.none_open))) h.allowed)
        λ r a. elim (After-cases r.0 r.2 a) [
          | inl (on, _) ↦ rw on (
              Ensures-bind (non_null r.1) _
                λ mtu _. returned (went_on (ground (arith, mem-remove 0 0 r.2.held))))
          | inr (off, c) ↦ rw off (returned (stopped c))
        ]

  -- Whatever the configuration, and whichever allocation or interface fails: if __nso_layer_init
  -- of a device returns 0, the file is closed. If it returns -1, no interface is open, and
  -- nothing but the table of network functions, which a device has not, and the block of gw_id is
  -- still held.
  pub device_init-After :
      (o : Outside) (nsol : NsoLayer) → Ensures (After FileClosed) (nso_layer_init o nsol)
  unfolding nso_layer_init mem
  device_init-After o nsol = elim (Option-cases o.file) [
    | inl missing ↦
        rw missing (returned (stopped (record { none_open = refl; allowed = λ b m. cc })))
    | inr (c, found) ↦ rw found (
        init_ifaces-After o c (record { nsol = nsol; held = 0 ∷ []; opened = [] })
          (init_open-After o) (record { none_open = refl; allowed = λ b m. ground arith }))
  ]
