-- ===== src/Nso/Init/Failure.antt =====
-- __nso_layer_init of bs/src/bs_lib/nso.c, from its start to a return: what is open and allocated.
use nrg_5_sorbonne.Base.{
  ℕ, refl, ap, inl, inr, Bool, true, false, ◌||◌, not, Option-cases, none, some, [], ◌∷◌, ◌==◌,
  if◌then◌else◌, ltb, arith, mem,
}
use nrg_5_sorbonne.Base.Members.{mem-remove}
use nrg_5_sorbonne.Kernel.{Kernel}
use nrg_5_sorbonne.Memory.{Run, non_null, Ensures, returned, Ensures-bind, Ensures-then, Ensures-if}
use nrg_5_sorbonne.Arp.{arp_table_init}
use nrg_5_sorbonne.Fwd.{fwd_table_init}
use nrg_5_sorbonne.Nbr.{nbr_table_init}
use nrg_5_sorbonne.Bspc.{bspc_table_init}
use nrg_5_sorbonne.Nso.State.{NsoLayer, nrg5_unreg}
use nrg_5_sorbonne.Nso.Setup.{Config, Outside, Setup, acquire, failed, alloc_ifaces}
use nrg_5_sorbonne.Nso.Init.{
  init_open, init_tables, init_ids, init_ifaces, nso_layer_init, tsd_init, son_init, aaa_init,
}
use nrg_5_sorbonne.Nso.Init.Cleanup.{
  is_leaked, late, below, Held, Held-weaken, err_ret-Held, err_free_ifaces-Held,
  err_free_devid-Held, err_free_arpt-Held, err_free_son-Held, err_free_local-Held,
}
use nrg_5_sorbonne.Nso.Init.Loops.{
  After, went_on, stopped, After-cases, next, FileClosed, connect_vnfs-After, alloc_ifaces-Held,
  open_ifaces-After,
}

module _ ⦃K : Kernel⦄ where
  init_open-After :
      (o : Outside) (if_id : ℕ) (s : Setup)
      → Held (below 8 if_id) s
      → Ensures (After FileClosed) (init_open o if_id s)
  unfolding init_open mem
  init_open-After o if_id s h =
      Ensures-then
        (open_ifaces-After o if_id s.nsol.ifaces_nb 0 none s
          (λ fd m. absurd (ground (arith, ap (mem fd) h.none_open))) h.allowed)
        λ r a. elim (After-cases r.0 r.2 a) [
          | inl (on, _) ↦ rw on (
              Ensures-bind (non_null r.1) _ λ mtu _.
                let n : NsoLayer = aaa_init (record r.2.nsol { mtu = mtu; battery = 100 }) in
                let tbl = if o.gives 1 then some n.bspc_tbl else none in
                Ensures-bind (tsd_init tbl n) _ λ n1 _.
                  Ensures-bind (son_init tbl n1) _
                    λ n2 _. returned (went_on (ground (arith, mem-remove 0 0 r.2.held))))
          | inr (off, c) ↦ rw off (returned (stopped c))
        ]

  fails :
      {P : Setup → Type 0} {r : Run Setup}
      → Ensures (Held is_leaked) r
      → Ensures (After P) (failed r)
  fails h = Ensures-then h λ s c. returned (stopped c)

  -- What follows the tables leaves the file closed, or gives back what is held.
  abbrev GoesOn : ℕ → (Setup → Run (Bool × Setup)) → Type 0
  GoesOn n go_on = (s : Setup) → Held (below 8 n) s → Ensures (After FileClosed) (go_on s)

  init_tables-After :
      (o : Outside) (n : ℕ) {go_on : Setup → Run (Bool × Setup)} (s : Setup)
      → GoesOn n go_on
      → Held (below 4 n) s
      → Ensures (After FileClosed) (init_tables o n go_on s)
  unfolding init_tables
  init_tables-After o n s g h0 =
      let l = s.nsol in
      let l1 : NsoLayer = record l { arpt = arp_table_init l.arpt } in
      let s1 : Setup = acquire 4 (record s { nsol = l1 }) in
      let h1 : Held (below 5 n) s1 = next n 4 l1 s h0 (ground arith) in
      let l2 : NsoLayer = record l1 { son_fwdt = fwd_table_init l.son_fwdt } in
      let s2 : Setup = acquire 5 (record s1 { nsol = l2 }) in
      let h2 : Held (below 6 n) s2 = next n 5 l2 s1 h1 (ground arith) in
      let l3 : NsoLayer = record l2 { local_fwdt = fwd_table_init l.local_fwdt } in
      let s3 : Setup = acquire 6 (record s2 { nsol = l3 }) in
      let h3 : Held (below 7 n) s3 = next n 6 l3 s2 h2 (ground arith) in
      let l4 : NsoLayer = record l3 { nbrt = nbr_table_init l.nbrt } in
      let h4 = next n 7 l4 s3 h3 (ground arith) in
      Ensures-if (not (o.gives 4)) (fails (returned (err_free_devid-Held n s h0))) (
        Ensures-if (not (o.gives 5)) (fails (err_free_arpt-Held n s1 h1)) (
          Ensures-if (not (o.gives 6)) (fails (err_free_son-Held n s2 h2)) (
            Ensures-if (not (o.gives 7)) (fails (err_free_local-Held n s3 h3))
              (g (acquire 7 (record s3 { nsol = l4 })) h4))))

  init_ids-After :
      (o : Outside) (c : Config) (n : ℕ) {go_on : Setup → Run (Bool × Setup)} (s : Setup)
      → GoesOn n go_on
      → Held (below 2 n) s
      → Ensures (After FileClosed) (init_ids o c n go_on s)
  unfolding init_ids
  init_ids-After o c n s g h0 =
      let l1 : NsoLayer = record s.nsol { ifaces_nb = c.if_nb; dev_id = c.dev_id } in
      let t : Setup = record s { nsol = l1 } in
      let h1 : Held (below 2 n) t = record { none_open = h0.none_open; allowed = h0.allowed } in
      let h2 : Held (below 3 n) (acquire 2 t) = next n 2 l1 s h0 (ground arith) in
      let l2 : NsoLayer = record l1 {
        gw_id = o.junk_id;
        dev_state = nrg5_unreg;
        state_lock = false;
      } in
      Ensures-if (not (o.gives 2))
        (fails (
          returned
            (err_free_ifaces-Held n t (Held-weaken (below 2 n) (late n) t h1 λ b f. ground arith))))
        (Ensures-if (not (o.gives 3))
          (fails (
            returned (
              err_free_devid-Held n (acquire 2 t)
                (Held-weaken (below 3 n) (below 4 n) (acquire 2 t) h2 λ b f. ground arith))))
          (init_tables-After o n (acquire 3 (record (acquire 2 t) { nsol = l2 })) g
            (next n 3 l2 (acquire 2 t) h2 (ground arith))))

  pub init_ifaces-After :
      (o : Outside) (c : Config) {go_on : ℕ → Setup → Run (Bool × Setup)} (s : Setup)
      → ((n : ℕ) → GoesOn n (go_on n))
      → Held (below 2 0) s
      → Ensures (After FileClosed) (init_ifaces o c go_on s)
  unfolding init_ifaces
  init_ifaces-After o c s g h =
      let (all, n, t) = alloc_ifaces o c.ifaces 0 s in
      let v = alloc_ifaces-Held o c.ifaces 0 s h in
      Ensures-if ((c.if_nb == 0) || ltb 10 c.if_nb)
        (fails
          (returned (err_ret-Held s (Held-weaken (below 2 0) (late 0) s h λ b f. ground arith))))
        (Ensures-if all (init_ids-After o c n t (g n) v) (
          fails (
            returned (
              err_free_ifaces-Held n t
                (Held-weaken (below 2 n) (late n) t v λ b f. ground arith)))))

  start-Held :
      (b : Bool) (n : NsoLayer)
      → Held (below 2 0) (
          if b
          then record { nsol = n; held = 1 ∷ 0 ∷ []; opened = [] }
          else record { nsol = n; held = 0 ∷ []; opened = [] })
  unfolding mem
  start-Held true n = record { none_open = refl; allowed = λ b m. ground arith }
  start-Held false n = record { none_open = refl; allowed = λ b m. ground arith }

  -- Whatever the configuration, and whichever allocation, connection or interface fails: if
  -- __nso_layer_init returns 0, the file is closed. If it returns -1, no interface is open, and
  -- of what it has allocated at most the table of network functions and the block of gw_id are
  -- still held.
  pub nso_layer_init-After :
      (o : Outside) (nsol : NsoLayer) → Ensures (After FileClosed) (nso_layer_init o nsol)
  unfolding nso_layer_init mem
  nso_layer_init-After o nsol = elim (Option-cases o.file) [
    | inl missing ↦
        rw missing (returned (stopped (record { none_open = refl; allowed = λ b m. cc })))
    | inr (c, found) ↦
        let n : NsoLayer = record nsol { bspc_tbl = bspc_table_init nsol.bspc_tbl } in
        let s : Setup = record { nsol = n; held = 0 ∷ []; opened = [] } in
        let t = if o.gives 1 then acquire 1 s else s in
        let h : Held (below 2 0) t = start-Held (o.gives 1) n in
        rw found (
          Ensures-then (connect_vnfs-After o c.vnfs t h) λ r a. elim (After-cases r.0 r.1 a) [
            | inl (on, g) ↦ rw on (init_ifaces-After o c r.1 (init_open-After o) g)
            | inr (off, g) ↦ rw off (returned (stopped g))
          ])
  ]
