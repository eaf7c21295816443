-- ===== src/Nso/Init.antt =====
-- __nso_layer_init of bs/src/bs_lib/nso.c: from a configuration file to the state of an unregistered
-- base station, with tsd_init of nso_tsd.c, son_init of nso_son.c and aaa_init of nso_aaa.c.
pub mod Cleanup
pub mod Loops
pub mod Failure
pub mod Vnfs
pub mod Start
use nrg_5_sorbonne.Base.{
  ℕ, Bool, true, false, ◌||◌, not, Option, none, some, [], ◌∷◌, ◌==◌, if◌then◌else◌, ltb, get_or,
}
use nrg_5_sorbonne.Kernel.{Kernel}
use nrg_5_sorbonne.Memory.{Run, ok, ◌>>=◌, non_null, load}
use nrg_5_sorbonne.Packet.{nso_proto_cp_vtsd, nso_proto_cp_vson}
use nrg_5_sorbonne.Arp.{arp_table_init}
use nrg_5_sorbonne.Fwd.{fwd_table_init}
use nrg_5_sorbonne.Nbr.{nbr_table_init}
use nrg_5_sorbonne.Bspc.{BspcTable, bspc_table_init, bspc_table_lookup}
use nrg_5_sorbonne.Queue.{pq_init}
use nrg_5_sorbonne.Nso.State.{NsoLayer, nrg5_unreg, nso_max_supported_ifaces}
use nrg_5_sorbonne.Nso.Setup.{
  Config, Outside, Setup, acquire, give_back, failed, err_ret, err_free_ifaces, err_free_devid,
  err_free_arpt, err_free_son, err_free_local, connect_vnfs, alloc_ifaces, open_ifaces, file_block,
  bspc_block, dev_id_block, gw_id_block, arpt_block, son_block, local_block, nbrt_block,
}

module _ ⦃K : Kernel⦄ where
  -- The socket of a network function, of which the result of the lookup is not tested.
  unfoldable pub vnf_fd : ℕ → Option BspcTable → Run ℕ
  vnf_fd proto bspc_tbl = do
    tbl ← non_null bspc_tbl
    pos ← bspc_table_lookup tbl proto
    p ← non_null pos
    e ← load tbl.heap p
    ok e.sockfd

  -- tsd_init and son_init, whose argument is NULL if the table was not allocated.
  unfoldable pub tsd_init : Option BspcTable → NsoLayer → Run NsoLayer
  unfolding vnf_fd
  tsd_init bspc_tbl nsol =
      vnf_fd nso_proto_cp_vtsd bspc_tbl >>= λ fd. ok (record nsol { vtsd_fd = fd })

  unfoldable pub son_init : Option BspcTable → NsoLayer → Run NsoLayer
  unfolding vnf_fd
  son_init bspc_tbl nsol =
      vnf_fd nso_proto_cp_vson bspc_tbl >>= λ fd. ok (record nsol { vson_fd = fd })

  -- aaa_init once the AAA module has answered: it tries to connect until then.
  unfoldable pub aaa_init : NsoLayer → NsoLayer
  aaa_init nsol = record nsol { aaa_cred_size = 0 }

  -- From the interfaces' opening on.
  unfoldable pub init_open : Outside → ℕ → Setup → Run (Bool × Setup)
  unfolding open_ifaces aaa_init tsd_init son_init pq_init
  init_open o if_id s = do
    (opened, mtu, s) ← open_ifaces o if_id s.nsol.ifaces_nb 0 none s
    elim opened [
      | false ↦ ok (false, s)
      | true ↦ (do
        mtu ← non_null mtu
        let nsol : NsoLayer = aaa_init (record s.nsol { mtu = mtu; battery = 100 })
        let tbl : Option BspcTable = if o.gives bspc_block then some nsol.bspc_tbl else none
        nsol ← tsd_init tbl nsol
        nsol ← son_init tbl nsol
        let nsol : NsoLayer = record nsol { data_pq = pq_init nsol.data_pq; data_lock = false }
        ok (true, give_back file_block (record s { nsol = nsol })))
    ]

  -- The four tables, then `go_on`. At err_destroy_lock only the mutex and the condition are destroyed, which
  -- changes nothing else.
  unfoldable pub init_tables :
      Outside → ℕ → (Setup → Run (Bool × Setup)) → Setup → Run (Bool × Setup)
  unfolding arp_table_init fwd_table_init nbr_table_init
  init_tables o if_id go_on s =
      if not (o.gives arpt_block)
      then failed (ok (err_free_devid if_id s))
      else (let n : NsoLayer = record s.nsol { arpt = arp_table_init s.nsol.arpt } in
          let s : Setup = acquire arpt_block (record s { nsol = n }) in
          if not (o.gives son_block)
          then failed (err_free_arpt if_id s)
          else (let n : NsoLayer = record n { son_fwdt = fwd_table_init n.son_fwdt } in
              let s : Setup = acquire son_block (record s { nsol = n }) in
              if not (o.gives local_block)
              then failed (err_free_son if_id s)
              else (let n : NsoLayer = record n { local_fwdt = fwd_table_init n.local_fwdt } in
                  let s : Setup = acquire local_block (record s { nsol = n }) in
                  if not (o.gives nbrt_block)
                  then failed (err_free_local if_id s)
                  else (let n : NsoLayer = record n { nbrt = nbr_table_init n.nbrt } in
                      go_on (acquire nbrt_block (record s { nsol = n }))))))

  -- The two ids, and the state. alloc_device_id (NULL) leaves what the block holds.
  unfoldable pub init_ids :
      Outside → Config → ℕ → (Setup → Run (Bool × Setup)) → Setup → Run (Bool × Setup)
  unfolding init_tables
  init_ids o c if_id go_on s =
      let n : NsoLayer = record s.nsol { ifaces_nb = c.if_nb; dev_id = c.dev_id } in
      let s : Setup = record s { nsol = n } in
      if not (o.gives dev_id_block)
      then failed (ok (err_free_ifaces if_id s))
      else (let s : Setup = acquire dev_id_block s in
          if not (o.gives gw_id_block)
          then failed (ok (err_free_devid if_id s))
          else (let n : NsoLayer = record n {
            gw_id = o.junk_id;
            dev_state = nrg5_unreg;
            state_lock = false;
          } in
              init_tables o if_id go_on (acquire gw_id_block (record s { nsol = n }))))

  -- From the test of `if_nb` on; `go_on` knows how many interfaces there are.
  unfoldable pub init_ifaces :
      Outside → Config → (ℕ → Setup → Run (Bool × Setup)) → Setup → Run (Bool × Setup)
  unfolding alloc_ifaces init_ids
  init_ifaces o c go_on s =
      if (c.if_nb == 0) || ltb nso_max_supported_ifaces c.if_nb
      then failed (ok (err_ret s))
      else (let (all, if_id, s) = alloc_ifaces o c.ifaces 0 s in
          if all then init_ids o c if_id (go_on if_id) s else failed (ok (err_free_ifaces if_id s)))

  -- The Boolean is whether the function returned 0. The tables of the state are what malloc returns
  -- for them, with whatever the blocks hold.
  unfoldable pub nso_layer_init : Outside → NsoLayer → Run (Bool × Setup)
  unfolding connect_vnfs init_ifaces init_open bspc_table_init
  nso_layer_init o nsol = elim o.file [
    | none ↦ ok (false, record { nsol = nsol; held = []; opened = [] })
    | some c ↦ (do
      let n : NsoLayer = record nsol { bspc_tbl = bspc_table_init nsol.bspc_tbl }
      let s : Setup = record { nsol = n; held = file_block ∷ []; opened = [] }
      (connected, s) ←
          connect_vnfs o c.vnfs (if o.gives bspc_block then acquire bspc_block s else s)
      if connected then init_ifaces o c (init_open o) s else ok (false, s))
  ]
