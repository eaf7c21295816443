-- ===== src/Nso/Init/Start.antt =====
-- __nso_layer_init of bs/src/bs_lib/nso.c where it returns 0: the state that the station starts from.
use nrg_5_sorbonne.Base.{
  ℕ, ◌≡◌, refl, sym, subst, ap, ◌∙◌, inl, inr, Bool, true, false, Bool-cases, ◌||◌, not, Option,
  none, some, [], ◌∷◌, ◌==◌, if◌then◌else◌, ltb,
}
use nrg_5_sorbonne.Kernel.{Kernel}
use nrg_5_sorbonne.Memory.{Run, non_null, Ensures, returned, Ensures-bind, Ensures-then, Ensures-if}
use nrg_5_sorbonne.Memory.Laws.{IsHeap}
use nrg_5_sorbonne.NsoCommon.{DeviceId}
use nrg_5_sorbonne.Packet.{nso_proto_cp_vtsd, nso_proto_cp_vson}
use nrg_5_sorbonne.Arp.{ArpTable, arp_table_init}
use nrg_5_sorbonne.Arp.Invariant.{IsArpTable, arp_entries}
use nrg_5_sorbonne.Arp.Operations.{arp_table_init-IsArpTable}
use nrg_5_sorbonne.Fwd.{FwdTable, fwd_table_init}
use nrg_5_sorbonne.Fwd.Laws.{IsFwdTable, fwd_members, fwd_table_init-IsFwdTable}
use nrg_5_sorbonne.Nbr.{NbrTable, nbr_table_init}
use nrg_5_sorbonne.Nbr.Laws.{IsNbrTable, nbr_members, nbr_table_init-IsNbrTable}
use nrg_5_sorbonne.Bspc.{BspcTable, bspc_table_init}
use nrg_5_sorbonne.Bspc.Laws.{IsBspcTable, bspc_table_init-IsBspcTable}
use nrg_5_sorbonne.Nso.State.{NsoLayer, DeviceStatus, nrg5_unreg}
use nrg_5_sorbonne.Nso.Setup.{
  Config, Outside, Setup, acquire, failed, alloc_ifaces, err_free_arpt, err_free_son,
  err_free_local,
}
use nrg_5_sorbonne.Nso.Init.{
  init_open, init_tables, init_ids, init_ifaces, nso_layer_init, tsd_init, son_init, aaa_init,
  vnf_fd,
}
use nrg_5_sorbonne.Nso.Init.Vnfs.{
  OtherVnfs, OtherIfaces, connect_vnfs-same, alloc_ifaces-same, open_ifaces-same,
}

module _ ⦃K : Kernel⦄ where
  -- If the function returned 0, the state satisfies `P`.
  abbrev pub IfZero : (NsoLayer → Type 0) → Bool × Setup → Type 0
  IfZero P r = r.0 ≡ true → P r.1.nsol

  -- The part of the state that the interfaces and the modules' own initialisation leave alone.
  pub record Core : Type 0 where
    pub arpt : ArpTable
    pub son_fwdt : FwdTable
    pub local_fwdt : FwdTable
    pub nbrt : NbrTable
    pub bspc_tbl : BspcTable
    pub dev_state : DeviceStatus
    pub state_lock : Bool
    pub dev_id : DeviceId

  abbrev pub core : NsoLayer → Core
  core n = record {
    arpt = n.arpt;
    son_fwdt = n.son_fwdt;
    local_fwdt = n.local_fwdt;
    nbrt = n.nbrt;
    bspc_tbl = n.bspc_tbl;
    dev_state = n.dev_state;
    state_lock = n.state_lock;
    dev_id = n.dev_id;
  }

  -- Nothing is known of the network yet.
  pub record Started (id : DeviceId) (n : Core) : Type 0 where
    pub arp : IsArpTable n.arpt × (arp_entries n.arpt ≡ [])
    pub son : IsFwdTable n.son_fwdt × (fwd_members n.son_fwdt ≡ [])
    pub local : IsFwdTable n.local_fwdt × (fwd_members n.local_fwdt ≡ [])
    pub nbr : IsNbrTable n.nbrt × (nbr_members n.nbrt ≡ [])
    pub bspc : IsBspcTable n.bspc_tbl
    pub unreg : n.dev_state ≡ nrg5_unreg
    pub unlocked : n.state_lock ≡ false
    pub dev_id : n.dev_id ≡ id

  abbrev pub Starts : DeviceId → NsoLayer → Type 0
  Starts id n = Started id (core n)

  -- No block of the heaps of the four tables lies at an address that malloc has not given out.
  pub record Blocks (n : NsoLayer) : Type 0 where
    pub arp : IsHeap n.arpt.heap
    pub son : IsHeap n.son_fwdt.table.heap
    pub local : IsHeap n.local_fwdt.table.heap
    pub nbr : IsHeap n.nbrt.table.heap

  stops : (P : NsoLayer → Type 0) (r : Run Setup) → Ensures (IfZero P) (failed r)
  stops P r = Ensures-bind r _ λ s _. returned λ e. cc

  abbrev Goes : (NsoLayer → Type 0) → (NsoLayer → Type 0) → (Setup → Run (Bool × Setup)) → Type 0
  Goes P Q go_on = (s : Setup) → P s.nsol → Ensures (IfZero Q) (go_on s)

  tsd_init-core :
      (t : Option BspcTable) (n : NsoLayer) → Ensures (λ n'. core n' ≡ core n) (tsd_init t n)
  unfolding tsd_init
  tsd_init-core t n = Ensures-bind (vnf_fd nso_proto_cp_vtsd t) _ λ _ _. returned refl

  son_init-core :
      (t : Option BspcTable) (n : NsoLayer) → Ensures (λ n'. core n' ≡ core n) (son_init t n)
  unfolding son_init
  son_init-core t n = Ensures-bind (vnf_fd nso_proto_cp_vson t) _ λ _ _. returned refl

  init_open-Started :
      (o : Outside) (if_id : ℕ) (id : DeviceId) → Goes (Starts id) (Starts id) (init_open o if_id)
  unfolding init_open aaa_init
  init_open-Started o if_id id s w =
      Ensures-then (open_ifaces-same o if_id s.nsol.ifaces_nb 0 none s) λ r same.
        elim (Bool-cases r.0) [
          | inr off ↦ rw off (returned λ e. cc)
          | inl on ↦ rw on (
              Ensures-bind (non_null r.1) _ λ mtu _.
                let n : NsoLayer = aaa_init (record r.2.nsol { mtu = mtu; battery = 100 }) in
                let tbl = if o.gives 1 then some n.bspc_tbl else none in
                Ensures-then (tsd_init-core tbl n) λ n1 e1.
                  Ensures-then (son_init-core tbl n1) λ n2 e2.
                    returned λ _. subst (Started id) (sym (e2 ∙ e1 ∙ ap core (same on).1)) w)
        ]

  init_tables-Started :
      (o : Outside) (n : ℕ) (id : DeviceId) {go_on : Setup → Run (Bool × Setup)} (s : Setup)
      → Goes (Starts id) (Starts id) go_on
      → Blocks s.nsol
      → IsBspcTable s.nsol.bspc_tbl
      → s.nsol.dev_state ≡ nrg5_unreg
      → s.nsol.state_lock ≡ false
      → s.nsol.dev_id ≡ id
      → Ensures (IfZero (Starts id)) (init_tables o n go_on s)
  unfolding init_tables
  init_tables-Started o n id s g b t u l d =
      let n1 : NsoLayer = record s.nsol { arpt = arp_table_init s.nsol.arpt } in
      let s1 : Setup = acquire 4 (record s { nsol = n1 }) in
      let n2 : NsoLayer = record n1 { son_fwdt = fwd_table_init s.nsol.son_fwdt } in
      let s2 : Setup = acquire 5 (record s1 { nsol = n2 }) in
      let n3 : NsoLayer = record n2 { local_fwdt = fwd_table_init s.nsol.local_fwdt } in
      let s3 : Setup = acquire 6 (record s2 { nsol = n3 }) in
      let n4 : NsoLayer = record n3 { nbrt = nbr_table_init s.nsol.nbrt } in
      let a = arp_table_init-IsArpTable s.nsol.arpt b.arp in
      Ensures-if (not (o.gives 4)) (returned λ e. cc) (
        Ensures-if (not (o.gives 5)) (stops (Starts id) (err_free_arpt n s1)) (
          Ensures-if (not (o.gives 6)) (stops (Starts id) (err_free_son n s2)) (
            Ensures-if (not (o.gives 7)) (stops (Starts id) (err_free_local n s3)) (
              g (acquire 7 (record s3 { nsol = n4 })) (record {
                arp = (a.0, a.1);
                son = fwd_table_init-IsFwdTable s.nsol.son_fwdt b.son;
                local = fwd_table_init-IsFwdTable s.nsol.local_fwdt b.local;
                nbr = nbr_table_init-IsNbrTable s.nsol.nbrt b.nbr;
                bspc = t;
                unreg = u;
                unlocked = l;
                dev_id = d;
              })))))

  -- Before the interfaces.
  abbrev Ready : NsoLayer → Type 0
  Ready n = Blocks n × IsBspcTable n.bspc_tbl

  init_ids-Started :
      (o : Outside) (c : Config) (n : ℕ) {go_on : Setup → Run (Bool × Setup)}
      → Goes (Starts c.dev_id) (Starts c.dev_id) go_on
      → Goes Ready (Starts c.dev_id) (init_ids o c n go_on)
  unfolding init_ids
  init_ids-Started o c n g s (b, t) =
      let l1 : NsoLayer = record s.nsol { ifaces_nb = c.if_nb; dev_id = c.dev_id } in
      let s1 : Setup = acquire 2 (record s { nsol = l1 }) in
      let l2 : NsoLayer = record l1 {
        gw_id = o.junk_id;
        dev_state = nrg5_unreg;
        state_lock = false;
      } in
      Ensures-if (not (o.gives 2)) (returned λ e. cc) (
        Ensures-if (not (o.gives 3)) (returned λ e. cc) (
          init_tables-Started o n c.dev_id (acquire 3 (record s1 { nsol = l2 })) g
            (record { arp = b.arp; son = b.son; local = b.local; nbr = b.nbr }) t refl refl refl))

  Ready-ifaces : (a b : NsoLayer) → Ready a → OtherIfaces a b → Ready b
  Ready-ifaces a b (v, t) (l, e) =
      subst Ready (sym e) (record { arp = v.arp; son = v.son; local = v.local; nbr = v.nbr }, t)

  init_ifaces-Started :
      (o : Outside) (c : Config) {go_on : ℕ → Setup → Run (Bool × Setup)}
      → ((n : ℕ) → Goes (Starts c.dev_id) (Starts c.dev_id) (go_on n))
      → Goes Ready (Starts c.dev_id) (init_ifaces o c go_on)
  unfolding init_ifaces
  init_ifaces-Started o c g s w =
      let (all, n, t) = alloc_ifaces o c.ifaces 0 s in
      Ensures-if ((c.if_nb == 0) || ltb 10 c.if_nb) (returned λ e. cc) (
        Ensures-if all
          (init_ids-Started o c n (g n) t
            (Ready-ifaces s.nsol t.nsol w (alloc_ifaces-same o c.ifaces 0 s)))
          (returned λ e. cc))

  Ready-vnfs : (a b : NsoLayer) → Ready a → OtherVnfs a b → Ready b
  Ready-vnfs a b (v, _) (l, t, e) =
      subst Ready (sym e) (record { arp = v.arp; son = v.son; local = v.local; nbr = v.nbr }, t)

  Ready-if : (b : Bool) (s : Setup) → Ready s.nsol → Ready (if b then acquire 1 s else s).nsol
  Ready-if true s w = w
  Ready-if false s w = w

  -- Let the configuration file open, and let no block of the heaps of the tables lie at an address
  -- that malloc has not given out. If __nso_layer_init returns 0, nothing is known of the network,
  -- and the id is that of the file.
  pub nso_layer_init-Started :
      (o : Outside) (c : Config) (nsol : NsoLayer)
      → o.file ≡ some c
      → Blocks nsol
      → IsHeap nsol.bspc_tbl.heap
      → Ensures (IfZero (Starts c.dev_id)) (nso_layer_init o nsol)
  unfolding nso_layer_init
  nso_layer_init-Started o c nsol found b h =
      let n : NsoLayer = record nsol { bspc_tbl = bspc_table_init nsol.bspc_tbl } in
      let s : Setup = record { nsol = n; held = 0 ∷ []; opened = [] } in
      let t : Setup = if o.gives 1 then acquire 1 s else s in
      let blocks : Blocks n = record { arp = b.arp; son = b.son; local = b.local; nbr = b.nbr } in
      let before : Ready t.nsol =
        Ready-if (o.gives 1) s (blocks, (bspc_table_init-IsBspcTable nsol.bspc_tbl h).0) in
      rw found (
        Ensures-then (connect_vnfs-same o c.vnfs t before.1) λ r same. elim (Bool-cases r.0) [
          | inr off ↦ rw off (returned λ e. cc)
          | inl on ↦ rw on (
              init_ifaces-Started o c (λ k. init_open-Started o k c.dev_id) r.1
                (Ready-vnfs t.nsol r.1.nsol before (same on)))
        ])
