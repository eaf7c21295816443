-- ===== src/Nso/Init/Vnfs.antt =====
-- The loops of __nso_layer_init of bs/src/bs_lib/nso.c: what they leave as it was.
use nrg_5_sorbonne.Base.{
  ℕ, zero, suc, ◌%◌, ◌^◌, ◌≡◌, refl, true, Bool-cases, Option-cases, inl, inr, ◌||◌, not, Option,
  none, some, List, [], ◌∷◌, ◌==◌, ◌+◌, leb, get_or, arith,
}
use nrg_5_sorbonne.Kernel.{Kernel}
use nrg_5_sorbonne.Memory.{
  Run, ◌>>=◌, non_null, Ensures, returned, crashes, Ensures-bind, Ensures-then, Returns-Ensures,
}
use nrg_5_sorbonne.Memory.Laws.{
  malloc-some, malloc-none, grown, grown-IsHeap, grown-old, grown-new, next-fresh,
}
use nrg_5_sorbonne.NsoIf.{NsoIf}
use nrg_5_sorbonne.Wifi.{wifi_get_info}
use nrg_5_sorbonne.Table.Indexed.Laws.{members, IsIndexed-keep}
use nrg_5_sorbonne.Bspc.{
  BspcEntry, BspcTable, bspc_key, alloc_bspc_entry, bspc_table_add, bspc_table_free,
}
use nrg_5_sorbonne.Bspc.Laws.{IsBspcTable, bspc_table_add-Inserted}
use nrg_5_sorbonne.Nso.State.{NsoLayer}
use nrg_5_sorbonne.Nso.Setup.{
  Vnf, Iface, Outside, Setup, acquire, connect_vnfs, alloc_ifaces, open_ifaces, set_slot,
  err_close_if, larger,
}

module _ ⦃K : Kernel⦄ where
  -- What comes after a new entry has been added to a well-formed table.
  add_vnf-then :
      {B : Type 0} {Q : B → Type 0} (v : Vnf) (fd : ℕ) (t : BspcTable) (k : BspcTable → Run B)
      → IsBspcTable t
      → ((t' : BspcTable) → IsBspcTable t' → Ensures Q (k t'))
      → let (q, h) = alloc_bspc_entry v.proto fd t.heap in
        Ensures Q (non_null q >>= λ p. bspc_table_add (record t { heap = h }) p >>= k)
  unfolding alloc_bspc_entry
  add_vnf-then v fd t k w next =
      let e : BspcEntry = record { proto = v.proto % 2 ^ 16; sockfd = fd } in
      let h = t.heap in
      elim (Bool-cases (h.room == 0)) [
        | inl full ↦ rw (malloc-none h e (ground arith)) crashes
        | inr room ↦
            let kept =
              IsIndexed-keep bspc_key t (grown e h) w (grown-IsHeap e h w.allocated)
                (λ q g here d. (g, grown-old e h q w.allocated d, refl)) in
            let fresh = next-fresh h (members t) w.allocated w.listed.live in
            rw (malloc-some h e (ground arith)) (
              Ensures-then
                (Returns-Ensures (
                  bspc_table_add-Inserted (record t { heap = grown e h }) h.next e kept
                    (grown-new e h) fresh))
                λ t' i. next t' i.valid)
      ]

  -- Another table of network functions, which is well formed.
  abbrev pub OtherVnfs : NsoLayer → NsoLayer → Type 0
  OtherVnfs a b = (t : BspcTable) × IsBspcTable t × (b ≡ record a { bspc_tbl = t })

  abbrev pub OtherIfaces : NsoLayer → NsoLayer → Type 0
  OtherIfaces a b = (l : List (Option NsoIf)) × (b ≡ record a { ifaces = l })

  pub connect_vnfs-same :
      (o : Outside) (vs : List Vnf) (s : Setup)
      → IsBspcTable s.nsol.bspc_tbl
      → Ensures (λ r. r.0 ≡ true → OtherVnfs s.nsol r.1.nsol) (connect_vnfs o vs s)
  unfolding connect_vnfs
  connect_vnfs-same o [] s w = returned λ _. (s.nsol.bspc_tbl, w, refl)
  connect_vnfs-same o (v ∷ vs) s w = elim (Bool-cases (o.gives 1)) [
    | inr missing ↦ rw missing crashes
    | inl given ↦ elim (Option-cases (o.connect v.ip v.port)) [
      | inl refused ↦
          rw (given, refused)
            (Ensures-bind (bspc_table_free s.nsol.bspc_tbl) _ λ _ _. returned λ e. cc)
      | inr (fd, open_) ↦
          rw (given, open_)
            (add_vnf-then v fd s.nsol.bspc_tbl _ w λ t wt.
              let s' : Setup = record s { nsol = record s.nsol { bspc_tbl = t } } in
              connect_vnfs-same o vs s' wt)
    ]
  ]

  pub alloc_ifaces-same :
      (o : Outside) (fs : List Iface) (if_id : ℕ) (s : Setup)
      → OtherIfaces s.nsol (alloc_ifaces o fs if_id s).2.nsol
  unfolding alloc_ifaces
  alloc_ifaces-same o [] if_id s = (s.nsol.ifaces, refl)
  alloc_ifaces-same o (f ∷ fs) if_id s =
      elim (Bool-cases (leb 1 f.type || not (o.gives (8 + if_id)))) [
        | inl bad ↦ rw (bad, alloc_ifaces) (s.nsol.ifaces, refl)
        | inr good ↦
            let iface : NsoIf = record {
              handle = o.junk_handle;
              if_name = f.name;
              if_index = if_id;
              if_type = f.type;
            } in
            let t : Setup = record s {
              nsol = record s.nsol { ifaces = set_slot if_id (some iface) s.nsol.ifaces };
            } in
            rw (good, alloc_ifaces) (alloc_ifaces-same o fs (suc if_id) (acquire (8 + if_id) t))
      ]

  pub open_ifaces-same :
      (o : Outside) (if_id n i : ℕ) (mtu : Option ℕ) (s : Setup)
      → Ensures (λ r. r.0 ≡ true → OtherIfaces s.nsol r.2.nsol) (open_ifaces o if_id n i mtu s)
  unfolding open_ifaces
  open_ifaces-same o if_id zero i mtu s = returned λ _. (s.nsol.ifaces, refl)
  open_ifaces-same o if_id (suc n) i mtu s = elim (Option-cases (get_or s.nsol.ifaces i none)) [
    | inl empty ↦ rw empty crashes
    | inr (iface, at) ↦ rw at (elim (Option-cases (o.opens iface.if_name)) [
      | inl refused ↦ rw refused (Ensures-bind (err_close_if i if_id s) _ λ _ _. returned λ e. cc)
      | inr (handle, given) ↦
          let new : NsoIf = record iface { handle = handle } in
          let t : Setup = record s {
            nsol = record s.nsol { ifaces = set_slot i (some new) s.nsol.ifaces };
            opened = handle.sockfd ∷ s.opened;
          } in
          rw given (open_ifaces-same o if_id n (suc i) (some (larger mtu (wifi_get_info handle))) t)
    ])
  ]
