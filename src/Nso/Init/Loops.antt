-- ===== src/Nso/Init/Loops.antt =====
-- The loops of __nso_layer_init of bs/src/bs_lib/nso.c: what is open and allocated after each.
use nrg_5_sorbonne.Base.{
  ℕ, zero, suc, ◌+◌, ◌≡◌, ◌≢◌, ◌⊎◌, refl, ap, ◌∙◌, inl, inr, Bool, true, false, ◌||◌, not,
  Bool-cases, Option-cases, Option, none, some, List, [], ◌∷◌, ◌==◌, if◌then◌else◌, leb, arith, mem,
  get_or,
}
use nrg_5_sorbonne.Kernel.{Kernel}
use nrg_5_sorbonne.Memory.{non_null, Ensures, returned, crashes, Ensures-bind, Ensures-then}
use nrg_5_sorbonne.NsoIf.{NsoIf}
use nrg_5_sorbonne.Wifi.{wifi_get_info}
use nrg_5_sorbonne.Bspc.{alloc_bspc_entry, bspc_table_add, bspc_table_free}
use nrg_5_sorbonne.Nso.State.{NsoLayer}
use nrg_5_sorbonne.Nso.Setup.{
  Vnf, Iface, Outside, Setup, acquire, give_back, connect_vnfs, alloc_ifaces, open_ifaces, set_slot,
  larger,
}
use nrg_5_sorbonne.Nso.Init.Cleanup.{
  is_leaked, late, below, Held, give_back-Held, acquire-Held, err_ret-Held, err_close_if-Held, slot,
  Opened,
}

set_slot-other :
    (i j : ℕ) (x : Option NsoIf) (l : List (Option NsoIf))
    → j ≢ i
    → get_or (set_slot i x l) j none ≡ get_or l j none
unfolding set_slot
set_slot-other i j x [] ne = refl
set_slot-other zero zero x (y ∷ ys) ne = absurd (ne refl)
set_slot-other zero (suc j) x (y ∷ ys) ne = refl
set_slot-other (suc i) zero x (y ∷ ys) ne = refl
set_slot-other (suc i) (suc j) x (y ∷ ys) ne = set_slot-other i j x ys λ e. ne (ap suc e)

set_slot-same :
    (i : ℕ) (x : Option NsoIf) {y : NsoIf} (l : List (Option NsoIf))
    → get_or l i none ≡ some y
    → get_or (set_slot i x l) i none ≡ x
unfolding set_slot
set_slot-same i x [] h = cc
set_slot-same zero x (y ∷ ys) h = refl
set_slot-same (suc i) x (y ∷ ys) h = set_slot-same i x ys h

module _ ⦃K : Kernel⦄ where
  -- The function went on with `P`, or has failed and given back what it gives back.
  pub data After (P : Setup → Type 0) : Bool × Setup → Type 0 where
    went_on : {s : Setup} → P s → After P (true, s)
    stopped : {s : Setup} → Held is_leaked s → After P (false, s)

  pub After-cases :
      {P : Setup → Type 0} (b : Bool) (s : Setup)
      → After P (b, s)
      → ((b ≡ true) × P s) ⊎ ((b ≡ false) × Held is_leaked s)
  After-cases b s (went_on p) = inl (refl, p)
  After-cases b s (stopped h) = inr (refl, h)

  -- Acquiring the next of the low blocks, with another state.
  pub next :
      (n k : ℕ) (nsol : NsoLayer) (s : Setup)
      → Held (below k n) s
      → below (suc k) n k ≡ true
      → Held (below (suc k) n) (acquire k (record s { nsol = nsol }))
  next n k nsol s h new =
      acquire-Held (below k n) (below (suc k) n) k (record s { nsol = nsol })
        (record { none_open = h.none_open; allowed = h.allowed }) (λ b f. ground arith) new

  -- No condition.
  pub data Any (s : Setup) : Type 0 where
    any : Any s

  -- The file is closed.
  abbrev pub FileClosed : Setup → Type 0
  FileClosed s = mem 0 s.held ≡ false

  pub connect_vnfs-After :
      (o : Outside) (vs : List Vnf) (s : Setup)
      → Held (below 2 0) s
      → Ensures (After (Held (below 2 0))) (connect_vnfs o vs s)
  unfolding connect_vnfs
  connect_vnfs-After o [] s h = returned (went_on h)
  connect_vnfs-After o (v ∷ vs) s h =
      Ensures-bind (non_null (if o.gives 1 then some s.nsol.bspc_tbl else none)) _ λ tbl _.
        elim (Option-cases (o.connect v.ip v.port)) [
          | inl refused ↦ rw refused (
              Ensures-bind (bspc_table_free tbl) _ λ _ _. returned (
                stopped (
                  err_ret-Held (give_back 1 s)
                    (give_back-Held (below 2 0) (late 0) 1 s h λ b f other. ground arith))))
          | inr (fd, open_) ↦ rw open_ (
              let (q, heap) = alloc_bspc_entry v.proto fd tbl.heap in
              Ensures-bind (non_null q) _ λ p _.
                Ensures-bind (bspc_table_add (record tbl { heap = heap }) p) _ λ t _.
                  connect_vnfs-After o vs (record s { nsol = record s.nsol { bspc_tbl = t } })
                    (record { none_open = h.none_open; allowed = h.allowed }))
        ]

  pub alloc_ifaces-Held :
      (o : Outside) (fs : List Iface) (if_id : ℕ) (s : Setup)
      → Held (below 2 if_id) s
      → Held (below 2 (alloc_ifaces o fs if_id s).1) (alloc_ifaces o fs if_id s).2
  unfolding alloc_ifaces
  alloc_ifaces-Held o [] if_id s h = h
  alloc_ifaces-Held o (f ∷ fs) if_id s h =
      elim (Bool-cases (leb 1 f.type || not (o.gives (8 + if_id)))) [
        | inl bad ↦ rw (bad, alloc_ifaces) h
        | inr good ↦
            let iface : NsoIf = record {
              handle = o.junk_handle;
              if_name = f.name;
              if_index = if_id;
              if_type = f.type;
            } in
            let t : Setup = record s {
              nsol = record s.nsol { ifaces = set_slot if_id (some iface) s.nsol.ifaces };
            } in
            rw (good, alloc_ifaces)
              (alloc_ifaces-Held o fs (suc if_id) (acquire (8 + if_id) t) (
                acquire-Held (below 2 if_id) (below 2 (suc if_id)) (8 + if_id) t
                  (record { none_open = h.none_open; allowed = h.allowed }) (λ b g. ground arith)
                  (ground arith)))
      ]

  pub open_ifaces-After :
      (o : Outside) (if_id n i : ℕ) (mtu : Option ℕ) (s : Setup)
      → Opened i s
      → ((b : ℕ) → mem b s.held ≡ true → below 8 if_id b ≡ true)
      → Ensures (λ r. After Any (r.0, r.2)) (open_ifaces o if_id n i mtu s)
  unfolding open_ifaces mem
  open_ifaces-After o if_id zero i mtu s op h = returned (went_on any)
  open_ifaces-After o if_id (suc n) i mtu s op h = elim (Option-cases (slot s i)) [
    | inl empty ↦ rw empty crashes
    | inr (iface, at) ↦ rw at (elim (Option-cases (o.opens iface.if_name)) [
      | inl refused ↦
          rw refused (Ensures-then (err_close_if-Held i if_id s op h) λ t c. returned (stopped c))
      | inr (handle, given) ↦
          let new : NsoIf = record iface { handle = handle } in
          let t : Setup = record s {
            nsol = record s.nsol { ifaces = set_slot i (some new) s.nsol.ifaces };
            opened = handle.sockfd ∷ s.opened;
          } in
          let op' : Opened (suc i) t = λ fd m. elim (Bool-cases (fd == handle.sockfd)) [
            | inl same ↦
                (i, new, omega arith, set_slot-same i (some new) s.nsol.ifaces at, ground arith)
            | inr other ↦
                let (j, f, b, c, e) = op fd (ground arith) in
                (
                  j,
                  f,
                  omega arith,
                  set_slot-other i j (some new) s.nsol.ifaces (λ x. omega arith) ∙ c,
                  e,
                )
          ] in
          rw given
            (open_ifaces-After o if_id n (suc i) (some (larger mtu (wifi_get_info handle))) t op' h)
    ])
  ]
