-- ===== src/Nso/Init/Cleanup.antt =====
-- What the error labels of __nso_layer_init of bs/src/bs_lib/nso.c give back.
use nrg_5_sorbonne.Base.{
  ℕ, zero, suc, ◌+◌, ◌<◌, ◌≡◌, refl, sym, ap, ◌∙◌, inl, inr, Bool, true, false, ◌&&◌, ◌||◌,
  Bool-cases, Option-cases, Option, none, some, some_inj, List, [], ◌∷◌, ◌==◌, ltb, leb, arith, mem,
  remove, get_or,
}
use nrg_5_sorbonne.Base.Members.{mem-remove}
use nrg_5_sorbonne.Kernel.{Kernel}
use nrg_5_sorbonne.Memory.{Ensures, returned, crashes, Ensures-bind, Ensures-then}
use nrg_5_sorbonne.NsoIf.{NsoIf}
use nrg_5_sorbonne.Arp.{arp_table_free}
use nrg_5_sorbonne.Fwd.{fwd_table_free}
use nrg_5_sorbonne.Nbr.{nbr_table_free}
use nrg_5_sorbonne.Nso.Setup.{
  Setup, acquire, give_back, err_ret, free_ifaces, err_free_ifaces, err_free_devid, err_free_arpt,
  err_free_son, err_free_local, close_ifaces, err_close_if,
}

-- The table of network functions and the block of `gw_id`.
abbrev pub is_leaked : ℕ → Bool
is_leaked b = (b == 1) || (b == 3)

-- Those two, the file, and the first `n` interfaces.
abbrev pub late : ℕ → ℕ → Bool
late n b = (b == 0) || (is_leaked b || (leb 8 b && ltb b (8 + n)))

-- The blocks below `k`, and the first `n` interfaces.
abbrev pub below : ℕ → ℕ → ℕ → Bool
below k n b = ltb b k || (leb 8 b && ltb b (8 + n))

module _ ⦃K : Kernel⦄ where
  -- No interface is open, and only blocks of which `f` is true may be allocated.
  pub record Held (f : ℕ → Bool) (s : Setup) : Type 0 where
    pub none_open : s.opened ≡ []
    pub allowed : (b : ℕ) → mem b s.held ≡ true → f b ≡ true

  pub Held-weaken :
      (f g : ℕ → Bool) (s : Setup) → Held f s → ((b : ℕ) → f b ≡ true → g b ≡ true) → Held g s
  Held-weaken f g s h step = record {
    none_open = h.none_open;
    allowed = λ b m. step b (h.allowed b m);
  }

  pub give_back-Held :
      (f g : ℕ → Bool) (x : ℕ) (s : Setup)
      → Held f s
      → ((b : ℕ) → f b ≡ true → (x == b) ≡ false → g b ≡ true)
      → Held g (give_back x s)
  give_back-Held f g x s h step = record {
    none_open = h.none_open;
    allowed = λ b m.
        step b (h.allowed b (ground (arith, mem-remove b x s.held)))
          (ground (arith, mem-remove b x s.held));
  }

  pub acquire-Held :
      (f g : ℕ → Bool) (x : ℕ) (s : Setup)
      → Held f s
      → ((b : ℕ) → f b ≡ true → g b ≡ true)
      → g x ≡ true
      → Held g (acquire x s)
  unfolding mem
  acquire-Held f g x s h step new = record {
    none_open = h.none_open;
    allowed = λ b m. elim (Bool-cases (b == x)) [
      | inl same ↦ ground arith
      | inr other ↦ step b (h.allowed b (ground arith))
    ];
  }

  pub err_ret-Held : (s : Setup) → Held (late 0) s → Held is_leaked (err_ret s)
  unfolding err_ret
  err_ret-Held s h = give_back-Held (late 0) is_leaked 0 s h λ b f n. ground arith

  free_ifaces-Held : (n : ℕ) (s : Setup) → Held (late n) s → Held (late 0) (free_ifaces n s)
  unfolding free_ifaces
  free_ifaces-Held zero s h = h
  free_ifaces-Held (suc n) s h =
      free_ifaces-Held n (give_back (8 + n) s)
        (give_back-Held (late (suc n)) (late n) (8 + n) s h λ b f other. ground arith)

  pub err_free_ifaces-Held :
      (n : ℕ) (s : Setup) → Held (late n) s → Held is_leaked (err_free_ifaces n s)
  unfolding err_free_ifaces
  err_free_ifaces-Held n s h = err_ret-Held (free_ifaces n s) (free_ifaces-Held n s h)

  pub err_free_devid-Held :
      (n : ℕ) (s : Setup) → Held (below 4 n) s → Held is_leaked (err_free_devid n s)
  unfolding err_free_devid
  err_free_devid-Held n s h =
      err_free_ifaces-Held n (give_back 2 s)
        (give_back-Held (below 4 n) (late n) 2 s h λ b f other. ground arith)

  pub err_free_arpt-Held :
      (n : ℕ) (s : Setup) → Held (below 5 n) s → Ensures (Held is_leaked) (err_free_arpt n s)
  unfolding err_free_arpt
  err_free_arpt-Held n s h = Ensures-bind (arp_table_free s.nsol.arpt) _ λ _ _. returned (
      err_free_devid-Held n (give_back 4 s)
        (give_back-Held (below 5 n) (below 4 n) 4 s h λ b f other. ground arith))

  pub err_free_son-Held :
      (n : ℕ) (s : Setup) → Held (below 6 n) s → Ensures (Held is_leaked) (err_free_son n s)
  unfolding err_free_son
  err_free_son-Held n s h = Ensures-bind (fwd_table_free s.nsol.son_fwdt) _ λ _ _.
      err_free_arpt-Held n (give_back 5 s)
        (give_back-Held (below 6 n) (below 5 n) 5 s h λ b f other. ground arith)

  pub err_free_local-Held :
      (n : ℕ) (s : Setup) → Held (below 7 n) s → Ensures (Held is_leaked) (err_free_local n s)
  unfolding err_free_local
  err_free_local-Held n s h = Ensures-bind (fwd_table_free s.nsol.local_fwdt) _ λ _ _.
      err_free_son-Held n (give_back 6 s)
        (give_back-Held (below 7 n) (below 6 n) 6 s h λ b f other. ground arith)

  -- The interface of a slot.
  abbrev pub slot : Setup → ℕ → Option NsoIf
  slot s j = get_or s.nsol.ifaces j none

  -- Every open socket is that of one of the first `i` interfaces.
  abbrev pub Opened : ℕ → Setup → Type 0
  Opened i s =
      (fd : ℕ)
      → mem fd s.opened ≡ true
      → (j : ℕ) × (iface : NsoIf) × (j < i) × (slot s j ≡ some iface) × (iface.handle.sockfd ≡ fd)

  none_opened : (fds : List ℕ) → ((fd : ℕ) → mem fd fds ≡ false) → fds ≡ []
  unfolding mem
  none_opened [] h = refl
  none_opened (x ∷ xs) h = absurd (ground (arith, h x))

  pub close_ifaces-none :
      (i : ℕ) (s : Setup)
      → Opened i s
      → Ensures (λ s'. (s'.opened ≡ []) × (s'.held ≡ s.held)) (close_ifaces i s)
  unfolding close_ifaces
  close_ifaces-none zero s h = returned (
    none_opened s.opened (λ fd. elim (Bool-cases (mem fd s.opened)) [
      | inl m ↦ let (j, f, b, _, _) = h fd m in absurd (omega arith)
      | inr absent ↦ absent
    ]),
    refl,
  )
  close_ifaces-none (suc i) s h = elim (Option-cases (slot s i)) [
    | inl empty ↦ rw empty crashes
    | inr (iface, at) ↦
        let x = iface.handle.sockfd in
        rw at (
          close_ifaces-none i (record s { opened = remove x s.opened })
            λ fd m.
              let (j, f, b, c, e) = h fd (ground (arith, mem-remove fd x s.opened)) in
              (
                j,
                f,
                elim (Bool-cases (j == i)) [
                  | inl same ↦
                      let f_is : some f ≡ some iface =
                        sym c ∙ ap (slot s) {x = j} {y = i} (ground arith) ∙ at in
                      let fd_is : fd ≡ x = sym e ∙ ap (λ y. y.handle.sockfd) (some_inj f_is) in
                      absurd (ground (arith, mem-remove fd x s.opened))
                  | inr other ↦ ground arith
                ],
                c,
                e,
              ))
  ]

  pub err_close_if-Held :
      (i n : ℕ) (s : Setup)
      → Opened i s
      → ((b : ℕ) → mem b s.held ≡ true → below 8 n b ≡ true)
      → Ensures (Held is_leaked) (err_close_if i n s)
  unfolding err_close_if
  err_close_if-Held i n s o h = Ensures-then (close_ifaces-none i s o) λ t (closed, same).
      Ensures-bind (nbr_table_free t.nsol.nbrt) _ λ _ _.
        let before : Held (below 8 n) t = record {
          none_open = closed;
          allowed = λ b m. h b (ap (mem b) (sym same) ∙ m);
        } in
        err_free_local-Held n (give_back 7 t)
          (give_back-Held (below 8 n) (below 7 n) 7 t before λ b f other. ground arith)
