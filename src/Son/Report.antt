-- ===== src/Son/Report.antt =====
-- A topology report as a message: the format that vson/vSON_southbound.py documents and reads, and the
-- bytes that __get_topo_report_pkt of bs/src/bs_lib/nso_son.c writes.
use nrg_5_sorbonne.Base.{
  ℕ, zero, suc, ◌+◌, ◌*◌, ◌%◌, ◌≤◌, ◌≡◌, refl, Option, none, some, Option-cases, inl, inr, List, [],
  ◌∷◌, ◌++◌, true, arith, length, length-append, mem, is_some,
}
use nrg_5_sorbonne.Kernel.{Kernel, Ptr}
use nrg_5_sorbonne.Memory.{ok, Heap}
use nrg_5_sorbonne.Memory.Laws.{load-ok}
use nrg_5_sorbonne.NsoCommon.{DeviceId, to_bytes}
use nrg_5_sorbonne.NsoCommon.Bytes.{length-to_bytes}
use nrg_5_sorbonne.NsoIf.{NsoIf}
use nrg_5_sorbonne.Nbr.{NbrEntry}
use nrg_5_sorbonne.Son.{nbr_report, iface_report}

pub record Neighbor : Type 0 where
  pub id : DeviceId
  pub quality : ℕ
  pub if_index : ℕ

pub record Report : Type 0 where
  pub battery : ℕ
  pub interfaces : List ℕ
  pub neighbors : List Neighbor

infixl 1 ◌>>=◌
abbrev ◌>>=◌ : {A B : Type 0} → Option A → (A → Option B) → Option B
none >>= k = none
some x >>= k = k x

-- `n` interfaces: [index 1B][quality 1B]
abbrev pub read_interfaces : ℕ → List ℕ → Option (List ℕ × List ℕ)
read_interfaces zero bs = some ([], bs)
read_interfaces (suc n) (i ∷ q ∷ bs) = do (is, rest) ← read_interfaces n bs; some (i ∷ is, rest)
read_interfaces (suc n) bs = none

-- Bytes as a number, the highest first, as struct.unpack reads a "!Q".
abbrev pub of_network : ℕ → List ℕ → ℕ
of_network v [] = v
of_network v (b ∷ bs) = of_network (v * 256 + b) bs

-- `n` neighbours: [id 8B][quality 1B][interface 1B], and nothing behind them.
abbrev pub read_neighbors : ℕ → List ℕ → Option (List Neighbor)
read_neighbors zero [] = some []
read_neighbors zero (b ∷ bs) = none
read_neighbors (suc n) (a ∷ b ∷ c ∷ d ∷ e ∷ f ∷ g ∷ h ∷ q ∷ i ∷ bs) = do
  rest ← read_neighbors n bs
  let id = of_network 0 (a ∷ b ∷ c ∷ d ∷ e ∷ f ∷ g ∷ h ∷ [])
  some (record { id = id; quality = q; if_index = i } ∷ rest)
read_neighbors (suc n) bs = none

abbrev pub read_counted : List ℕ → Option (List Neighbor)
read_counted (hi ∷ lo ∷ bs) = read_neighbors (256 * hi + lo) bs
read_counted bs = none

-- [battery 1B][number of interfaces 1B] interfaces [number of neighbours 2B] neighbours
abbrev pub read_report : List ℕ → Option Report
read_report (battery ∷ n ∷ bs) = do
  (is, rest) ← read_interfaces n bs
  nbrs ← read_counted rest
  some (record { battery = battery; interfaces = is; neighbors = nbrs })
read_report bs = none

-- The indices of `n` interfaces from `i` on.
abbrev pub indices : ℕ → ℕ → List ℕ
indices zero i = []
indices (suc n) i = i ∷ indices n (suc i)

-- The entries of the neighbour table as vSON sees them: an id is the number that it takes from the
-- eight bytes of the id.
abbrev pub Reported : Heap NbrEntry → List Ptr → List Neighbor → Type 0
Reported h [] [] = Unit {0}
Reported h [] (r ∷ rs) = ⊥
Reported h (p ∷ ps) [] = ⊥
Reported h (p ∷ ps) (r ∷ rs) =
    ((e : NbrEntry) × (iface : NsoIf) × (h.cell p ≡ some e)
      × (e.iface ≡ some iface)
      × (r ≡ record {
        id = of_network 0 (to_bytes 8 e.dev_id);
        quality = e.metric.w % 256;
        if_index = iface.if_index % 256;
      }))
    × Reported h ps rs

neighbor-read :
    (n id q i : ℕ) (bs : List ℕ) (rs : List Neighbor)
    → read_neighbors n bs ≡ some rs
    → read_neighbors (suc n) (to_bytes 8 id ++ (q ∷ i ∷ bs))
      ≡ some (record { id = of_network 0 (to_bytes 8 id); quality = q; if_index = i } ∷ rs)
unfolding to_bytes
neighbor-read n id q i bs rs ih = rw ih refl

module _ ⦃K : Kernel⦄ where
  pub length-iface_report : (n i : ℕ) → length (iface_report n i) ≡ n + n
  unfolding iface_report
  length-iface_report zero i = refl
  length-iface_report (suc n) i = omega (arith, length-iface_report n (suc i))

  pub interfaces-read :
      (n i : ℕ) (bs : List ℕ)
      → i + n ≤ 256
      → read_interfaces n (iface_report n i ++ bs) ≡ some (indices n i, bs)
  unfolding iface_report
  interfaces-read zero i bs h = refl
  interfaces-read (suc n) i bs h =
      let same : i % 256 ≡ i = omega arith in
      rw (interfaces-read n (suc i) bs (omega arith), same) refl

  -- Every entry has an interface.
  abbrev pub HasIfaces : Heap NbrEntry → List Ptr → Type 0
  HasIfaces h ps =
      (p : Ptr) (e : NbrEntry)
      → mem p ps ≡ true
      → h.cell p ≡ some e
      → (iface : NsoIf) × (e.iface ≡ some iface)

  pub nbr_report-Reported :
      (h : Heap NbrEntry) (ps : List Ptr)
      → ((p : Ptr) → mem p ps ≡ true → is_some (h.cell p) ≡ true)
      → HasIfaces h ps
      → (rs : List Neighbor) × Reported h ps rs
        × (bs : List ℕ) × (nbr_report h ps ≡ ok bs)
        × (read_neighbors (length ps) bs ≡ some rs)
        × (length bs ≡ 10 * length ps)
  unfolding nbr_report mem
  nbr_report-Reported h [] live has = ([], tt, [], refl, refl, refl)
  nbr_report-Reported h (p ∷ ps) live has =
      let (rs, all, bs, made, back, len) =
        nbr_report-Reported h ps (λ q m. live q (ground arith))
          (λ q e m c. has q e (ground arith) c) in
      elim (Option-cases (h.cell p)) [
        | inl gone ↦ ground (arith, live p)
        | inr (e, c) ↦
            let (iface, at) = has p e (ground arith) c in
            let id = to_bytes 8 e.dev_id in
            let q = e.metric.w % 256 in
            let i = iface.if_index % 256 in
            (
              record { id = of_network 0 id; quality = q; if_index = i } ∷ rs,
              ((e, iface, c, at, refl), all),
              id ++ (q ∷ i ∷ bs),
              rw (load-ok h p c) (rw (at, made) refl),
              neighbor-read (length ps) e.dev_id q i bs rs back,
              omega (arith, len, length-append id (q ∷ i ∷ bs), length-to_bytes 8 e.dev_id),
            )
      ]
