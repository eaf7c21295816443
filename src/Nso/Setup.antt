-- ===== src/Nso/Setup.antt =====
-- The parts of __nso_layer_init of bs/src/bs_lib/nso.c: what it reads, its loops and its error labels.
-- `held` is what is allocated or open, so that a jump to a label shows what it gives back. A pointer
-- that malloc has left NULL is not read after the jump, so its value is left out.
use nrg_5_sorbonne.Base.{
  ℕ, zero, suc, ◌+◌, Bool, true, false, ◌||◌, not, Option, none, some, List, [], ◌∷◌, if◌then◌else◌,
  ltb, leb, get_or, remove,
}
use nrg_5_sorbonne.Kernel.{Kernel}
use nrg_5_sorbonne.Memory.{Run, ok, ◌>>=◌, non_null}
use nrg_5_sorbonne.NsoCommon.{DeviceId}
use nrg_5_sorbonne.NsoIf.{NsoIf, WifiHandle}
use nrg_5_sorbonne.Wifi.{wifi_get_info}
use nrg_5_sorbonne.Arp.{arp_table_free}
use nrg_5_sorbonne.Fwd.{fwd_table_free}
use nrg_5_sorbonne.Nbr.{nbr_table_free}
use nrg_5_sorbonne.Bspc.{alloc_bspc_entry, bspc_table_add, bspc_table_free}
use nrg_5_sorbonne.Nso.State.{NsoLayer}

-- The lines `<vnf proto> <vnf ip> <vnf port>` and `<iface> <type>`.
pub record Vnf : Type 0 where
  pub proto : ℕ
  pub ip : List ℕ
  pub port : ℕ

pub record Iface : Type 0 where
  pub name : List ℕ
  pub type : ℕ

-- The file, with as many lines of each kind as its numbers say, but `if_nb`, which is tested first.
pub record Config : Type 0 where
  pub vnfs : List Vnf
  pub dev_id : DeviceId
  pub if_nb : ℕ
  pub ifaces : List Iface

-- The blocks and the file that the function acquires; interface `i` is `iface_block + i`.
abbrev pub file_block : ℕ
file_block = 0

abbrev pub bspc_block : ℕ
bspc_block = 1

abbrev pub dev_id_block : ℕ
dev_id_block = 2

abbrev pub gw_id_block : ℕ
gw_id_block = 3

abbrev pub arpt_block : ℕ
arpt_block = 4

abbrev pub son_block : ℕ
son_block = 5

abbrev pub local_block : ℕ
local_block = 6

abbrev pub nbrt_block : ℕ
nbrt_block = 7

abbrev pub iface_block : ℕ
iface_block = 8

-- What the code does not decide: the file (`none` if it does not open), the socket that connect_vnf
-- returns (`none` is -1), whether malloc gives a block, the handle that nso_if_open stores (`none`
-- if it fails), and what new memory holds.
pub record Outside : Type 0 where
  pub file : Option Config
  pub connect : List ℕ → ℕ → Option ℕ
  pub gives : ℕ → Bool
  pub opens : List ℕ → Option WifiHandle
  pub junk_handle : WifiHandle
  pub junk_id : DeviceId

-- `nso_layer.ifaces[i] = …`
unfoldable pub set_slot : ℕ → Option NsoIf → List (Option NsoIf) → List (Option NsoIf)
set_slot i iface [] = []
set_slot zero iface (x ∷ xs) = iface ∷ xs
set_slot (suc i) iface (x ∷ xs) = x ∷ set_slot i iface xs

-- `mtu > info.mtu ? mtu : info.mtu`
abbrev pub larger : Option ℕ → ℕ → ℕ
larger none n = n
larger (some m) n = if ltb n m then m else n

module _ ⦃K : Kernel⦄ where
  -- `opened` are the sockets of the interfaces, last one first.
  pub record Setup : Type 0 where
    pub nsol : NsoLayer
    pub held : List ℕ
    pub opened : List ℕ

  abbrev pub acquire : ℕ → Setup → Setup
  acquire b s = record s { held = b ∷ s.held }

  abbrev pub give_back : ℕ → Setup → Setup
  give_back b s = record s { held = remove b s.held }

  -- The error labels, last one first; each falls through to the next.
  unfoldable pub err_ret : Setup → Setup
  err_ret s = give_back file_block s

  -- `while (if_id--) free_nso_if (nso_layer.ifaces[if_id]);`
  unfoldable pub free_ifaces : ℕ → Setup → Setup
  free_ifaces zero s = s
  free_ifaces (suc n) s = free_ifaces n (give_back (iface_block + n) s)

  unfoldable pub err_free_ifaces : ℕ → Setup → Setup
  unfolding free_ifaces err_ret
  err_free_ifaces if_id s = err_ret (free_ifaces if_id s)

  unfoldable pub err_free_devid : ℕ → Setup → Setup
  unfolding err_free_ifaces
  err_free_devid if_id s = err_free_ifaces if_id (give_back dev_id_block s)

  unfoldable pub err_free_arpt : ℕ → Setup → Run Setup
  unfolding err_free_devid
  err_free_arpt if_id s =
      arp_table_free s.nsol.arpt >>= λ _. ok (err_free_devid if_id (give_back arpt_block s))

  unfoldable pub err_free_son : ℕ → Setup → Run Setup
  unfolding err_free_arpt
  err_free_son if_id s =
      fwd_table_free s.nsol.son_fwdt >>= λ _. err_free_arpt if_id (give_back son_block s)

  unfoldable pub err_free_local : ℕ → Setup → Run Setup
  unfolding err_free_son
  err_free_local if_id s =
      fwd_table_free s.nsol.local_fwdt >>= λ _. err_free_son if_id (give_back local_block s)

  -- `while (i--) nso_if_close (nso_layer.ifaces[i]);`
  unfoldable pub close_ifaces : ℕ → Setup → Run Setup
  close_ifaces zero s = ok s
  close_ifaces (suc i) s = do
    iface ← non_null (get_or s.nsol.ifaces i none)
    close_ifaces i (record s { opened = remove iface.handle.sockfd s.opened })

  unfoldable pub err_close_if : ℕ → ℕ → Setup → Run Setup
  unfolding close_ifaces err_free_local
  err_close_if i if_id s = do
    s ← close_ifaces i s
    _ ← nbr_table_free s.nsol.nbrt
    err_free_local if_id (give_back nbrt_block s)

  -- Whether the function went on, and the state that it or an error label has left.
  abbrev pub failed : Run Setup → Run (Bool × Setup)
  failed r = r >>= λ s. ok (false, s)

  -- `while (vnf_num--)`; the table is NULL if it was not allocated.
  unfoldable pub connect_vnfs : Outside → List Vnf → Setup → Run (Bool × Setup)
  unfolding err_ret
  connect_vnfs o [] s = ok (true, s)
  connect_vnfs o (v ∷ vs) s = do
    tbl ← non_null (if o.gives bspc_block then some s.nsol.bspc_tbl else none)
    elim (o.connect v.ip v.port) [
      | none ↦ (do _ ← bspc_table_free tbl; ok (false, err_ret (give_back bspc_block s)))
      | some sockfd ↦ (do
        let (p, h) = alloc_bspc_entry v.proto sockfd tbl.heap
        bspc_e ← non_null p
        tbl ← bspc_table_add (record tbl { heap = h }) bspc_e
        connect_vnfs o vs (record s { nsol = record s.nsol { bspc_tbl = tbl } }))
    ]

  -- The number is `if_id`, at which the loop has stopped.
  unfoldable pub alloc_ifaces : Outside → List Iface → ℕ → Setup → Bool × ℕ × Setup
  alloc_ifaces o [] if_id s = (true, if_id, s)
  alloc_ifaces o (f ∷ fs) if_id s = elim (leb 1 f.type || not (o.gives (iface_block + if_id))) [
    | true ↦ (false, if_id, s)
    | false ↦
        let iface : NsoIf = record {
          handle = o.junk_handle;
          if_name = f.name;
          if_index = if_id;
          if_type = f.type;
        } in
        let nsol : NsoLayer = record s.nsol {
          ifaces = set_slot if_id (some iface) s.nsol.ifaces;
        } in
        alloc_ifaces o fs (suc if_id) (acquire (iface_block + if_id) (record s { nsol = nsol }))
  ]

  -- `for (i = 0; i < nso_layer.ifaces_nb; i++)`, from `i` on. `mtu` is -1 (`none`) at first.
  unfoldable pub open_ifaces :
      Outside → ℕ → ℕ → ℕ → Option ℕ → Setup → Run (Bool × Option ℕ × Setup)
  unfolding err_close_if wifi_get_info
  open_ifaces o if_id zero i mtu s = ok (true, mtu, s)
  open_ifaces o if_id (suc n) i mtu s = do
    iface ← non_null (get_or s.nsol.ifaces i none)
    elim (o.opens iface.if_name) [
      | none ↦ (err_close_if i if_id s >>= λ s. ok (false, mtu, s))
      | some handle ↦
          let iface : NsoIf = record iface { handle = handle } in
          let nsol : NsoLayer = record s.nsol { ifaces = set_slot i (some iface) s.nsol.ifaces } in
          open_ifaces o if_id n (suc i) (some (larger mtu (wifi_get_info handle)))
            (record s { nsol = nsol; opened = handle.sockfd ∷ s.opened })
    ]
