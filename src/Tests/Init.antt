-- ===== src/Tests/Init.antt =====
-- A configuration with the two network functions and two interfaces, of which the second one opens
-- or not.
use nrg_5_sorbonne.Base.{
  ℕ, ◌≡◌, refl, Bool, true, false, Option, none, some, List, [], ◌∷◌, ◌==◌, if◌then◌else◌,
}
use nrg_5_sorbonne.Memory.{Run, ok, ◌>>=◌, Ensures, malloc, load}
use nrg_5_sorbonne.NsoIf.{WifiHandle}
use nrg_5_sorbonne.Table.{scan, drain}
use nrg_5_sorbonne.Table.Indexed.{clear, insert_front, find, destroy}
use nrg_5_sorbonne.Arp.{arp_table_free}
use nrg_5_sorbonne.Fwd.{fwd_table_free}
use nrg_5_sorbonne.Nbr.{nbr_table_free}
use nrg_5_sorbonne.Bspc.{alloc_bspc_entry, bspc_table_add, bspc_table_lookup}
use nrg_5_sorbonne.Nso.State.{NsoLayer}
use nrg_5_sorbonne.Nso.Setup.{Config, Outside, Setup, set_slot}
use nrg_5_sorbonne.Nso.Init.{nso_layer_init}
use nrg_5_sorbonne.Nso.Init.Loops.{After, FileClosed}
use nrg_5_sorbonne.Nso.Init.Failure.{nso_layer_init-After}
use nrg_5_sorbonne.Tests.Linux.{linux}
use nrg_5_sorbonne.Tests.Fwd.{wlan}
use nrg_5_sorbonne.Tests.Layer.{station}

abbrev pub config : Config
config = record {
  vnfs =
      record { proto = 0xF000; ip = 1 ∷ []; port = 80 }
      ∷ record { proto = 0xF001; ip = 2 ∷ []; port = 80 }
      ∷ [];
  dev_id = 1;
  if_nb = 2;
  ifaces = record { name = 10 ∷ []; type = 0 } ∷ record { name = 11 ∷ []; type = 0 } ∷ [];
}

abbrev handle : ℕ → ℕ → WifiHandle
handle fd mtu = record {
  sockfd = fd;
  if_index = 4;
  if_mac = 2 ∷ 0 ∷ 0 ∷ 0 ∷ 0 ∷ 1 ∷ [];
  if_mtu = mtu;
}

-- The handle of an interface by its name.
abbrev opening : Bool → List ℕ → Option WifiHandle
opening second [] = none
opening second (x ∷ xs) =
    if x == 10 then some (handle 30 1500) else (if second then some (handle 31 1400) else none)

abbrev pub outside : Bool → Outside
outside second = record {
  file = some config;
  connect = λ ip port. some 20;
  gives = λ b. true;
  opens = opening second;
  junk_handle = wlan.handle;
  junk_id = 99;
}

abbrev pub blank : NsoLayer
blank = record station { ifaces = none ∷ none ∷ none ∷ none ∷ [] }

abbrev summary : Run (Bool × Setup) → Run (Bool × List ℕ × List ℕ × ℕ)
summary r = r >>= λ q. ok (q.0, q.1.opened, q.1.held, q.1.nsol.mtu)

init_succeeds :
    summary (nso_layer_init (outside true) blank)
    ≡ ok (true, 31 ∷ 30 ∷ [], 7 ∷ 6 ∷ 5 ∷ 4 ∷ 3 ∷ 2 ∷ 9 ∷ 8 ∷ 1 ∷ [], 1500)
unfolding nso_layer_init malloc load alloc_bspc_entry clear bspc_table_add insert_front set_slot
    bspc_table_lookup find scan
init_succeeds = refl

-- Both sockets are closed, the table of network functions and the gateway's id stay.
init_fails : summary (nso_layer_init (outside false) blank) ≡ ok (false, [], 3 ∷ 1 ∷ [], blank.mtu)
unfolding nso_layer_init malloc load alloc_bspc_entry clear bspc_table_add insert_front set_slot
    nbr_table_free destroy drain fwd_table_free arp_table_free
init_fails = refl

nso_layer_init-After_example : Ensures (After FileClosed) (nso_layer_init (outside false) blank)
nso_layer_init-After_example = nso_layer_init-After (outside false) blank
