-- ===== src/Layer/Safety.antt =====
-- What every step keeps of the state of a base station, and what it may do to its registration.
use nrg_5_sorbonne.Base.{◌≡◌, refl, sym, ◌∙◌, Option, none, some}
use nrg_5_sorbonne.Kernel.{Kernel}
use nrg_5_sorbonne.Arp.{ArpTable}
use nrg_5_sorbonne.Arp.Invariant.{IsArpTable}
use nrg_5_sorbonne.Fwd.{FwdTable}
use nrg_5_sorbonne.Fwd.Laws.{IsFwdTable}
use nrg_5_sorbonne.Nbr.{NbrTable}
use nrg_5_sorbonne.Nbr.Laws.{IsNbrTable}
use nrg_5_sorbonne.Bspc.Laws.{IsBspcTable}
use nrg_5_sorbonne.Wifi.{Frame}
use nrg_5_sorbonne.Nso.State.{NsoLayer, nrg5_unreg, nrg5_connected, log_frame}
use nrg_5_sorbonne.Layer.Routes.{IsRoutes}

module _ ⦃K : Kernel⦄ where
  -- All tables are well formed, and no destination has two routes of the vSON.
  pub record IsLayer (nsol : NsoLayer) : Type 0 where
    pub arp : IsArpTable nsol.arpt
    pub son : IsRoutes nsol.son_fwdt
    pub local : IsFwdTable nsol.local_fwdt
    pub nbr : IsNbrTable nsol.nbrt
    pub bspc : IsBspcTable nsol.bspc_tbl

  -- The registration is as before, or the station was unregistered and is connected now.
  pub data Status (a b : NsoLayer) : Type 0 where
    same : b.dev_state ≡ a.dev_state → b.gw_id ≡ a.gw_id → Status a b
    joins : a.dev_state ≡ nrg5_unreg → b.dev_state ≡ nrg5_connected → Status a b

  pub record Safe (a b : NsoLayer) : Type 0 where
    pub layer : IsLayer b
    pub status : Status a b
    pub dev_id : b.dev_id ≡ a.dev_id
    pub mtu : b.mtu ≡ a.mtu

  Status-trans : {a b c : NsoLayer} → Status a b → Status b c → Status a c
  Status-trans (same s g) (same s' g') = same (s' ∙ s) (g' ∙ g)
  Status-trans (same s g) (joins u c) = joins (sym s ∙ u) c
  Status-trans (joins u c) (same s g) = joins u (s ∙ c)
  Status-trans (joins u c) (joins u' c') = joins u c'

  pub Safe-trans : {a b c : NsoLayer} → Safe a b → Safe b c → Safe a c
  Safe-trans s t = record {
    layer = t.layer;
    status = Status-trans s.status t.status;
    dev_id = t.dev_id ∙ s.dev_id;
    mtu = t.mtu ∙ s.mtu;
  }

  pub Safe-refl : (n : NsoLayer) → IsLayer n → Safe n n
  Safe-refl n w = record { layer = w; status = same refl refl; dev_id = refl; mtu = refl }

  -- The same tables, registration, id and MTU.
  pub Safe-same :
      (n n' : NsoLayer)
      → IsLayer n
      → IsArpTable n'.arpt
      → IsRoutes n'.son_fwdt
      → IsFwdTable n'.local_fwdt
      → IsNbrTable n'.nbrt
      → n'.bspc_tbl ≡ n.bspc_tbl
      → n'.dev_state ≡ n.dev_state
      → n'.gw_id ≡ n.gw_id
      → n'.dev_id ≡ n.dev_id
      → n'.mtu ≡ n.mtu
      → Safe n n'
  Safe-same n n' w a s l nb b ds gw d m = record {
    layer = record { arp = a; son = s; local = l; nbr = nb; bspc = rw b w.bspc };
    status = same ds gw;
    dev_id = d;
    mtu = m;
  }

  module _ (n : NsoLayer) (w : IsLayer n) where
    pub Safe-arpt : (t : ArpTable) → IsArpTable t → Safe n (record n { arpt = t })
    Safe-arpt t v =
        Safe-same n (record n { arpt = t }) w v w.son w.local w.nbr refl refl refl refl refl

    pub Safe-son : (t : FwdTable) → IsRoutes t → Safe n (record n { son_fwdt = t })
    Safe-son t v =
        Safe-same n (record n { son_fwdt = t }) w w.arp v w.local w.nbr refl refl refl refl refl

    pub Safe-local : (t : FwdTable) → IsFwdTable t → Safe n (record n { local_fwdt = t })
    Safe-local t v =
        Safe-same n (record n { local_fwdt = t }) w w.arp w.son v w.nbr refl refl refl refl refl

    pub Safe-nbrt : (t : NbrTable) → IsNbrTable t → Safe n (record n { nbrt = t })
    Safe-nbrt t v =
        Safe-same n (record n { nbrt = t }) w w.arp w.son w.local v refl refl refl refl refl

    pub Safe-log : (f : Option Frame) → Safe n (log_frame f n)
    Safe-log none = Safe-refl n w
    Safe-log (some f) =
        Safe-same n (log_frame (some f) n) w w.arp w.son w.local w.nbr refl refl refl refl refl
