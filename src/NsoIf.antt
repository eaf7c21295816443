-- ===== src/NsoIf.antt =====
-- bs/src/bs_lib/include/nso_if.h and the handle of include/wifi_ops.h: a network interface. A
-- `nso_if_t *` is NULL or the structure that it points to, which no code changes once the
-- interface is open.
use nrg_5_sorbonne.Base.{ℕ, List}

-- wifi_handle_t
pub record WifiHandle : Type 0 where
  pub sockfd : ℕ
  pub if_index : ℕ
  pub if_mac : List ℕ
  pub if_mtu : ℕ

pub record NsoIf : Type 0 where
  pub handle : WifiHandle
  pub if_name : List ℕ
  pub if_index : ℕ
  pub if_type : ℕ

-- ETH_ALEN of linux/if_ether.h
abbrev pub eth_alen : ℕ
eth_alen = 6
