-- ===== src/Api.antt =====
-- bs/src/bs_lib/api.c: the calls of the upper layer, each a call of nso.c. A `nso_addr_t *` is a
-- device id.
use nrg_5_sorbonne.Base.{ℕ, Bool, Option, List}
use nrg_5_sorbonne.Kernel.{Kernel}
use nrg_5_sorbonne.Memory.{Run}
use nrg_5_sorbonne.NsoCommon.{DeviceId}
use nrg_5_sorbonne.Nso.State.{Env, NsoLayer}
use nrg_5_sorbonne.Nso.Data.{
  Delivery, nso_layer_send, nso_layer_recv, nso_layer_get_mtu, nso_layer_get_device_id,
  nso_layer_is_connected,
}

module _ ⦃K : Kernel⦄ where
  unfoldable pub nso_send : Env → NsoLayer → List ℕ → Option DeviceId → ℕ → Run (ℕ × NsoLayer)
  nso_send env nsol buf dest proto = nso_layer_send env nsol buf dest proto

  unfoldable pub nso_receive : NsoLayer → ℕ → Run (Delivery × NsoLayer)
  nso_receive nsol size = nso_layer_recv nsol size

  unfoldable pub nso_get_mtu : NsoLayer → ℕ
  nso_get_mtu nsol = nso_layer_get_mtu nsol

  unfoldable pub nso_get_device_id : NsoLayer → DeviceId
  nso_get_device_id nsol = nso_layer_get_device_id nsol

  unfoldable pub nso_is_connected : NsoLayer → Run Bool
  nso_is_connected nsol = nso_layer_is_connected nsol
