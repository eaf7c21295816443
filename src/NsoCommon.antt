-- ===== src/NsoCommon.antt =====
-- bs/src/bs_lib/include/nso_common.h: device ids and link-layer addresses. Both are values here:
-- a `device_id_t *` is the 64-bit number that it points to, an `l2addr_t *` the bytes of the
-- address, whose number is the field `size`. What malloc does for them is left out.
pub mod Bytes
use nrg_5_sorbonne.Base.{
  ℕ, zero, suc, ◌+◌, ◌*◌, ◌/◌, ◌%◌, Bool, true, false, ◌&&◌, List, [], ◌∷◌, ◌==◌, take, length,
}
use nrg_5_sorbonne.Kernel.{Kernel}

abbrev pub DeviceId : Type 0
DeviceId = ℕ

abbrev pub L2Addr : Type 0
L2Addr = List ℕ

-- DEV_ID_WIDTH, sizeof (device_id_t).
abbrev pub dev_id_width : ℕ
dev_id_width = 8

-- The bytes of a number in memory, low byte first, and the number that they hold.
unfoldable pub to_bytes : ℕ → ℕ → List ℕ
to_bytes zero v = []
to_bytes (suc n) v = (v % 256) ∷ to_bytes n (v / 256)

unfoldable pub of_bytes : List ℕ → ℕ
of_bytes [] = 0
of_bytes (b ∷ bs) = b + 256 * of_bytes bs

unfoldable pub alloc_device_id : List ℕ → DeviceId
unfolding of_bytes
alloc_device_id val = of_bytes (take dev_id_width val)

unfoldable pub alloc_bc_device_id : DeviceId
alloc_bc_device_id = 0xffff_ffff_ffff_ffff

unfoldable pub device_id_equal : DeviceId → DeviceId → Bool
device_id_equal id1 id2 = id1 == id2

unfoldable pub is_broadcast_dev_id : DeviceId → Bool
unfolding device_id_equal alloc_bc_device_id
is_broadcast_dev_id dev_id = device_id_equal dev_id alloc_bc_device_id

unfoldable pub alloc_l2addr : ℕ → List ℕ → L2Addr
alloc_l2addr size val = take size val

-- memcmp of as many bytes as both addresses have, and equal sizes.
unfoldable pub l2addr_equal : L2Addr → L2Addr → Bool
l2addr_equal [] [] = true
l2addr_equal [] (_ ∷ _) = false
l2addr_equal (_ ∷ _) [] = false
l2addr_equal (x ∷ xs) (y ∷ ys) = (x == y) && l2addr_equal xs ys

module _ ⦃K : Kernel⦄ where
  unfoldable pub hash_device_id : DeviceId → ℕ
  unfolding to_bytes
  hash_device_id dev_id = K.hash_crc (to_bytes dev_id_width dev_id) 0

  unfoldable pub hash_l2addr : L2Addr → ℕ
  hash_l2addr addr = K.hash_crc addr 0
