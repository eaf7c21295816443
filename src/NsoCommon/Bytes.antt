-- ===== src/NsoCommon/Bytes.antt =====
-- Laws of device ids, link-layer addresses and their bytes.
use native.Mathlib.Nat.{pow-suc}
use nrg_5_sorbonne.Base.{ℕ, zero, suc, ◌/◌, ◌^◌, ◌<◌, ◌≡◌, refl, true, [], ◌∷◌, arith, length}
use nrg_5_sorbonne.NsoCommon.{L2Addr, DeviceId, to_bytes, of_bytes, device_id_equal, l2addr_equal}

pub of_bytes-to_bytes : (n v : ℕ) → v < 256 ^ n → of_bytes (to_bytes n v) ≡ v
unfolding of_bytes to_bytes
of_bytes-to_bytes zero v h = omega arith
of_bytes-to_bytes (suc n) v h =
    omega (arith, of_bytes-to_bytes n (v / 256) (omega (arith, pow-suc 256 n)), pow-suc 256 n)

pub length-to_bytes : (n v : ℕ) → length (to_bytes n v) ≡ n
unfolding to_bytes
length-to_bytes zero v = refl
length-to_bytes (suc n) v = omega (arith, length-to_bytes n)

pub device_id_equal_refl : (a b : DeviceId) → a ≡ b → device_id_equal a b ≡ true
unfolding device_id_equal
device_id_equal_refl a b h = ground arith

pub device_id_equal-eq : (a b : DeviceId) → device_id_equal a b ≡ true → a ≡ b
unfolding device_id_equal
device_id_equal-eq a b h = ground arith

pub l2addr_equal-eq : (a b : L2Addr) → l2addr_equal a b ≡ true → a ≡ b
unfolding l2addr_equal
l2addr_equal-eq [] [] h = refl
l2addr_equal-eq [] (_ ∷ _) h = cc
l2addr_equal-eq (_ ∷ _) [] h = cc
l2addr_equal-eq (x ∷ xs) (y ∷ ys) h = ground (arith, l2addr_equal-eq xs ys)

pub l2addr_equal_refl : (a : L2Addr) → l2addr_equal a a ≡ true
unfolding l2addr_equal
l2addr_equal_refl [] = refl
l2addr_equal_refl (x ∷ xs) = ground (arith, l2addr_equal_refl xs)
