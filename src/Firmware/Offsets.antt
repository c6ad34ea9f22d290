-- ===== src/Firmware/Offsets.antt =====
-- The two offsets that a base gives.
use magic_lantern.Common.{ℕ, ◌+◌, ◌-◌, ◌*◌, ◌/◌, ◌%◌, ◌^◌, ◌<◌, ◌≤◌, ◌≡◌, refl, arith, ap}
use magic_lantern.Common.Word.{u32}
use magic_lantern.Firmware.{getoffsets, dissect_getoffsets}

-- The multiplication divides by 513.
highbits_lem : (base : ℕ) → base < 2 ^ 32 → base * 0xFF803FE1 / 2 ^ 32 / 512 ≡ base / 513
highbits_lem base h = omega (arith, h)

offset2_lem :
    (base q : ℕ) → base < 2 ^ 32 → q ≡ base / 513 → u32 (base + 2 ^ 33 - (q + q * 512)) ≡ base % 513
offset2_lem base q h e = omega (arith, h, e)

pub getoffsets_lem : (base : ℕ) → base < 2 ^ 32 → getoffsets base ≡ (base % 512, base % 513)
unfolding getoffsets
getoffsets_lem base h = ap (λ o. (base % 512, o)) (offset2_lem base _ h (highbits_lem base h))

-- The two tools take the same place of the first table exactly where the bit 8 of the base is 0. Otherwise dissect_fw
-- takes the one that is 256 places before.
pub dissect_getoffsets-getoffsets :
    (base : ℕ)
    → ((dissect_getoffsets base).1 ≡ (getoffsets base).1)
      × (base % 512 < 256 → (dissect_getoffsets base).0 ≡ (getoffsets base).0)
      × (256 ≤ base % 512 → (dissect_getoffsets base).0 + 256 ≡ (getoffsets base).0)
unfolding dissect_getoffsets getoffsets
dissect_getoffsets-getoffsets base = (refl, (λ h. low base h), (λ h. high base h))
  where
    low : (base : ℕ) → base % 512 < 256 → base % 256 ≡ base % 512
    low base h = omega (arith, h)

    high : (base : ℕ) → 256 ≤ base % 512 → base % 256 + 256 ≡ base % 512
    high base h = omega (arith, h)
