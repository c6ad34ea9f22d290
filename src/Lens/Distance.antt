-- ===== src/Lens/Distance.antt =====
-- `lens_format_dist` of lens.c: the format that is chosen, with the numbers that are printed by it.
use magic_lantern.Common.{ℕ, ◌+◌, ◌*◌, ◌/◌, ◌%◌, ◌≤◌, ◌<◌, arith, ltb, if◌then◌else◌}

-- The formats "%3d.%1d m", "%2d.%02d m", "%1d.%03d m" and "%4d cm".
pub data Dist : Type 0 where
  tenths : ℕ → ℕ → Dist
  hundredths : ℕ → ℕ → Dist
  thousandths : ℕ → ℕ → Dist
  centimetres : ℕ → Dist

unfoldable pub lens_format_dist : ℕ → Dist
lens_format_dist mm =
    if ltb 100000 mm
    then tenths (mm / 1000) (mm % 1000 / 100)
    else if ltb 10000 mm
    then hundredths (mm / 1000) (mm % 1000 / 10)
    else if ltb 1000 mm
    then thousandths (mm / 1000) (mm % 1000)
    else centimetres (mm / 10)

-- What the reader of a text takes it for, in mm.
abbrev pub shown : Dist → ℕ
shown (tenths m d) = m * 1000 + d * 100
shown (hundredths m d) = m * 1000 + d * 10
shown (thousandths m d) = m * 1000 + d
shown (centimetres c) = c * 10

-- The step of the last digit, in mm.
abbrev pub step : Dist → ℕ
step (tenths m d) = 100
step (hundredths m d) = 10
step (thousandths m d) = 1
step (centimetres c) = 10

-- The decimals fit the digits of the format.
abbrev pub Fits : Dist → Type 0
Fits (tenths m d) = d < 10
Fits (hundredths m d) = d < 100
Fits (thousandths m d) = d < 1000
Fits (centimetres c) = c < 10000

-- A distance is shown rounded down to the last digit of its format, and the decimals fit the format.
lens_format_dist-shown :
    (mm : ℕ)
    → (shown (lens_format_dist mm) ≤ mm)
      × (mm < shown (lens_format_dist mm) + step (lens_format_dist mm))
      × Fits (lens_format_dist mm)
unfolding lens_format_dist
lens_format_dist-shown mm = ground arith
