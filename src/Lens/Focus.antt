-- ===== src/Lens/Focus.antt =====
-- The focus command of lens.c, and the report of a focus command by the camera.
use magic_lantern.Common.{
  refl, ℕ, ◌+◌, ◌*◌, ◌/◌, ◌%◌, ◌<◌, ◌≡◌, Bool, true, Option, none, some, arith, ltb, if◌then◌else◌,
}
use magic_lantern.Common.Int.{ℤ, pos, negsuc, sub_ℕ, ◌≤ℤ◌}
use magic_lantern.Common.Word.{of_int}

-- `struct prop_focus`
pub record PropFocus : Type 0 where
  pub active : ℕ
  pub step_hi : ℕ
  pub step_lo : ℕ
  pub mode : ℕ

-- `lens_focus`: the request, if `focus_done_sem` is taken in time.
unfoldable pub lens_focus : Bool → ℕ → ℤ → Option PropFocus
lens_focus taken mode step =
    if taken
    then some (record {
      active = 1;
      step_hi = of_int step / 256 % 256;
      step_lo = of_int step % 256;
      mode = mode % 256;
    })
    else none

-- `step` in the handler of `PROP_LV_FOCUS`, an `int16_t`; the operands of its `|` have no bit in common.
unfoldable pub focus_step : PropFocus → ℤ
focus_step focus =
    let step = (focus.step_hi * 256 + focus.step_lo) % 65536 in
    if ltb step 32768 then pos step else sub_ℕ step 65536

-- A step of 16 bits, in a mode of 8 bits, is reported as it was sent.
focus_step-lens_focus :
    (mode : ℕ) (step : ℤ)
    → mode < 256
    → negsuc 32767 ≤ℤ step
    → step ≤ℤ pos 32767
    → (f : PropFocus) × (lens_focus true mode step ≡ some f)
      × (focus_step f ≡ step)
      × (f.mode ≡ mode)
      × (f.active ≡ 1)
unfolding lens_focus focus_step
focus_step-lens_focus mode step m low high = (_, refl, back step low high, omega arith, refl)
  where
    back :
        (step : ℤ)
        → negsuc 32767 ≤ℤ step
        → step ≤ℤ pos 32767
        → (let w = (of_int step / 256 % 256 * 256 + of_int step % 256) % 65536 in
            if ltb w 32768 then pos w else sub_ℕ w 65536)
          ≡ step
    back step low high = ground arith
