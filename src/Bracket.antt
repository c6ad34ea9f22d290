-- ===== src/Bracket.antt =====
-- bracket.c: the automatic exposure bracket. `ae_count` and `ae_step` are its two settings, which the
-- menu entries change, and `bracket_task` runs one bracket each time that it is woken.
pub mod Presses
pub mod Exposures
mod Tests
use magic_lantern.Common.{
  ℕ, zero, suc, ◌+◌, ◌/◌, Option, none, some, List, [], ◌∷◌, ltb, if◌then◌else◌,
}
use mathlib.Core.Option
use magic_lantern.Common.Int.{ℤ, pos, neg_ℕ, leb_ℤ, ◌+ℤ◌, ◌*ℤ◌}

-- The static variables. They start at 5 and 3, and the code only adds to them or sets them to a
-- positive number, so they are natural numbers.
pub record Settings : Type 0 where
  pub ae_count : ℕ
  pub ae_step : ℕ

abbrev pub defaults : Settings
defaults = record { ae_count = 5; ae_step = 3 }

unfoldable pub ae_adjust_count : Settings → Settings
ae_adjust_count s = let n = s.ae_count + 2 in record s { ae_count = if ltb 13 n then 3 else n }

unfoldable pub ae_adjust_step : Settings → Settings
ae_adjust_step s = let n = s.ae_step + 1 in record s { ae_step = if ltb 8 n then 1 else n }

-- What the task asks of the camera, in order: `lens_set_ae` and `lens_take_picture`.
pub data Command : Type 0 where
  set_ae : ℤ → Command
  take_picture : ℕ → Command

-- The `for` loop from `i` to `hi`, and the `lens_set_ae` after it. `none`: the fuel ran out.
unfoldable pub exposures : ℕ → ℤ → ℤ → ℤ → ℤ → Option (List Command)
exposures zero i hi ae step = none
exposures (suc fuel) i hi ae step =
    let rest = exposures fuel (i +ℤ pos 1) hi ae step in
    if leb_ℤ i hi
    then Option.map (λ cs. set_ae (ae +ℤ step *ℤ i) ∷ take_picture 1000 ∷ cs) rest
    else some (set_ae ae ∷ [])

-- One pass of `bracket_task` after its semaphore, from the current AE value. `-ae_count/2` is
-- `(-ae_count)/2`, which C cuts towards zero. The loop makes at most `ae_count + 1` rounds.
unfoldable pub bracket : Settings → ℤ → Option (List Command)
bracket s ae =
    exposures (s.ae_count + 2) (neg_ℕ (s.ae_count / 2)) (pos (s.ae_count / 2)) ae (pos s.ae_step)

-- `lens_get_ae` of lens.h, which always answers 0.
unfoldable pub lens_get_ae : ℤ
lens_get_ae = pos 0

unfoldable pub bracket_pass : Settings → Option (List Command)
unfolding lens_get_ae
bracket_pass s = bracket s lens_get_ae
