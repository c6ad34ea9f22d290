-- ===== src/Bracket/Presses.antt =====
-- The two settings of bracket.c under any presses of their menu entries.
use magic_lantern.Common.{◌%◌, ◌≤◌, ◌≡◌, List, [], ◌∷◌, arith}
use magic_lantern.Bracket.{Settings, defaults, ae_adjust_count, ae_adjust_step}

pub data Press : Type 0 where
  count step : Press

pub press : Settings → Press → Settings
press s count = ae_adjust_count s
press s step = ae_adjust_step s

unfoldable pub presses : Settings → List Press → Settings
unfolding press
presses s [] = s
presses s (p ∷ ps) = presses (press s p) ps

pub record IsValid (s : Settings) : Type 0 where
  pub odd : s.ae_count % 2 ≡ 1
  pub count_low : 3 ≤ s.ae_count
  pub count_high : s.ae_count ≤ 13
  pub step_low : 1 ≤ s.ae_step
  pub step_high : s.ae_step ≤ 8

press-IsValid : (s : Settings) (p : Press) → IsValid s → IsValid (press s p)
unfolding press ae_adjust_count ae_adjust_step
press-IsValid s count v = ground arith
press-IsValid s step v = ground arith

pub presses-IsValid_from : (s : Settings) (ps : List Press) → IsValid s → IsValid (presses s ps)
unfolding presses
presses-IsValid_from s [] v = v
presses-IsValid_from s (p ∷ ps) v = presses-IsValid_from (press s p) ps (press-IsValid s p v)

-- After any presses of the two menu entries the number of pictures is odd and between 3 and 13,
-- and the step between 1 and 8.
presses-IsValid : (ps : List Press) → IsValid (presses defaults ps)
presses-IsValid ps = presses-IsValid_from defaults ps (omega arith)
