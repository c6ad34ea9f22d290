-- ===== src/Debug.antt =====
-- The parts of debug.c that compute: the list of the watched properties, the step of the fixed quality, the cursor of the
-- property display, and the two countdowns.
pub mod Watched
mod Tests
use magic_lantern.Common.{
  ℕ, zero, suc, ◌+◌, ◌*◌, ◌^◌, Bool, true, false, not, ◌&&◌, List, [], ◌∷◌, ◌++◌, ltb, ◌==◌,
  if◌then◌else◌,
}
use magic_lantern.Common.Int.{ℤ, pos, negsuc, ltb_ℤ, sub_ℕ}
use magic_lantern.Common.Word.{u32}

abbrev pub num_properties : ℕ
num_properties = 8192

-- `prop`, for the class `j` and the number `k`: `i` is 8, and the three parts of the number do not meet.
abbrev pub prop_of : ℕ → ℕ → ℕ
prop_of j k = 0x80000000 + j * 2 ^ 16 + k

unfoldable pub is_watched : ℕ → Bool
is_watched prop =
    not (prop == 0x80030014)
    && not (prop == 0x80030015)
    && not (prop == 0x80050000)
    && not (prop == 0x80050004)
    && not (prop == 0x80050005)
    && not (prop == 0x80050010)
    && not (prop == 0x8005000f)

-- The loop over `k`, with `left` rounds to go. The list is what `property_list` has from here on.
unfoldable pub props_of_class : ℕ → ℕ → ℕ → List ℕ
unfolding is_watched
props_of_class zero j k = []
props_of_class (suc left) j k =
    let rest = props_of_class left j (suc k) in
    if is_watched (prop_of j k) then prop_of j k ∷ rest else rest

-- The loop over `j`. The list never gets so long that the loops are left early.
unfoldable pub props_from : ℕ → ℕ → List ℕ
unfolding props_of_class
props_from zero j = []
props_from (suc left) j = props_of_class 0x40 j 0 ++ props_from left (suc j)

-- What `debug_init` registers.
unfoldable pub debug_init : List ℕ
unfolding props_from
debug_init = props_from 9 0

-- `set_vbr`: the next quality.
unfoldable pub set_vbr : ℤ → ℤ
set_vbr (pos zero) = negsuc 0
set_vbr (pos (suc n)) = pos n
set_vbr (negsuc n) = if ltb_ℤ (negsuc (suc n)) (negsuc 15) then pos 16 else negsuc (suc n)

-- `debug_property_handler`: the line of the next property, where the font is `height` high. Nothing is drawn without the
-- setting.
unfoldable pub property_line : ℕ → ℕ → ℕ → ℕ
property_line draw_prop height y =
    let y' = u32 (y + height) in if draw_prop == 0 then y else if ltb 400 y' then 32 else y'

pub data Call : Type 0 where
  msleep : ℕ → Call
  -- The color and the number.
  print_seconds : ℕ → ℕ → Call
  print_go : Call
  call_movie_start : Call
  print_blank : Call
  dumpf : Call

-- `while( --sec > 0 )`, for a number that is not negative: `sec` is the number after the decrement.
unfoldable pub count_down : ℕ → List Call
count_down zero = []
count_down (suc sec) =
    msleep 1000 ∷ print_seconds (if ltb 4 (suc sec) then 0x01 else 0x08) (suc sec) ∷ count_down sec

-- `movie_start`, for a setting that is not negative.
unfoldable pub movie_start : ℕ → List Call
unfolding count_down
movie_start zero = []
movie_start (suc sec) =
    count_down sec ++ (print_go ∷ call_movie_start ∷ msleep 1000 ∷ print_blank ∷ [])

-- `while( sec-- )`
unfoldable pub wait_seconds : ℕ → List Call
wait_seconds zero = []
wait_seconds (suc sec) = msleep 1000 ∷ wait_seconds sec

-- `dump_task`, after the levels of the log are set, for a setting that is not negative.
unfoldable pub dump_task : ℕ → List Call
unfolding wait_seconds
dump_task zero = []
dump_task (suc sec) = wait_seconds (suc sec) ++ (dumpf ∷ [])
