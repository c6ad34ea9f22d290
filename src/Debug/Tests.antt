-- ===== src/Debug/Tests.antt =====
-- The list of the properties, and the countdown of three seconds.
use magic_lantern.Common.{ℕ, ◌≡◌, refl, Bool, true, false, List, [], ◌∷◌, length, if◌then◌else◌}
use magic_lantern.Common.Int.{pos, negsuc}
use magic_lantern.Debug.{
  msleep, print_seconds, print_go, call_movie_start, print_blank, dumpf, is_watched, props_of_class,
  props_from, debug_init, count_down, movie_start, wait_seconds, dump_task, set_vbr, property_line,
}

all_pass : List ℕ → Bool
all_pass [] = true
all_pass (p ∷ l) = if is_watched p then all_pass l else false

-- 9 * 64 numbers, of which 7 are left out.
watched : (length debug_init ≡ 569) × (all_pass debug_init ≡ true)
unfolding debug_init props_from props_of_class is_watched all_pass
watched = (refl, refl)

three_seconds :
    movie_start 3
    ≡ msleep 1000
      ∷ print_seconds 0x08 2
      ∷ msleep 1000
      ∷ print_seconds 0x08 1
      ∷ print_go
      ∷ call_movie_start
      ∷ msleep 1000
      ∷ print_blank
      ∷ []
unfolding movie_start count_down
three_seconds = refl

dumped : dump_task 1 ≡ msleep 1000 ∷ dumpf ∷ []
unfolding dump_task wait_seconds
dumped = refl

lowest_wraps : set_vbr (negsuc 15) ≡ pos 16
unfolding set_vbr
lowest_wraps = refl

line_wraps : property_line 1 12 400 ≡ 32
unfolding property_line
line_wraps = refl
