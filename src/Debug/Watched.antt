-- ===== src/Debug/Watched.antt =====
-- The properties of debug.c's list, and the countdown before a movie.
use magic_lantern.Common.{ℕ, zero, suc, ◌+◌, ◌*◌, ◌≡◌, refl, true, List, [], ◌∷◌, ◌++◌, arith}
use magic_lantern.Common.Int.{ℤ, pos, negsuc, leb_ℤ}
use magic_lantern.Debug.{
  set_vbr, Call, msleep, print_go, call_movie_start, print_blank, count_down, movie_start,
}

-- The time that passes before the movie is started.
unfoldable pub slept_before_start : List Call → ℕ
slept_before_start [] = 0
slept_before_start (call_movie_start ∷ l) = 0
slept_before_start (msleep n ∷ l) = n + slept_before_start l
slept_before_start (_ ∷ l) = slept_before_start l

unfoldable pub starts : List Call → ℕ
starts [] = 0
starts (call_movie_start ∷ l) = suc (starts l)
starts (_ ∷ l) = starts l

slept_count_down :
    (sec : ℕ) (l : List Call)
    → (slept_before_start (count_down sec ++ l) ≡ 1000 * sec + slept_before_start l)
      × (starts (count_down sec ++ l) ≡ starts l)
unfolding count_down slept_before_start starts
slept_count_down zero l = (omega arith, refl)
slept_count_down (suc sec) l =
    let (slept, started) = slept_count_down sec l in (omega (arith, slept), started)

-- With a setting of some seconds the movie is started once, one second early: after one second less than the setting
-- says.
pub movie_start-slept :
    (sec : ℕ)
    → (starts (movie_start (suc sec)) ≡ 1)
      × (slept_before_start (movie_start (suc sec)) ≡ 1000 * sec)
unfolding movie_start slept_before_start starts
movie_start-slept sec =
    let (slept, started) =
      slept_count_down sec (print_go ∷ call_movie_start ∷ msleep 1000 ∷ print_blank ∷ []) in
    (started, omega (arith, slept))

-- The quality stays between -16 and 16.
pub set_vbr-bounds :
    (q : ℤ)
    → leb_ℤ (negsuc 15) q ≡ true
    → leb_ℤ q (pos 16) ≡ true
    → (leb_ℤ (negsuc 15) (set_vbr q) ≡ true) × (leb_ℤ (set_vbr q) (pos 16) ≡ true)
unfolding set_vbr
set_vbr-bounds (pos zero) low high = (refl, refl)
set_vbr-bounds (pos (suc n)) low high = ground (arith, low, high)
set_vbr-bounds (negsuc n) low high = ground (arith, low, high)
