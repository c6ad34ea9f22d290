-- ===== src/Zebra/Task.antt =====
-- When the overlays of zebra.c are drawn: the reports of the camera, the rounds of zebra_task, and the shown time left.
use magic_lantern.Common.{
  ℕ, suc, ◌+◌, ◌/◌, ◌%◌, ◌≡◌, refl, Bool, false, ◌&&◌, List, [], ◌∷◌, ◌++◌, arith, ltb, ◌==◌,
  if◌then◌else◌, ◌≢◌,
}
use magic_lantern.Common.Text.{All}

-- What happens: a report with its first word, or a round of the task, with the menu's task (0 is NULL).
pub data Event : Type 0 where
  lv_action : ℕ → Event
  gui_state : ℕ → Event
  sweep_status : ℕ → Event
  rec_start : ℕ → Event
  rec_time : ℕ → Event
  round : ℕ → Event

pub data Call : Type 0 where
  overlays_drawn : Call
  msleep : ℕ → Call
  print_rec : Call
  -- Whether it is in the color of the warning, the minutes and the seconds.
  print_time : Bool → ℕ → ℕ → Call

pub record State : Type 0 where
  pub lv_drawn : Bool
  pub sensor_cleaning : ℕ

-- `timecode_warning` is the setting.
unfoldable pub zebra_event : ℕ → Event → State → State × List Call
zebra_event timecode_warning (lv_action buf) s = (record s { lv_drawn = buf == 0 }, [])
zebra_event timecode_warning (gui_state buf) s = (record s { lv_drawn = buf == 0 }, [])
zebra_event timecode_warning (sweep_status buf) s = (record s { sensor_cleaning = buf }, [])
zebra_event timecode_warning (rec_start buf) s = (s, if buf == 2 then print_rec ∷ [] else [])
zebra_event timecode_warning (rec_time buf) s =
    let value = buf / 200 in
    (s, print_time (ltb value timecode_warning) (value / 60) (value % 60) ∷ [])
zebra_event timecode_warning (round gui_menu_task) s = (
  s,
  if (gui_menu_task == 0) && s.lv_drawn then overlays_drawn ∷ msleep 100 ∷ [] else msleep 500 ∷ [],
)

unfoldable pub zebra_events : ℕ → List Event → State → State × List Call
unfolding zebra_event
zebra_events timecode_warning [] s = (s, [])
zebra_events timecode_warning (e ∷ events) s =
    let (next, calls) = zebra_event timecode_warning e s in
    let (last, later) = zebra_events timecode_warning events next in (last, calls ++ later)

-- The task begins with nothing drawn.
unfoldable pub zebra_task : ℕ → List Event → State × List Call
unfolding zebra_events
zebra_task timecode_warning events =
    zebra_events timecode_warning events (record { lv_drawn = false; sensor_cleaning = 1 })

unfoldable pub draws : List Call → ℕ
draws [] = 0
draws (overlays_drawn ∷ l) = suc (draws l)
draws (_ ∷ l) = draws l

-- Not a report that live view is shown.
abbrev pub IsQuiet : Event → Type 0
IsQuiet (lv_action buf) = buf ≢ 0
IsQuiet (gui_state buf) = buf ≢ 0
IsQuiet (sweep_status buf) = Unit
IsQuiet (rec_start buf) = Unit
IsQuiet (rec_time buf) = Unit
IsQuiet (round gui_menu_task) = Unit

draws-append : (a b : List Call) → draws (a ++ b) ≡ draws a + draws b
unfolding draws
draws-append [] b = omega arith
draws-append (overlays_drawn ∷ a) b = let ih = draws-append a b in omega (arith, ih)
draws-append (_ ∷ a) b = draws-append a b

one_quiet :
    (timecode_warning : ℕ) (e : Event) (s : State)
    → s.lv_drawn ≡ false
    → IsQuiet e
    → ((zebra_event timecode_warning e s).0.lv_drawn ≡ false)
      × (draws (zebra_event timecode_warning e s).1 ≡ 0)
unfolding zebra_event draws
one_quiet timecode_warning (lv_action buf) s off quiet = (ground (arith, quiet), refl)
one_quiet timecode_warning (gui_state buf) s off quiet = (ground (arith, quiet), refl)
one_quiet timecode_warning (sweep_status buf) s off quiet = (off, refl)
one_quiet timecode_warning (rec_start buf) s off quiet = (off, ground arith)
one_quiet timecode_warning (rec_time buf) s off quiet = (off, refl)
one_quiet timecode_warning (round gui_menu_task) s off quiet = (off, ground (arith, off))

-- From a state in which live view is not shown, as at the start, nothing is drawn, however many rounds there are, until a
-- report says that it is.
pub zebra_events-draws :
    (timecode_warning : ℕ) (events : List Event) (s : State)
    → s.lv_drawn ≡ false
    → All IsQuiet events
    → let (last, calls) = zebra_events timecode_warning events s in
      (last.lv_drawn ≡ false) × (draws calls ≡ 0)
unfolding zebra_events draws
zebra_events-draws timecode_warning [] s off quiet = (off, refl)
zebra_events-draws timecode_warning (e ∷ events) s off (quiet, more) =
    let (still, none) = one_quiet timecode_warning e s off quiet in
    let (last, later) =
      zebra_events-draws timecode_warning events (zebra_event timecode_warning e s).0 still more in
    let sum =
      draws-append (zebra_event timecode_warning e s).1
        (zebra_events timecode_warning events (zebra_event timecode_warning e s).0).1 in
    (last, omega (arith, sum, none, later))
