-- ===== src/Zebra/Tests.antt =====
-- Runs of the histogram, the edges and the overlays of zebra.c, and the theorems at concrete frames.
use magic_lantern.Common.{
  [], ◌∷◌, ℕ, ◌+◌, ◌*◌, ◌/◌, ◌%◌, ◌≡◌, refl, true, false, none, some, arith, ◌==◌, if◌then◌else◌,
}
use magic_lantern.Common.Int.{pos, negsuc}
use magic_lantern.Zebra.{hist_build}
use magic_lantern.Zebra.Task.{
  overlays_drawn, round, lv_action, rec_time, msleep, print_time, zebra_event, zebra_events,
  zebra_task,
}
use magic_lantern.Zebra.Histogram.Counted.{IsHist, hist_build-IsHist}
use magic_lantern.Zebra.Edge.{edge_abs, edge_detect}
use magic_lantern.Zebra.Overlay.{
  Settings, Frame, Screen, is_reserved, check_zebra, overlay_word, draw_overlays, draw_zebra,
}
use magic_lantern.Zebra.Overlay.Pass.{
  left_by, draw_overlays-overlay_word, draw_overlays-is_reserved,
}

-- A bright frame with a dark column.
abbrev bright : ℕ → ℕ
bright a = if a % 8 == 0 then 0 else 0xC000C000

hist_build-IsHist_example : IsHist 4 16 bright 0 (hist_build 4 16 bright 0)
hist_build-IsHist_example = hist_build-IsHist 4 16 bright 0

edge_abs_large : edge_abs (negsuc 59999) ≡ pos 60000
unfolding edge_abs
edge_abs_large = refl

-- Two equal pixels beside two darker ones.
edge_detect_step : edge_detect (λ a. if a == 0 then 0x40004000 else 0x10001000) 4 ≡ 0x1830
unfolding edge_detect edge_abs
edge_detect_step = refl

-- Zebras from the level 0xB000 on, with a timecode region at the upper right.
abbrev zebras : Settings
zebras = record {
  zebra_draw = true;
  zebra_level = 0xB000;
  crop_draw = false;
  cropmarks = none;
  edge_draw = false;
  hist_draw = true;
  hist_x = 580;
  hist_y = 340;
  waveform_draw = false;
  waveform_x = 360;
  waveform_y = 215;
  timecode_x = 560;
  timecode_y = 32;
  timecode_width = 160;
  timecode_height = 20;
}

abbrev frame : Frame
frame = record { pixels = λ x y. bright (x / 2); gradient = λ x y. 0 }

overlay_word_zebra : overlay_word zebras frame 18 100 ≡ some 0x5F5F
unfolding overlay_word is_reserved check_zebra
overlay_word_zebra = refl

overlay_word_cleared : overlay_word zebras frame 16 100 ≡ some 0
unfolding overlay_word is_reserved check_zebra
overlay_word_cleared = refl

overlay_word_timecode : overlay_word zebras frame 600 40 ≡ none
unfolding overlay_word is_reserved
overlay_word_timecode = refl

abbrev screen : Screen
screen = record { memory = λ a. 7; left = 200000 }

draw_overlays-overlay_word_example :
    (draw_overlays zebras frame 720 480 1000 screen).memory (1000 + 100 * 480 + 1 + 8)
    ≡ left_by (overlay_word zebras frame (2 + 8 * 2) 100) (screen.memory (1000 + 100 * 480 + 1 + 8))
draw_overlays-overlay_word_example =
    draw_overlays-overlay_word zebras frame 720 480 1000 screen 8 100 (omega arith) (omega arith)
      (omega arith) (omega arith) (omega arith)

draw_overlays-is_reserved_example :
    (draw_overlays zebras frame 720 480 1000 (record { memory = λ a. 7; left = 5000 })).memory
      (1000 + 40 * 480 + 1 + 299)
    ≡ 7
unfolding is_reserved
draw_overlays-is_reserved_example =
    draw_overlays-is_reserved zebras frame 720 480 1000 (record { memory = λ a. 7; left = 5000 })
      299 40 (omega arith) (omega arith) (omega arith) refl

draw_zebra_no_bitmap : draw_zebra zebras frame 720 480 none screen ≡ screen
unfolding draw_zebra
draw_zebra_no_bitmap = refl

-- Live view is shown, and then the menu.
zebra_task_run :
    (zebra_task 2 (round 0 ∷ lv_action 0 ∷ round 0 ∷ round 7 ∷ rec_time 12300 ∷ [])).1
    ≡ msleep 500 ∷ overlays_drawn ∷ msleep 100 ∷ msleep 500 ∷ print_time false 1 1 ∷ []
unfolding zebra_task zebra_events zebra_event
zebra_task_run = refl
