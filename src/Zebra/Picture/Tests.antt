-- ===== src/Zebra/Picture/Tests.antt =====
-- The pictures of the histogram and the waveform on a display.
use magic_lantern.Common.{◌+◌, ◌*◌, ◌≡◌, refl, true, arith, ◌==◌, if◌then◌else◌}
use magic_lantern.Bitmap.{Display}
use magic_lantern.Bitmap.Fill.{IsReady}
use magic_lantern.Zebra.{Hist, bar_size}
use magic_lantern.Zebra.Picture.{
  wave_color, hist_draw_image, waveform_draw_image, draw_pictures, zebra_toggle,
}
use magic_lantern.Zebra.Picture.Bars.{hist_draw_image-bars}
use magic_lantern.Zebra.Picture.Mirror.{waveform_draw_image-mirror}

abbrev display : Display
display = record { vram = 4096; width = 720; pitch = 960; height = 480 }

display-IsReady : IsReady display
display-IsReady = record {
  vram_ne = ground arith;
  vram_even = refl;
  words = refl;
  wide = omega arith;
  low = omega arith;
  narrow = omega arith;
}

-- Bins that grow to the right, and one column of the waveform.
abbrev growing : Hist
growing = record { hist = λ i. i; hist_max = 127; waveform = λ c l. if c == 0 then 128 else 0 }

-- The bar 64 is 32 high; the point 10 lines above the bottom is in it.
hist_draw_image-bars_example :
    (hist_draw_image display 582 340 growing (λ a. 7)).0 (4096 + 394 * 960 + 644) ≡ 0x01
unfolding bar_size
hist_draw_image-bars_example =
    hist_draw_image-bars display 582 340 growing (λ a. 7) 644 394 display-IsReady (omega arith)
      (omega arith) (omega arith)

-- The column 0 is shown at the place 3.
waveform_draw_image-mirror_example :
    (waveform_draw_image display 0x26 360 174 growing (λ a. 7)).0 (4096 + 200 * 960 + 363) ≡ 80
unfolding wave_color
waveform_draw_image-mirror_example =
    waveform_draw_image-mirror display 0x26 360 174 growing (λ a. 7) 363 200 (omega arith)
      (omega arith) (omega arith)

toggled : zebra_toggle 0xF000 ≡ 0x3000
unfolding zebra_toggle
toggled = refl

-- The pictures leave 1 in `hist_max`.
both_drawn :
    (draw_pictures display
      (record {
        hist_draw = true;
        hist_x = 580;
        hist_y = 340;
        waveform_draw = true;
        waveform_x = 360;
        waveform_y = 174;
        waveform_bg = 0x26;
      })
      growing
      (λ a. 7)).1
    ≡ 1
unfolding draw_pictures hist_draw_image waveform_draw_image
both_drawn = refl
