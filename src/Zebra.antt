-- ===== src/Zebra.antt =====
-- zebra.c: the histogram and the waveform of a frame. The frame buffer is read by words of two pixels.
pub mod Histogram
pub mod Overlay
pub mod Edge
pub mod Picture
pub mod Task
mod Tests
use magic_lantern.Common.{
  ℕ, zero, suc, ◌+◌, ◌-◌, ◌*◌, ◌/◌, ◌%◌, Bool, not, ◌&&◌, ltb, ◌==◌, if◌then◌else◌,
}
use magic_lantern.Common.Memory.{update}
use magic_lantern.Common.Word.{u32}

-- `hist`, `hist_max` and `waveform`. A count is below 2 ^ 32, since a frame has fewer pixels.
pub record Hist : Type 0 where
  pub hist : ℕ → ℕ
  pub hist_max : ℕ
  pub waveform : ℕ → ℕ → ℕ

abbrev pub hist_width : ℕ
hist_width = 128

abbrev pub hist_height : ℕ
hist_height = 64

abbrev pub waveform_width : ℕ
waveform_width = 360

abbrev pub waveform_height : ℕ
waveform_height = 256

-- The average of the two pixels of a word.
abbrev pub average : ℕ → ℕ
average pixel = (pixel / 65536 % 65536 + pixel % 65536) / 2

-- The body of the loops of `hist_build`.
unfoldable pub hist_pixel : ℕ → ℕ → ℕ → Hist → Hist
hist_pixel width x pixel h =
    let p = average pixel in
    let hist_level = p * hist_width / 65536 in
    let count = h.hist hist_level + 1 in
    let column = x * waveform_width / width in
    let level = p * waveform_height / 65536 in
    record {
      hist = update h.hist hist_level count;
      hist_max = if not (hist_level == 0) && ltb h.hist_max count then count else h.hist_max;
      waveform =
          update h.waveform column (update (h.waveform column) level (h.waveform column level + 1));
    }

-- `for( x=0 ; x<width ; x += 2 )`, after `done` rounds.
unfoldable pub hist_line : ℕ → ℕ → (ℕ → ℕ) → ℕ → Hist → Hist
hist_line zero width memory v_row h = h
hist_line (suc done) width memory v_row h =
    hist_pixel width (done * 2) (memory (v_row + done)) (hist_line done width memory v_row h)

-- The loop over the lines, after `done` of them. It begins at the first line of the buffer.
unfoldable pub hist_lines : ℕ → ℕ → ℕ → (ℕ → ℕ) → ℕ → Hist → Hist
hist_lines zero width pitch memory v_row h = h
hist_lines (suc done) width pitch memory v_row h =
    hist_line ((width + 1) / 2) width memory (v_row + done * (pitch / 2))
      (hist_lines done width pitch memory v_row h)

-- `hist_build`: from `vram_start_line` to `vram_end_line`.
unfoldable pub hist_build : ℕ → ℕ → (ℕ → ℕ) → ℕ → Hist
hist_build width pitch memory v_row =
    hist_lines (380 - 33) width pitch memory v_row
      (record { hist = λ i. 0; hist_max = 0; waveform = λ c l. 0 })

-- `size` in `hist_draw_image`, a product of 32 bits, and the pixel `y` from the bottom of a column.
unfoldable pub bar_size : Hist → ℕ → ℕ
bar_size h i = u32 (h.hist i * hist_height) / (if h.hist_max == 0 then 1 else h.hist_max)

unfoldable pub bar_pixel : Hist → ℕ → ℕ → ℕ
unfolding bar_size
bar_pixel h i y = if ltb (bar_size h i) y then 0x03 else 0x01
