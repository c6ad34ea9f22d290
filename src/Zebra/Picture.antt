-- ===== src/Zebra/Picture.antt =====
-- The pictures of the histogram and of the waveform (zebra.c), drawn on the bitmap memory of bytes.
pub mod Bars
pub mod Mirror
mod Tests
use magic_lantern.Common.{
  ℕ, zero, suc, ◌+◌, ◌-◌, ◌*◌, ◌/◌, ◌%◌, ◌^◌, Bool, not, ltb, ◌==◌, if◌then◌else◌, bit_or,
}
use magic_lantern.Common.Memory.{update}
use magic_lantern.Common.Word.{u32}
use magic_lantern.Bitmap.{Display, bmp_fill}
use magic_lantern.Zebra.{Hist, hist_width, hist_height, waveform_width, waveform_height, bar_pixel}

-- `x_origin &= ~3`
abbrev pub align_4 : ℕ → ℕ
align_4 x = x / 4 * 4

-- `for( y=hist_height ; y>0 ; y-- , col += bmp_pitch() )`, after `done` rounds.
unfoldable pub draw_column : ℕ → ℕ → ℕ → (ℕ → ℕ) → (ℕ → ℕ) → ℕ → ℕ
draw_column zero pitch col pixel memory = memory
draw_column (suc done) pitch col pixel memory =
    update (draw_column done pitch col pixel memory) (col + done * pitch)
      (pixel (hist_height - done))

-- The loop over the columns, after `done` of them.
unfoldable pub draw_columns : ℕ → ℕ → ℕ → Hist → (ℕ → ℕ) → ℕ → ℕ
unfolding draw_column
draw_columns zero pitch row h memory = memory
draw_columns (suc done) pitch row h memory =
    draw_column hist_height pitch (row + done) (bar_pixel h done)
      (draw_columns done pitch row h memory)

-- The memory, and `hist_max` afterwards.
unfoldable pub hist_draw_image : Display → ℕ → ℕ → Hist → (ℕ → ℕ) → (ℕ → ℕ) × ℕ
unfolding draw_columns
hist_draw_image d x_origin y_origin h memory =
    let x = align_4 x_origin in
    let bars = draw_columns hist_width d.pitch (d.vram + x + y_origin * d.pitch) h memory in
    (bmp_fill d 0x03 (x + hist_width) y_origin 4 hist_height bars, 0)

-- The color of a count, in the row of the level `y`; `waveform_bg` is the setting for the transparent ones.
unfoldable pub wave_color : ℕ → ℕ → ℕ → ℕ
wave_color waveform_bg y n =
    let count = u32 (n * 42) / 128 in
    if ltb 42 count
    then 0x0F
    else if ltb 0 count
    then count + 0x26
    else if y == waveform_height * 1 / 4
    then 0x0B
    else if y == waveform_height * 2 / 4
    then 0xE
    else if y == waveform_height * 3 / 4
    then 0x0B
    else waveform_bg

-- `*(uint32_t*) a = v;`, the lowest byte first.
abbrev pub store_word : (ℕ → ℕ) → ℕ → ℕ → ℕ → ℕ
store_word memory a v =
    update
      (update (update (update memory a (v % 256)) (a + 1) (v / 2 ^ 8 % 256)) (a + 2)
        (v / 2 ^ 16 % 256))
      (a + 3) (v / 2 ^ 24 % 256)

-- `pixel`, and the memory.
pub record WaveLine : Type 0 where
  pub pixel : ℕ
  pub memory : ℕ → ℕ

-- The body of the loop over `i`.
unfoldable pub wave_pixel : ℕ → ℕ → ℕ → WaveLine → WaveLine
wave_pixel row i color l =
    let pixel = bit_or (u32 (l.pixel * 2 ^ 8)) color in
    if not (i % 4 == 3)
    then record l { pixel = pixel }
    else record { pixel = 0; memory = store_word l.memory (row + i / 4 * 4) pixel }

-- `for( i=0 ; i<waveform_width ; i++ )`, after `done` rounds.
unfoldable pub wave_line : ℕ → ℕ → (ℕ → ℕ) → (ℕ → ℕ) → WaveLine
unfolding wave_pixel
wave_line zero row color memory = record { pixel = 0; memory = memory }
wave_line (suc done) row color memory =
    wave_pixel row done (color done) (wave_line done row color memory)

-- The loop over the levels, from `waveform_height-1` down to 1, after `done` rounds.
unfoldable pub wave_lines : ℕ → ℕ → ℕ → ℕ → Hist → (ℕ → ℕ) → ℕ → ℕ
unfolding wave_line wave_color
wave_lines zero waveform_bg pitch row h memory = memory
wave_lines (suc done) waveform_bg pitch row h memory =
    let y = waveform_height - 1 - done in
    (wave_line waveform_width (row + done * pitch) (λ i. wave_color waveform_bg y (h.waveform i y))
      (wave_lines done waveform_bg pitch row h memory)).memory

-- The memory, and `hist_max`.
unfoldable pub waveform_draw_image : Display → ℕ → ℕ → ℕ → Hist → (ℕ → ℕ) → (ℕ → ℕ) × ℕ
unfolding wave_lines
waveform_draw_image d waveform_bg x_origin y_origin h memory = (
  wave_lines (waveform_height - 1) waveform_bg d.pitch
      (d.vram + align_4 x_origin + y_origin * d.pitch) h memory,
  if h.hist_max == 0 then 1 else h.hist_max,
)

-- The end of `draw_zebra`: the pictures that are switched on. The histogram leaves 0 in `hist_max`, and the waveform
-- sets it to 1.
pub record Pictures : Type 0 where
  pub hist_draw : Bool
  pub hist_x : ℕ
  pub hist_y : ℕ
  pub waveform_draw : Bool
  pub waveform_x : ℕ
  pub waveform_y : ℕ
  pub waveform_bg : ℕ

unfoldable pub draw_pictures : Display → Pictures → Hist → (ℕ → ℕ) → (ℕ → ℕ) × ℕ
unfolding hist_draw_image waveform_draw_image
draw_pictures d s h memory =
    let (m, top) =
      if s.hist_draw then hist_draw_image d s.hist_x s.hist_y h memory else (memory, h.hist_max) in
    if s.waveform_draw
    then waveform_draw_image d s.waveform_bg s.waveform_x s.waveform_y (record h { hist_max = top })
        m
    else (m, top)

-- The level of the zebras goes on in the menu.
unfoldable pub zebra_toggle : ℕ → ℕ
zebra_toggle level = u32 (level + 0x4000) / 2 ^ 12 % 2 ^ 4 * 2 ^ 12
