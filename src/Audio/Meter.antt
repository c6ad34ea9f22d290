-- ===== src/Audio/Meter.antt =====
-- The meters of audio.c in the bitmap memory, which is written by words of four pixels: `vram` is the place of
-- its first word, 0 if there is none, and `pitch` the length of a line in bytes.
pub mod Drawn
use magic_lantern.Common.{ℕ, zero, suc, ◌+◌, ◌-◌, ◌*◌, ◌/◌, ◌^◌, Bool, ltb, ◌==◌, if◌then◌else◌}
use magic_lantern.Common.Int.{ℤ, pos, ltb_ℤ, neg_ℕ, ◌*ℤ◌}
use magic_lantern.Common.Memory.{update, fill_rows}
use magic_lantern.Common.Word.{u32, of_int}
use magic_lantern.Audio.{AudioLevel, audio_level_to_db}

-- `color_word` of bmp.h, for a color of 8 bits: the four operands of its `|` have no bit in common.
abbrev pub color_word : ℕ → ℕ
color_word color = color * 2 ^ 24 + color * 2 ^ 16 + color * 2 ^ 8 + color

unfoldable pub db_to_color : ℤ → ℕ
db_to_color db =
    if ltb_ℤ db (neg_ℕ 35)
    then 0x2F
    else if ltb_ℤ db (neg_ℕ 20)
    then 0x06
    else if ltb_ℤ db (neg_ℕ 15)
    then 0x0F
    else 0x0C

unfoldable pub db_peak_to_color : ℤ → ℕ
db_peak_to_color db =
    if ltb_ℤ db (neg_ℕ 35)
    then 0x7F
    else if ltb_ℤ db (neg_ℕ 20)
    then 0x7F
    else if ltb_ℤ db (neg_ℕ 15)
    then 0xAE
    else 0x08

-- `(width + db * 15) / 4`, in `uint32_t`, for a width of 600.
unfoldable pub x_db : ℤ → ℕ
x_db db = u32 (600 + of_int (db *ℤ pos 15)) / 4

-- The word that the inner loop writes at `x`. COLOR_BG is 3.
unfoldable pub meter_word : ℤ → ℤ → ℕ → ℕ
unfolding x_db db_to_color db_peak_to_color
meter_word db_avg db_peak x =
    if ltb x (x_db db_avg)
    then color_word (db_to_color db_avg)
    else if ltb x (x_db db_peak)
    then color_word 0x03
    else if ltb x (x_db db_peak + 4)
    then color_word (db_peak_to_color db_peak)
    else color_word 0x03

-- `draw_meter`, without the number that it prints.
unfoldable pub draw_meter : (ℕ → ℤ) → ℕ → ℕ → ℕ → AudioLevel → (ℕ → ℕ) → ℕ → ℕ
draw_meter audio_thresholds vram pitch y_origin level memory =
    let db_avg = audio_level_to_db audio_thresholds level.avg in
    let db_peak = audio_level_to_db audio_thresholds level.peak in
    if vram == 0
    then memory
    else fill_rows 12 (pitch / 4) 150 (vram + pitch / 4 * y_origin + 8)
        (λ y x. meter_word db_avg db_peak x) memory

-- The column of the tick at `db`: `(width + db * 15) / 4` for a width of 600 + 8.
unfoldable pub tick_column : ℤ → ℕ
tick_column db = u32 (608 + of_int (db *ℤ pos 15)) / 4

-- `for( db=-40; db<= 0 ; db+=5 )`, with `left` rounds done.
unfoldable pub draw_tick_row : ℕ → ℕ → (ℕ → ℕ) → ℕ → ℕ
draw_tick_row zero row memory = memory
draw_tick_row (suc done) row memory =
    update (draw_tick_row done row memory) (row + tick_column (neg_ℕ (40 - done * 5)))
      (color_word 0x01)

unfoldable pub draw_tick_rows : ℕ → ℕ → ℕ → (ℕ → ℕ) → ℕ → ℕ
draw_tick_rows zero pitch row memory = memory
draw_tick_rows (suc tick_height) pitch row memory =
    draw_tick_rows tick_height pitch (row + pitch / 4) (draw_tick_row 9 row memory)

unfoldable pub draw_ticks : ℕ → ℕ → ℕ → ℕ → (ℕ → ℕ) → ℕ → ℕ
draw_ticks vram pitch y tick_height memory =
    if vram == 0 then memory else draw_tick_rows tick_height pitch (vram + pitch / 4 * y) memory

-- `draw_meters`: the two channels, with the ticks between them.
unfoldable pub draw_meters : (ℕ → ℤ) → ℕ → ℕ → AudioLevel → AudioLevel → (ℕ → ℕ) → ℕ → ℕ
draw_meters audio_thresholds vram pitch left right memory =
    draw_meter audio_thresholds vram pitch 16 right
      (draw_ticks vram pitch 12 4 (draw_meter audio_thresholds vram pitch 0 left memory))
