-- ===== src/Zebra/Picture/Mirror.antt =====
-- What the picture of the waveform shows: the four columns of a word stand in it in the reverse order.
use magic_lantern.Common.{
  ℕ, zero, suc, ◌+◌, ◌-◌, ◌*◌, ◌/◌, ◌%◌, ◌^◌, ◌≤◌, ◌<◌, ◌≡◌, ◌≢◌, refl, ap, ◌∙◌, true, false, arith,
  ◌==◌, if◌then◌else◌,
}
use magic_lantern.Common.Memory.{update, fill, fill_rows}
use magic_lantern.Common.Screen.{is_in_rect, fill_rows_at}
use magic_lantern.Common.Bits.{bit_or_shifted}
use magic_lantern.Common.Word.{u32}
use magic_lantern.Bitmap.{Display}
use magic_lantern.Zebra.{Hist, waveform_width}
use magic_lantern.Zebra.Picture.{
  align_4, wave_color, store_word, wave_pixel, wave_line, wave_lines, waveform_draw_image,
}

-- The column whose color stands at the place `i`.
abbrev pub mirror : ℕ → ℕ
mirror i = i / 4 * 4 + (3 - i % 4)

-- A column that does not end its word, and one that does.
wave_pixel_within :
    (row i color p : ℕ) (memory : ℕ → ℕ)
    → i % 4 ≢ 3
    → p < 2 ^ 24
    → color < 256
    → wave_pixel row i color (record { pixel = p; memory = memory })
      ≡ record { pixel = p * 2 ^ 8 + color; memory = memory }
unfolding wave_pixel
wave_pixel_within row i color p memory within small byte =
    let shifted : u32 (p * 2 ^ 8) ≡ p * 2 ^ 8 = omega (arith, small) in
    let test : (i % 4 == 3) ≡ false = ground (arith, within) in
    rw (test, shifted, bit_or_shifted 8 p color byte) refl

wave_pixel_end :
    (row i color p : ℕ) (memory : ℕ → ℕ)
    → i % 4 ≡ 3
    → p < 2 ^ 24
    → color < 256
    → wave_pixel row i color (record { pixel = p; memory = memory })
      ≡ record { pixel = 0; memory = store_word memory (row + i / 4 * 4) (p * 2 ^ 8 + color) }
unfolding wave_pixel
wave_pixel_end row i color p memory end small byte =
    let shifted : u32 (p * 2 ^ 8) ≡ p * 2 ^ 8 = omega (arith, small) in
    let test : (i % 4 == 3) ≡ true = ground (arith, end) in
    rw (test, shifted, bit_or_shifted 8 p color byte) refl

-- Four columns.
four_lem :
    (row n c0 c1 c2 c3 : ℕ) (memory : ℕ → ℕ)
    → n % 4 ≡ 0
    → c0 < 256
    → c1 < 256
    → c2 < 256
    → c3 < 256
    → wave_pixel row (suc (suc (suc n))) c3 (
        wave_pixel row
          (suc (suc n))
          c2
          (wave_pixel row (suc n) c1 (wave_pixel row n c0 (record { pixel = 0; memory = memory }))))
      ≡ record {
        pixel = 0;
        memory =
            update
              (update (update (update memory (row + n) c3) (row + suc n) c2) (row + suc (suc n)) c1)
              (row + suc (suc (suc n)))
              c0;
      }
four_lem row n c0 c1 c2 c3 memory whole h0 h1 h2 h3 =
    let p1 = 0 * 2 ^ 8 + c0 in
    let p2 = p1 * 2 ^ 8 + c1 in
    let p3 = p2 * 2 ^ 8 + c2 in
    let w = p3 * 2 ^ 8 + c3 in
    let first = wave_pixel_within row n c0 0 memory (omega (arith, whole)) (omega arith) h0 in
    let second =
      wave_pixel_within row (suc n) c1 p1 memory (omega (arith, whole)) (omega (arith, h0)) h1 in
    let third =
      wave_pixel_within row (suc (suc n)) c2 p2 memory (omega (arith, whole))
        (omega (arith, h0, h1)) h2 in
    let fourth =
      wave_pixel_end row (suc (suc (suc n))) c3 p3 memory (omega (arith, whole))
        (omega (arith, h0, h1, h2)) h3 in
    let b0 : w % 256 ≡ c3 = omega (arith, h3) in
    let b1 : w / 2 ^ 8 % 256 ≡ c2 = omega (arith, h3, h2) in
    let b2 : w / 2 ^ 16 % 256 ≡ c1 = omega (arith, h3, h2, h1) in
    let b3 : w / 2 ^ 24 % 256 ≡ c0 = omega (arith, h3, h2, h1, h0) in
    let a0 : row + suc (suc (suc n)) / 4 * 4 ≡ row + n = omega (arith, whole) in
    let a1 : row + n + 1 ≡ row + suc n = omega arith in
    let a2 : row + n + 2 ≡ row + suc (suc n) = omega arith in
    let a3 : row + n + 3 ≡ row + suc (suc (suc n)) = omega arith in
    rw (first, second, third, fourth, a0, b0, b1, b2, b3, a1, a2, a3) refl

-- Four times as many.
unfoldable quads : ℕ → ℕ
quads zero = 0
quads (suc g) = suc (suc (suc (suc (quads g))))

quads_whole : (g : ℕ) → quads g % 4 ≡ 0
unfolding quads
quads_whole zero = refl
quads_whole (suc g) = let ih = quads_whole g in omega (arith, ih)

mirror_four :
    (n : ℕ)
    → n % 4 ≡ 0
    → (mirror n ≡ suc (suc (suc n)))
      × (mirror (suc n) ≡ suc (suc n))
      × (mirror (suc (suc n)) ≡ suc n)
      × (mirror (suc (suc (suc n))) ≡ n)
mirror_four n whole =
    (omega (arith, whole), omega (arith, whole), omega (arith, whole), omega (arith, whole))

wave_line-fill :
    (g row : ℕ) (color memory : ℕ → ℕ)
    → ((i : ℕ) → color i < 256)
    → wave_line (quads g) row color memory
      ≡ record { pixel = 0; memory = fill (quads g) row (λ i. color (mirror i)) memory }
unfolding wave_line fill quads
wave_line-fill zero row color memory bytes = refl
wave_line-fill (suc g) row color memory bytes =
    let n = quads g in
    let (m0, m1, m2, m3) = mirror_four n (quads_whole g) in
    let four =
      four_lem row n (color n) (color (suc n)) (color (suc (suc n))) (color (suc (suc (suc n))))
        (fill n row (λ i. color (mirror i)) memory) (quads_whole g) (bytes _) (bytes _) (bytes _)
        (bytes _) in
    ap
      (λ l. wave_pixel row (suc (suc (suc n))) (color (suc (suc (suc n)))) (
        wave_pixel row (suc (suc n)) (color (suc (suc n)))
          (wave_pixel row (suc n) (color (suc n)) (wave_pixel row n (color n) l))))
      (wave_line-fill g row color memory bytes)
    ∙ four
    ∙ rw (m0, m1, m2, m3) refl

wave_color_byte : (waveform_bg y n : ℕ) → waveform_bg < 256 → wave_color waveform_bg y n < 256
unfolding wave_color
wave_color_byte waveform_bg y n h = ground (arith, h)

-- The lines are a rectangle that is filled point by point.
wave_lines-fill_rows :
    (done waveform_bg pitch row : ℕ) (h : Hist) (memory : ℕ → ℕ)
    → waveform_bg < 256
    → wave_lines done waveform_bg pitch row h memory
      ≡ fill_rows done pitch waveform_width row
          (λ k i. wave_color waveform_bg (255 - k) (h.waveform (mirror i) (255 - k)))
          memory
unfolding wave_lines fill_rows quads
wave_lines-fill_rows zero waveform_bg pitch row h memory byte = refl
wave_lines-fill_rows (suc done) waveform_bg pitch row h memory byte =
    let color : ℕ → ℕ = λ i. wave_color waveform_bg (255 - done) (h.waveform i (255 - done)) in
    let ih = wave_lines-fill_rows done waveform_bg pitch row h memory byte in
    ap (λ l. l.memory)
      (wave_line-fill 90 (row + done * pitch) color (wave_lines done waveform_bg pitch row h memory)
        (λ i. wave_color_byte waveform_bg (255 - done) (h.waveform i (255 - done)) byte))
    ∙ ap (λ m. fill waveform_width (row + done * pitch) (λ i. color (mirror i)) m) ih

-- For a background that is a byte and a picture that fits in the lines: the line `k` of the picture of the waveform shows
-- the level 255 - k, and in it the place `i` the color of the column that the reversal of the four in `i`'s word puts
-- there; every other point of the lines is as before.
pub waveform_draw_image-mirror :
    (d : Display) (waveform_bg x_origin y_origin : ℕ) (h : Hist) (memory : ℕ → ℕ) (px py : ℕ)
    → waveform_bg < 256
    → align_4 x_origin + waveform_width ≤ d.pitch
    → px < d.pitch
    → let x = align_4 x_origin in
      let y = 255 - (py - y_origin) in
      (waveform_draw_image d waveform_bg x_origin y_origin h memory).0 (d.vram + py * d.pitch + px)
      ≡ (if is_in_rect x waveform_width y_origin 255 px py
          then wave_color waveform_bg y (h.waveform (mirror (px - x)) y)
          else memory (d.vram + py * d.pitch + px))
unfolding waveform_draw_image
waveform_draw_image-mirror d waveform_bg x_origin y_origin h memory px py byte fits in_line =
    let x = align_4 x_origin in
    let cell : ℕ → ℕ → ℕ =
      λ k i. wave_color waveform_bg (255 - k) (h.waveform (mirror i) (255 - k)) in
    let place : d.vram + x + y_origin * d.pitch ≡ d.vram + y_origin * d.pitch + x = omega arith in
    ap (λ m. m (d.vram + py * d.pitch + px))
      (wave_lines-fill_rows 255 waveform_bg d.pitch (d.vram + x + y_origin * d.pitch) h memory byte)
    ∙ ap (λ a. fill_rows 255 d.pitch waveform_width a cell memory (d.vram + py * d.pitch + px))
        place
    ∙ fill_rows_at d.vram d.pitch x waveform_width cell memory px py y_origin 255 fits in_line
