-- ===== src/Bitmap/Glyph.antt =====
-- `canon_char_draw` of bmp.c: a character of a font of the firmware, drawn on the bitmap memory.
use magic_lantern.Common.{
  ℕ, ◌+◌, ◌-◌, ◌*◌, ◌/◌, ◌%◌, ◌^◌, ◌≤◌, ◌<◌, ◌≡◌, sym, ap, ◌∙◌, Bool, ◌&&◌, arith, ◌==◌,
  if◌then◌else◌,
}
use magic_lantern.Common.Memory.{fill_rows}
use magic_lantern.Common.Screen.{is_in_rect, fill_rows_at, fill_rows_point}

-- `canon_char_t`; the bitmap is its bytes.
pub record CanonChar : Type 0 where
  pub width : ℕ
  pub height : ℕ
  pub display_width : ℕ
  pub xoff : ℕ
  pub yoff : ℕ
  pub bitmap : ℕ → ℕ

abbrev pub fontspec_fg : ℕ → ℕ
fontspec_fg fontspec = fontspec % 256

abbrev pub fontspec_bg : ℕ → ℕ
fontspec_bg fontspec = fontspec / 256 % 256

abbrev pub color_white : ℕ
color_white = 0x01

abbrev pub color_bg : ℕ
color_bg = 0x03

-- The special case of no colors.
unfoldable pub has_no_color : ℕ → Bool
has_no_color fontspec = (fontspec_fg fontspec == 0) && (fontspec_bg fontspec == 0)

abbrev pub fg_of : ℕ → ℕ
fg_of fontspec = if has_no_color fontspec then color_white else fontspec_fg fontspec

abbrev pub bg_of : ℕ → ℕ
bg_of fontspec = if has_no_color fontspec then color_bg else fontspec_bg fontspec

-- The test `font_row[j / 8] & (0x80 >> (j % 8))`, where `row` is `font_row`. The width of a line, in bytes, is a
-- `uint8_t`.
abbrev pub font_width : CanonChar → ℕ
font_width c = (c.width + 7) / 8 % 256

unfoldable pub has_pixel : CanonChar → ℕ → ℕ → Bool
has_pixel c row j = c.bitmap (row + j / 8) / 2 ^ (7 - j % 8) % 2 == 1

-- `font_height` is `font->height`, for a font that is not NULL; `bmp_vram_row` is a place in the memory of bytes.
unfoldable pub canon_char_draw : ℕ → ℕ → CanonChar → ℕ → ℕ → (ℕ → ℕ) → ℕ → ℕ
unfolding has_pixel
canon_char_draw pitch font_height c fontspec bmp_vram_row memory =
    let fg_color = fg_of fontspec in
    let bg_color = bg_of fontspec in
    let cleared =
      fill_rows font_height pitch c.display_width bmp_vram_row (λ i j. bg_color) memory in
    fill_rows c.height pitch c.width (bmp_vram_row + c.xoff + c.yoff * pitch)
      (λ i j. if has_pixel c (i * font_width c) j then fg_color else bg_color) cleared

-- A character drawn at the point (x, y) of a display, where its box and its bitmap fit in the line: the points of its
-- bitmap have the color of the text where the bit is set, the other points of the bitmap and of the box have the color
-- behind the text, and all others keep theirs.
pub canon_char_draw-is_in_rect :
    (base pitch font_height : ℕ) (c : CanonChar) (fontspec x y : ℕ) (memory : ℕ → ℕ) (px py : ℕ)
    → x + c.display_width ≤ pitch
    → x + c.xoff + c.width ≤ pitch
    → px < pitch
    → canon_char_draw pitch font_height c fontspec
        (base + y * pitch + x)
        memory
        (base + py * pitch + px)
      ≡ (if is_in_rect (x + c.xoff) c.width (y + c.yoff) c.height px py
          then (if has_pixel c ((py - (y + c.yoff)) * font_width c) (px - (x + c.xoff))
              then fg_of fontspec
              else bg_of fontspec)
          else if is_in_rect x c.display_width y font_height px py
          then bg_of fontspec
          else memory (base + py * pitch + px))
unfolding canon_char_draw
canon_char_draw-is_in_rect base pitch font_height c fontspec x y memory px py box bits in_line =
    let row : base + (y + c.yoff) * pitch + (x + c.xoff)
        ≡ base + y * pitch + x + c.xoff + c.yoff * pitch =
      omega arith in
    let cell =
      λ (i j : ℕ). if has_pixel c (i * font_width c) j then fg_of fontspec else bg_of fontspec in
    let cleared =
      fill_rows font_height pitch c.display_width (base + y * pitch + x) (λ i j. bg_of fontspec)
        memory in
    ap (λ a. fill_rows c.height pitch c.width a cell cleared (base + py * pitch + px)) (sym row)
    ∙ fill_rows_at base pitch (x + c.xoff) c.width cell cleared px py (y + c.yoff) c.height bits
        in_line
    ∙ ap
        (λ below.
          if is_in_rect (x + c.xoff) c.width (y + c.yoff) c.height px py
          then cell (py - (y + c.yoff)) (px - (x + c.xoff))
          else below)
        (fill_rows_point base pitch x c.display_width (bg_of fontspec) memory px py box in_line y
          font_height)
