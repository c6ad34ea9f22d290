-- ===== src/Bitmap/Tests.antt =====
-- The bitmap memory and the fonts at concrete inputs.
use magic_lantern.Common.{
  length, ℕ, ◌+◌, ◌-◌, ◌*◌, ◌%◌, ◌==◌, ◌≡◌, ◌≢◌, refl, Option, none, some, [], ◌∷◌, arith, ltb,
  if◌then◌else◌,
}
use magic_lantern.Bitmap.{Display, CanonFont, item_of, bmp_puts}
use magic_lantern.Bitmap.Glyph.{
  CanonChar, has_no_color, has_pixel, canon_char_draw, canon_char_draw-is_in_rect,
}
use mathlib.Core.Option
use magic_lantern.Bitmap.Hexdump.{hex_lines, bmp_hexdump}
use magic_lantern.Bitmap.Layout.{layout, bmp_puts-layout}
use magic_lantern.Bitmap.Load.{Outcome, dma_held, bmp_load, bmp_load_lem}

abbrev display : Display
display = record { vram = 4096; width = 720; pitch = 960; height = 480 }

-- A font of 96 characters, whose offsets are 20 bytes apart.
abbrev font : CanonFont
font = record {
  magic = 0x544E46;
  charmap_size = 384;
  bitmap_size = 4000;
  words = λ i. if ltb i 96 then i + 0x20 else (i - 96) * 20;
}

abbrev width_of : ℕ → Option ℕ
width_of c = if ltb c 0x20 then none else some 12

-- "A", a tab, "B", a new line and "C".
bmp_puts-layout_example : bmp_puts width_of 20 4096 960 100 7 (65 ∷ 9 ∷ 66 ∷ 10 ∷ 67 ∷ []) ≡ (
  (112, 27),
  (4096 + 7 * 960 + 100, 65) ∷ (4096 + 7 * 960 + 112, 66) ∷ (4096 + 27 * 960 + 100, 67) ∷ [],
)
unfolding layout item_of
bmp_puts-layout_example =
    bmp_puts-layout width_of 20 4096 960 100 7 (65 ∷ 9 ∷ 66 ∷ 10 ∷ 67 ∷ []) (ground arith) refl

abbrev cut_short : Outcome
cut_short = record {
  file_size = some 100;
  dma = 64;
  read = some 90;
  signature = 0x4D42;
  image = 54;
  fast = 128;
}

bmp_load_example :
    ((bmp_load cut_short).0 ≡ none)
    × (cut_short.dma ≢ 0 → dma_held 0 (bmp_load cut_short).1 ≡ some 0)
bmp_load_example = bmp_load_lem cut_short 100 refl

-- A bar of one column in a box of 12, white on red.
abbrev bar : CanonChar
bar = record {
  width = 9;
  height = 20;
  display_width = 12;
  xoff = 1;
  yoff = 2;
  bitmap = λ i. if i % 2 == 0 then 0x08 else 0;
}

canon_char_draw-is_in_rect_example :
    canon_char_draw 960 24 bar 0x20801 (4096 + 30 * 960 + 100) (λ a. 7) (4096 + 40 * 960 + 105) ≡ 1
unfolding has_no_color has_pixel
canon_char_draw-is_in_rect_example =
    canon_char_draw-is_in_rect 4096 960 24 bar 0x20801 100 30 (λ a. 7) 105 40 (omega arith)
      (omega arith) (omega arith)

-- Twenty bytes take two lines.
hexdump_lines : Option.map (λ l. length l) (bmp_hexdump 2 (λ a. a) 12 30 1000 20) ≡ some 2
unfolding bmp_hexdump hex_lines
hexdump_lines = refl
