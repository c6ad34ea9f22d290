-- ===== src/Bitmap.antt =====
-- bmp.c: the bitmap memory of the display, by bytes, and the fonts of the firmware that are drawn in it.
pub mod Fill
pub mod Font
pub mod Glyph
pub mod Hexdump
pub mod Layout
pub mod Load
mod Tests
use magic_lantern.Common.{
  ℕ, zero, suc, ◌+◌, ◌-◌, ◌*◌, ◌/◌, ◌%◌, ◌^◌, Bool, true, false, not, ◌&&◌, ◌||◌, Option, none,
  some, List, [], ◌∷◌, ltb, leb, ◌==◌, if◌then◌else◌,
}
use magic_lantern.Common.Memory.{fill_rows}
use magic_lantern.Common.Word.{u32}
use mathlib.Core.Option

-- `bmp_vram()` (0 if there is none), and the size of the display in pixels, which are bytes.
pub record Display : Type 0 where
  pub vram : ℕ
  pub width : ℕ
  pub pitch : ℕ
  pub height : ℕ

-- The width that `bmp_fill` clips to, and the end of its lines, a `uint16_t`.
unfoldable pub clip_width : ℕ → ℕ → ℕ → ℕ
clip_width width start w = if ltb width (u32 (start + w)) then u32 (width + 2 ^ 32 - start) else w

unfoldable pub clip_end : ℕ → ℕ → ℕ → ℕ
clip_end height y h = let y_end = (y + h) % 2 ^ 16 in if ltb height y_end then height else y_end

-- `bmp_fill`. A word has the color in its four bytes, so `w/4` words are `w/4*4` bytes.
unfoldable pub bmp_fill : Display → ℕ → ℕ → ℕ → ℕ → ℕ → (ℕ → ℕ) → ℕ → ℕ
bmp_fill d color x y w h memory =
    let w' = clip_width d.width x w in
    let y' = if ltb d.height y then d.height else y in
    let y_end = clip_end d.height y' h in
    if (w' == 0) || (h == 0)
    then memory
    else if (d.vram == 0) || (d.vram % 2 == 1)
    then memory
    else fill_rows (y_end - y') (d.pitch / 4 * 4) (w' / 4 * 4) (d.vram + y' * d.pitch + x)
        (λ j i. color) memory

-- A font in the ROM: `words` are the words from `charmap_offset` on, of which the first half of
-- `charmap_size/4 * 2` are the codes of the characters, and the second half their offsets.
pub record CanonFont : Type 0 where
  pub magic : ℕ
  pub charmap_size : ℕ
  pub bitmap_size : ℕ
  pub words : ℕ → ℕ

abbrev pub charmap : CanonFont → ℕ → ℕ
charmap font i = font.words i

abbrev pub offsets : CanonFont → ℕ → ℕ
offsets font i = font.words (font.charmap_size / 4 + i)

-- The slow linear search, from `i` on; -1 if the character is not there.
unfoldable pub search_char : ℕ → CanonFont → ℕ → ℕ → ℕ
search_char zero font c i = 2 ^ 32 - 1
search_char (suc left) font c i =
    let rest = search_char left font c (i + 1) in
    if charmap font i == c then offsets font i else rest

-- `canon_char_lookup`: the offset of the character among `chars`; `none` is NULL.
unfoldable pub canon_char_lookup : CanonFont → ℕ → Option ℕ
unfolding search_char
canon_char_lookup font c =
    let offset =
      if leb 0x20 c && leb c 0x7F && (charmap font (c - 0x20) == c)
      then offsets font (c - 0x20)
      else search_char (font.charmap_size / 4) font c 0 in
    if not (font.magic == 0x544E46)
    then none
    else if ltb font.bitmap_size offset
    then none
    else some offset

-- The cursor of `bmp_puts`: the two places in memory that it keeps, and the coordinates it reports.
pub record Cursor : Type 0 where
  pub first_row : ℕ
  pub row : ℕ
  pub x : ℕ
  pub y : ℕ

-- What `bmp_puts` does with a character: a new line, nothing if the font does not have it, or a glyph of some
-- width.
pub data Item : Type 0 where
  newline : Item
  missing : Item
  glyph : ℕ → Item

-- `width_of` is `display_width` of a character that the font has.
unfoldable pub item_of : (ℕ → Option ℕ) → ℕ → Item
item_of width_of c =
    if c == 10 then newline else elim (width_of c) [ none ↦ missing | some w ↦ glyph w ]

abbrev pub moved_on : ℕ → ℕ → ℕ → Item → Cursor → Cursor
moved_on space_height pitch initial_x newline k = record {
  first_row = k.first_row + pitch * space_height;
  row = k.first_row + pitch * space_height;
  x = initial_x;
  y = k.y + space_height;
}
moved_on space_height pitch initial_x missing k = k
moved_on space_height pitch initial_x (glyph w) k = record k { row = k.row + w; x = k.x + w }

-- The glyphs, each with its place in memory.
abbrev pub drawn_at : Item → ℕ → ℕ → List (ℕ × ℕ) → List (ℕ × ℕ)
drawn_at newline row c more = more
drawn_at missing row c more = more
drawn_at (glyph w) row c more = (row, c) ∷ more

-- The loop of `bmp_puts`; `space_height` is the height of a space.
unfoldable pub put_chars : (ℕ → Option ℕ) → ℕ → ℕ → ℕ → List ℕ → Cursor → Cursor × List (ℕ × ℕ)
put_chars width_of space_height pitch initial_x [] k = (k, [])
put_chars width_of space_height pitch initial_x (c ∷ s) k =
    let (end, more) =
      put_chars width_of space_height pitch initial_x s
        (moved_on space_height pitch initial_x (item_of width_of c) k) in
    (end, drawn_at (item_of width_of c) k.row c more)

-- `bmp_puts`: the coordinates at the end, and the glyphs drawn.
unfoldable pub bmp_puts : (ℕ → Option ℕ) → ℕ → ℕ → ℕ → ℕ → ℕ → List ℕ → (ℕ × ℕ) × List (ℕ × ℕ)
bmp_puts width_of space_height vram pitch x y s =
    let row = vram + y * pitch + x in
    let (end, glyphs) =
      put_chars width_of space_height pitch x s
        (record { first_row = row; row = row; x = x; y = y }) in
    if (vram == 0) || (vram % 2 == 1) then ((x, y), []) else ((end.x, end.y), glyphs)
