-- ===== src/Zebra/Overlay.antt =====
-- `draw_zebra` of zebra.c: which of the overlays a pair of pixels gets. A place of the bitmap is two pixels.
pub mod Pass
use magic_lantern.Common.{
  ℕ, zero, suc, ◌+◌, ◌-◌, ◌*◌, ◌/◌, ◌%◌, ◌^◌, Bool, true, false, not, ◌&&◌, ◌||◌, Option, none,
  some, bit_or, ltb, leb, ◌==◌, if◌then◌else◌,
}
use magic_lantern.Common.Memory.{update}
use magic_lantern.Common.Word.{u32}

-- A bitmap file with crop marks, from its `image` on.
pub record Cropmarks : Type 0 where
  pub width : ℕ
  pub height : ℕ
  pub image : ℕ → ℕ

-- The configuration; `cropmarks` is `none` if there is no file.
pub record Settings : Type 0 where
  pub zebra_draw : Bool
  pub zebra_level : ℕ
  pub crop_draw : Bool
  pub cropmarks : Option Cropmarks
  pub edge_draw : Bool
  pub hist_draw : Bool
  pub hist_x : ℕ
  pub hist_y : ℕ
  pub waveform_draw : Bool
  pub waveform_x : ℕ
  pub waveform_y : ℕ
  pub timecode_x : ℕ
  pub timecode_y : ℕ
  pub timecode_width : ℕ
  pub timecode_height : ℕ

-- A test `x >= x0 && x < x0 + w` of `unsigned` numbers.
abbrev pub is_between : ℕ → ℕ → ℕ → Bool
is_between x0 w x = leb x0 x && ltb x (u32 (x0 + w))

-- The regions of the histogram, the waveform and the timecode, which are skipped.
unfoldable pub is_reserved : Settings → ℕ → ℕ → Bool
is_reserved c x y =
    (c.hist_draw && is_between c.hist_y 64 y && is_between c.hist_x (128 + 4) x)
    || (c.waveform_draw && is_between c.waveform_y 256 y && is_between c.waveform_x 360 x)
    || (is_between c.timecode_y c.timecode_height y && is_between c.timecode_x c.timecode_width x)

-- `check_crop`: the word it writes. The offset is a 32-bit word.
unfoldable pub check_crop : Option Cropmarks → ℕ → ℕ → Option ℕ
check_crop none x y = none
check_crop (some marks) x y =
    let at = u32 (x + marks.width * u32 (marks.height + 2 ^ 32 - y)) in
    let pix = marks.image at + marks.image (at + 1) * 256 in if pix == 0 then none else some pix

-- `check_edge`, for the result of `edge_detect`: `grad & 0xF8F8` are the upper five bits of its two bytes, and
-- 0x7070 has the bits 4 to 6 and 12 to 14.
unfoldable pub check_edge : ℕ → Option ℕ
check_edge grad =
    let masked = grad / 2048 % 32 * 2048 + grad / 8 % 32 * 8 in
    if masked == 0 then none else some (bit_or 0x7070 (masked / 8))

-- `check_zebra`. COLOR_BG is 3.
unfoldable pub check_zebra : ℕ → ℕ → ℕ → ℕ → Option ℕ
check_zebra zebra_level pixel x y =
    let p0 = pixel / 65536 % 65536 in
    let p1 = pixel % 65536 in
    let zag = (y / 8 + x / 8) % 2 in
    if ltb p0 zebra_level && ltb p1 zebra_level
    then none
    else some (if zag == 1 then 0x0303 else 0x5F5F)

-- A frame: the two pixels at `x` in line `y`, and `edge_detect` there.
pub record Frame : Type 0 where
  pub pixels : ℕ → ℕ → ℕ
  pub gradient : ℕ → ℕ → ℕ

-- The first overlay that draws.
abbrev pub first_of : Option ℕ → ℕ → ℕ
first_of none w = w
first_of (some v) w = v

abbrev pub if_on : Bool → Option ℕ → Option ℕ
if_on on o = if on then o else none

-- What a pair of pixels gets: nothing in a region that is skipped, else the word of the crop marks, of the edges or
-- of the zebras, else it is cleared.
unfoldable pub overlay_word : Settings → Frame → ℕ → ℕ → Option ℕ
overlay_word c f x y =
    if is_reserved c x y
    then none
    else some (
        first_of (if_on c.crop_draw (check_crop c.cropmarks x y)) (
          first_of (if_on c.edge_draw (check_edge (f.gradient x y)))
            (first_of (if_on c.zebra_draw (check_zebra c.zebra_level (f.pixels x y) x y)) 0)))

-- The bitmap, and the rounds that are left until the menu is drawn or the live view ends.
pub record Screen : Type 0 where
  pub memory : ℕ → ℕ
  pub left : ℕ

abbrev pub shown : Option ℕ → (ℕ → ℕ) → ℕ → ℕ → ℕ
shown none memory a = memory
shown (some w) memory a = update memory a w

-- `for( x=2 ; x < width-2 ; x+=2 )`, after `done` rounds, over the words `word` at each `x`.
unfoldable pub overlay_line : ℕ → (ℕ → Option ℕ) → ℕ → Screen → Screen
overlay_line zero word b_row s = s
overlay_line (suc done) word b_row s =
    let t = overlay_line done word b_row s in
    if t.left == 0 then t else record {
      memory = shown (word (2 + done * 2)) t.memory (b_row + 1 + done);
      left = t.left - 1;
    }

-- The lines from 33 on, after `done` of them; `pitch` is the length of a line in places.
unfoldable pub overlay_lines : ℕ → (ℕ → ℕ → Option ℕ) → ℕ → ℕ → ℕ → Screen → Screen
overlay_lines zero word n pitch base s = s
overlay_lines (suc done) word n pitch base s =
    overlay_line n (λ x. word x (33 + done)) (base + (33 + done) * pitch)
      (overlay_lines done word n pitch base s)

-- The loops of `draw_zebra`, for a width of at least 4 and a bitmap at the place `bvram`.
unfoldable pub draw_overlays : Settings → Frame → ℕ → ℕ → ℕ → Screen → Screen
draw_overlays c f width pitch bvram s =
    overlay_lines (390 - 33) (overlay_word c f) ((width - 3) / 2) pitch bvram s

unfoldable pub is_some : Option Cropmarks → Bool
is_some none = false
is_some (some marks) = true

-- `draw_zebra` but for the histogram that it builds and the pictures of the histogram and the waveform: its loops are
-- run if there is a bitmap and something is to be drawn.
unfoldable pub draw_zebra : Settings → Frame → ℕ → ℕ → Option ℕ → Screen → Screen
draw_zebra c f width pitch none s = s
draw_zebra c f width pitch (some bvram) s =
    if (not c.edge_draw && not c.zebra_draw && not c.hist_draw && not c.waveform_draw)
      && (not c.crop_draw || not (is_some c.cropmarks))
    then s
    else draw_overlays c f width pitch bvram s
