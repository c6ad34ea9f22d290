-- ===== src/Zebra/Picture/Bars.antt =====
-- What the picture of the histogram shows.
use magic_lantern.Common.{
  ℕ, zero, suc, ◌+◌, ◌-◌, ◌*◌, ◌/◌, ◌≤◌, ◌<◌, ◌≡◌, refl, ap, ◌∙◌, inl, inr, true, Bool-cases, arith,
  min, ltb, if◌then◌else◌,
}
use magic_lantern.Common.Screen.{is_in_rect, update_point}
use magic_lantern.Zebra.{Hist, hist_width, hist_height, bar_size, bar_pixel}
use magic_lantern.Bitmap.{Display}
use magic_lantern.Bitmap.Fill.{IsReady, bmp_fill-point}
use magic_lantern.Common.Memory.{update}
use magic_lantern.Zebra.Picture.{align_4, draw_column, draw_columns, hist_draw_image}

-- A column of `rows` points, from the line `y0` on.
draw_column_at :
    (base pitch x : ℕ) (pixel : ℕ → ℕ) (memory : ℕ → ℕ) (px py y0 rows : ℕ)
    → x < pitch
    → px < pitch
    → draw_column rows pitch (base + y0 * pitch + x) pixel memory (base + py * pitch + px) ≡ (
        if is_in_rect x 1 y0 rows px py
        then pixel (hist_height - (py - y0))
        else memory (base + py * pitch + px))
unfolding draw_column
draw_column_at base pitch x pixel memory px py y0 zero fits in_line = ground arith
draw_column_at base pitch x pixel memory px py y0 (suc done) fits in_line =
    let memory_then = draw_column done pitch (base + y0 * pitch + x) pixel memory in
    let ih = draw_column_at base pitch x pixel memory px py y0 done fits in_line in
    let row : base + y0 * pitch + x + done * pitch ≡ base + (y0 + done) * pitch + x = omega arith in
    ap (λ a. update memory_then a (pixel (hist_height - done)) (base + py * pitch + px)) row
    ∙ update_point base pitch x (pixel (hist_height - done)) memory_then px py (y0 + done) fits
        in_line
    ∙ ap (λ v. if is_in_rect x 1 (y0 + done) 1 px py then pixel (hist_height - done) else v) ih
    ∙ one_more x y0 done px py pixel (memory (base + py * pitch + px))
  where
    one_more :
        (x y0 done px py : ℕ) (pixel : ℕ → ℕ) (m : ℕ)
        → (if is_in_rect x 1 (y0 + done) 1 px py
            then pixel (hist_height - done)
            else (if is_in_rect x 1 y0 done px py then pixel (hist_height - (py - y0)) else m))
          ≡ (if is_in_rect x 1 y0 (suc done) px py then pixel (hist_height - (py - y0)) else m)
    one_more x y0 done px py pixel m = elim (Bool-cases (is_in_rect x 1 (y0 + done) 1 px py)) [
      | inl e ↦
          let last : done ≡ py - y0 = ground (arith, e) in
          let inside : is_in_rect x 1 y0 (suc done) px py ≡ true = ground (arith, e) in
          rw (e, inside) (ap (λ d. pixel (hist_height - d)) last)
      | inr e ↦
          let same : is_in_rect x 1 y0 (suc done) px py ≡ is_in_rect x 1 y0 done px py =
            ground (arith, e) in
          rw (e, same) refl
    ]

-- The columns, from `x` on.
draw_columns_at :
    (base pitch x : ℕ) (h : Hist) (memory : ℕ → ℕ) (px py y0 n : ℕ)
    → x + n ≤ pitch
    → px < pitch
    → draw_columns n pitch (base + y0 * pitch + x) h memory (base + py * pitch + px) ≡ (
        if is_in_rect x n y0 hist_height px py
        then bar_pixel h (px - x) (hist_height - (py - y0))
        else memory (base + py * pitch + px))
unfolding draw_columns
draw_columns_at base pitch x h memory px py y0 zero fits in_line = ground arith
draw_columns_at base pitch x h memory px py y0 (suc n) fits in_line =
    let memory_then = draw_columns n pitch (base + y0 * pitch + x) h memory in
    let ih = draw_columns_at base pitch x h memory px py y0 n (omega (arith, fits)) in_line in
    let col : base + y0 * pitch + x + n ≡ base + y0 * pitch + (x + n) = omega arith in
    ap (λ a. draw_column hist_height pitch a (bar_pixel h n) memory_then (base + py * pitch + px))
      col
    ∙ draw_column_at base pitch (x + n) (bar_pixel h n) memory_then px py y0 hist_height
        (omega (arith, fits)) in_line
    ∙ ap
        (λ v.
          if is_in_rect (x + n) 1 y0 hist_height px py
          then bar_pixel h n (hist_height - (py - y0))
          else v)
        ih
    ∙ one_more x y0 n px py (λ i. bar_pixel h i (hist_height - (py - y0)))
        (memory (base + py * pitch + px))
  where
    one_more :
        (x y0 n px py : ℕ) (pixel : ℕ → ℕ) (m : ℕ)
        → (if is_in_rect (x + n) 1 y0 hist_height px py
            then pixel n
            else (if is_in_rect x n y0 hist_height px py then pixel (px - x) else m))
          ≡ (if is_in_rect x (suc n) y0 hist_height px py then pixel (px - x) else m)
    one_more x y0 n px py pixel m = elim (Bool-cases (is_in_rect (x + n) 1 y0 hist_height px py)) [
      | inl e ↦
          let last : n ≡ px - x = ground (arith, e) in
          let inside : is_in_rect x (suc n) y0 hist_height px py ≡ true = ground (arith, e) in
          rw (e, inside) (ap pixel last)
      | inr e ↦
          let same : is_in_rect x (suc n) y0 hist_height px py
              ≡ is_in_rect x n y0 hist_height px py =
            ground (arith, e) in
          rw (e, same) refl
    ]

-- On a display with room for it, the picture of the histogram is a row of 128 bars and a border of 4 points, from the
-- aligned place on: the point of a bar is white up to its size, counted from the bottom, and dark above, the border is
-- dark, and every other point of the lines is as before.
pub hist_draw_image-bars :
    (d : Display) (x_origin y_origin : ℕ) (h : Hist) (memory : ℕ → ℕ) (px py : ℕ)
    → IsReady d
    → align_4 x_origin + hist_width + 4 ≤ d.width
    → y_origin + hist_height ≤ d.height
    → px < d.pitch
    → let x = align_4 x_origin in
      (hist_draw_image d x_origin y_origin h memory).0 (d.vram + py * d.pitch + px) ≡ (
        if is_in_rect (x + hist_width) 4 y_origin hist_height px py
        then 0x03
        else if is_in_rect x hist_width y_origin hist_height px py
        then (if ltb (bar_size h (px - x)) (hist_height - (py - y_origin)) then 0x03 else 0x01)
        else memory (d.vram + py * d.pitch + px))
unfolding hist_draw_image bar_pixel
hist_draw_image-bars d x_origin y_origin h memory px py r right bottom in_line =
    let x = align_4 x_origin in
    let place : d.vram + x + y_origin * d.pitch ≡ d.vram + y_origin * d.pitch + x = omega arith in
    let bars = draw_columns hist_width d.pitch (d.vram + x + y_origin * d.pitch) h memory in
    let border : min 4 (d.width - (x + hist_width)) / 4 * 4 ≡ 4 = ground (arith, right) in
    let rows : min hist_height (d.height - y_origin) ≡ hist_height = ground (arith, bottom) in
    bmp_fill-point d 0x03 (x + hist_width) y_origin 4 hist_height bars px py r
      (omega (arith, right)) (omega (arith, right, r.narrow)) (omega (arith, bottom))
      (omega (arith, bottom, r.low)) in_line
    ∙ rw (border, rows)
        (ap (λ v. if is_in_rect (x + hist_width) 4 y_origin hist_height px py then 0x03 else v)
          (ap (λ a. draw_columns hist_width d.pitch a h memory (d.vram + py * d.pitch + px)) place
            ∙ draw_columns_at d.vram d.pitch x h memory px py y_origin hist_width
                (omega (arith, right, r.wide)) in_line))
