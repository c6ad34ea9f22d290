-- ===== src/Bitmap/Fill.antt =====
-- The rectangle that `bmp_fill` draws, point by point.
use magic_lantern.Common.{
  ℕ, ◌+◌, ◌-◌, ◌*◌, ◌/◌, ◌%◌, ◌^◌, ◌≤◌, ◌<◌, ◌≡◌, ◌≢◌, refl, true, false, Bool-cases, inl, inr,
  ◌||◌, arith, ltb, ◌==◌, if◌then◌else◌, min,
}
use magic_lantern.Common.Screen.{is_in_rect, fill_rows_point}
use magic_lantern.Bitmap.{Display, bmp_fill, clip_width, clip_end}

-- The display exists and its lines are whole words.
pub record IsReady (d : Display) : Type 0 where
  pub vram_ne : d.vram ≢ 0
  pub vram_even : d.vram % 2 ≡ 0
  pub words : d.pitch % 4 ≡ 0
  pub wide : d.width ≤ d.pitch
  pub low : d.height < 2 ^ 16
  pub narrow : d.width < 2 ^ 16

clip_width_lem :
    (width x w : ℕ)
    → width < 2 ^ 16
    → x ≤ width
    → x + w < 2 ^ 32
    → (clip_width width x w ≡ min w (width - x)) × (x + clip_width width x w / 4 * 4 ≤ width)
unfolding clip_width
clip_width_lem width x w n h o = ground arith

pub bmp_fill-point :
    (d : Display) (color x y w h : ℕ) (memory : ℕ → ℕ) (px py : ℕ)
    → IsReady d
    → x ≤ d.width
    → x + w < 2 ^ 32
    → y ≤ d.height
    → y + h < 2 ^ 16
    → px < d.pitch
    → bmp_fill d color x y w h memory (d.vram + py * d.pitch + px) ≡ (
        if is_in_rect x (min w (d.width - x) / 4 * 4) y (min h (d.height - y)) px py
        then color
        else memory (d.vram + py * d.pitch + px))
unfolding bmp_fill clip_end
bmp_fill-point d color x y w h memory px py r left wrap top low p =
    let n = min w (d.width - x) / 4 * 4 in
    let (clipped, inside) = clip_width_lem d.width x w r.narrow left wrap in
    let top' : ltb d.height y ≡ false = ground (arith, top) in
    let pitch : d.pitch / 4 * 4 ≡ d.pitch = omega (arith, r.words) in
    let there : ((d.vram == 0) || (d.vram % 2 == 1)) ≡ false =
      ground (arith, r.vram_ne, r.vram_even) in
    let rows : (if ltb d.height ((y + h) % 2 ^ 16) then d.height else (y + h) % 2 ^ 16) - y
        ≡ min h (d.height - y) =
      ground (arith, low, top) in
    let fits : x + n ≤ d.pitch = omega (arith, rw clipped at inside, r.wide) in
    elim (Bool-cases ((min w (d.width - x) == 0) || (h == 0))) [
      | inl e ↦
          let empty : is_in_rect x n y (min h (d.height - y)) px py ≡ false = nothing_in_it n e in
          rw (clipped, e, empty) refl
      | inr e ↦
          rw (clipped, top', e, there, pitch, rows)
            (fill_rows_point d.vram d.pitch x n color memory px py fits p y (min h (d.height - y)))
    ]
  where
    nothing_in_it :
        (n : ℕ)
        → ((min w (d.width - x) == 0) || (h == 0)) ≡ true
        → is_in_rect x (min w (d.width - x) / 4 * 4) y (min h (d.height - y)) px py ≡ false
    nothing_in_it n e = ground (arith, e)
