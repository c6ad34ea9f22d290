-- ===== src/Audio/Meter/Drawn.antt =====
-- What a meter shows.
use magic_lantern.Common.{
  ℕ, ◌+◌, ◌*◌, ◌/◌, ◌≤◌, ◌<◌, ◌≡◌, ◌≢◌, refl, sym, subst, false, Bool-cases, inl, inr, arith, ltb,
  ◌==◌, ◌⊎◌, lt→ltb,
}
use magic_lantern.Common.Int.{ℤ, pos, neg_ℕ, ◌≤ℤ◌, ◌*ℤ◌}
use magic_lantern.Common.Memory.{fill_rows_inside, fill_rows_outside}
use magic_lantern.Audio.{AudioLevel, audio_level_to_db}
use magic_lantern.Audio.Decibels.{audio_level_to_db_mono}
use magic_lantern.Audio.Levels.{IsValid}
use magic_lantern.Audio.Meter.{
  color_word, x_db, meter_word, draw_meter, tick_column, db_to_color, db_peak_to_color,
}

-- The columns for the whole range of decibels.
x_db_bounds : (a b : ℤ) → neg_ℕ 40 ≤ℤ a → a ≤ℤ b → b ≤ℤ pos 0 → (x_db a ≤ x_db b) × (x_db b ≤ 150)
unfolding x_db ◌*ℤ◌
x_db_bounds a b low h high = ground arith

-- A tick stands 6 words, which are 24 pixels, to the left of where the bar for its level ends.
tick_column-x_db : (db : ℤ) → neg_ℕ 40 ≤ℤ db → db ≤ℤ pos 0 → tick_column db + 6 ≡ 8 + x_db db
unfolding tick_column x_db ◌*ℤ◌
tick_column-x_db db low high = ground arith

-- The four parts of a line, from the left.
pub record Line (db_avg db_peak : ℤ) (x word : ℕ) : Type 0 where
  pub bar : x < x_db db_avg → word ≡ color_word (db_to_color db_avg)
  pub gap : x_db db_avg ≤ x → x < x_db db_peak → word ≡ color_word 0x03
  pub marker :
      x_db db_peak ≤ x → x < x_db db_peak + 4 → word ≡ color_word (db_peak_to_color db_peak)
  pub rest : x_db db_peak + 4 ≤ x → word ≡ color_word 0x03

meter_word-Line :
    (db_avg db_peak : ℤ) (x : ℕ)
    → x_db db_avg ≤ x_db db_peak
    → Line db_avg db_peak x (meter_word db_avg db_peak x)
unfolding meter_word
meter_word-Line db_avg db_peak x h =
    let a = x_db db_avg in
    let p = x_db db_peak in
    record {
      bar = λ l. rw (lt→ltb x a l) refl;
      gap = λ l m. rw (not_ltb x a l, lt→ltb x p m) refl;
      marker =
          λ l m. rw (not_ltb x a (omega (arith, h, l)), not_ltb x p l, lt→ltb x (p + 4) m) refl;
      rest = λ l.
          rw
            (not_ltb x a (omega (arith, h, l)), not_ltb x p (omega (arith, l)), not_ltb x (p + 4) l)
            refl;
    }
  where
    not_ltb : (x a : ℕ) → a ≤ x → ltb x a ≡ false
    not_ltb x a h = ground arith

-- A meter with valid levels, on a screen of at least 600 pixels: each of its 12 lines has the bar of the average,
-- a gap up to the peak and the marker of the peak, in this order, and the marker begins in the meter or at its end.
draw_meter-Line :
    (thresholds : ℕ → ℤ) (vram pitch y_origin : ℕ) (level : AudioLevel) (memory : ℕ → ℕ) (y x : ℕ)
    → IsValid level
    → vram ≢ 0
    → 600 ≤ pitch
    → y < 12
    → x < 150
    → let avg = audio_level_to_db thresholds level.avg in
      let peak = audio_level_to_db thresholds level.peak in
      Line avg peak x (
        draw_meter thresholds vram pitch y_origin level memory
          (vram + pitch / 4 * y_origin + 8 + y * (pitch / 4) + x))
      × (x_db avg ≤ x_db peak)
      × (x_db peak ≤ 150)
unfolding draw_meter
draw_meter-Line thresholds vram pitch y_origin level memory y x v nz wide h k =
    let avg = audio_level_to_db thresholds level.avg in
    let peak = audio_level_to_db thresholds level.peak in
    let (low, ordered, high) = audio_level_to_db_mono thresholds level.avg level.peak v.avg_max in
    let (before, most) = x_db_bounds avg peak low ordered high in
    let drawn : (vram == 0) ≡ false = ground (arith, nz) in
    (
      rw drawn (
          subst (Line avg peak x)
            (sym (
              fill_rows_inside 12 (pitch / 4) 150 (vram + pitch / 4 * y_origin + 8)
                (λ y x. meter_word avg peak x) memory y x h k (omega arith)))
            (meter_word-Line avg peak x before)),
      before,
      most,
    )

-- A meter writes nothing above its first line or below its last, nor beside its 150 words in a line.
pub draw_meter-keeps :
    (thresholds : ℕ → ℤ) (vram pitch y_origin : ℕ) (level : AudioLevel) (memory : ℕ → ℕ) (a : ℕ)
    → let row = vram + pitch / 4 * y_origin + 8 in
      ((y : ℕ) → y < 12 → (a < row + y * (pitch / 4)) ⊎ (row + y * (pitch / 4) + 150 ≤ a))
      → draw_meter thresholds vram pitch y_origin level memory a ≡ memory a
unfolding draw_meter
draw_meter-keeps thresholds vram pitch y_origin level memory a h = elim (Bool-cases (vram == 0)) [
  | inl e ↦ rw e refl
  | inr e ↦ rw e (fill_rows_outside 12 (pitch / 4) 150 _ _ memory a h)
]
