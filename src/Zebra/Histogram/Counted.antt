-- ===== src/Zebra/Histogram/Counted.antt =====
-- The counts of `hist_build` (zebra.c), as sums over the words of the frame.
use magic_lantern.Common.{
  ℕ, zero, suc, ◌+◌, ◌*◌, ◌/◌, ◌≡◌, ap, ◌∙◌, Bool, Bool-cases, inl, inr, ◌&&◌, arith, ◌==◌,
  if◌then◌else◌,
}
use magic_lantern.Common.Memory.{update}
use magic_lantern.Zebra.{Hist, average, hist_pixel, hist_line, hist_lines, hist_build}
use magic_lantern.Zebra.Histogram.{sum_below, Counts, hist_build-Counts}

abbrev one_if : Bool → ℕ
one_if b = if b then 1 else 0

-- The bin of a word, each for 512 averages, and its level in the waveform, each for 256.
abbrev has_bin : ℕ → ℕ → Bool
has_bin i pixel = average pixel / 512 == i

-- The word at `x` is in the column `c` of the waveform, at the level `l`.
abbrev has_point : ℕ → ℕ → ℕ → ℕ → ℕ → Bool
has_point width c l x pixel = (x * 2 * 360 / width == c) && (average pixel / 256 == l)

-- How many words of a line have a property, and how many of the frame.
abbrev in_line : ℕ → (ℕ → ℕ) → ℕ → (ℕ → ℕ → Bool) → ℕ
in_line n memory v_row has = sum_below n (λ x. one_if (has x (memory (v_row + x))))

abbrev in_frame : ℕ → ℕ → ℕ → (ℕ → ℕ) → ℕ → (ℕ → ℕ → Bool) → ℕ
in_frame rows n pitch memory v_row has =
    sum_below rows (λ y. in_line n memory (v_row + y * (pitch / 2)) has)

hist_pixel_bin :
    (width x pixel i : ℕ) (h : Hist)
    → (hist_pixel width x pixel h).hist i ≡ h.hist i + one_if (has_bin i pixel)
unfolding hist_pixel
hist_pixel_bin width x pixel i h =
    let same : average pixel * 128 / 65536 ≡ average pixel / 512 = omega arith in
    rw same (updated h.hist (average pixel / 512))
  where
    updated : (f : ℕ → ℕ) (k : ℕ) → update f k (f k + 1) i ≡ f i + one_if (k == i)
    updated f k = elim (Bool-cases (i == k)) [
      | inl e ↦ let at : f i ≡ f k = ap f (ground (arith, e)) in ground (arith, e, at)
      | inr e ↦ ground (arith, e)
    ]

hist_pixel_point :
    (width x pixel c l : ℕ) (h : Hist)
    → (hist_pixel width (x * 2) pixel h).waveform c l
      ≡ h.waveform c l + one_if (has_point width c l x pixel)
unfolding hist_pixel
hist_pixel_point width x pixel c l h =
    let same : average pixel * 256 / 65536 ≡ average pixel / 256 = omega arith in
    rw same (updated h.waveform (x * 2 * 360 / width) (average pixel / 256))
  where
    updated :
        (w : ℕ → ℕ → ℕ) (column level : ℕ)
        → update w column (update (w column) level (w column level + 1)) c l
          ≡ w c l + one_if ((column == c) && (level == l))
    updated w column level = elim (Bool-cases (c == column)) [
      | inl e ↦ elim (Bool-cases (l == level)) [
        | inl f ↦
            let here : w c l ≡ w column level =
              ap (λ z. w z l) (ground (arith, e)) ∙ ap (w column) (ground (arith, f)) in
            ground (arith, e, f, here)
        | inr f ↦
            let here : w c l ≡ w column l = ap (λ z. w z l) (ground (arith, e)) in
            ground (arith, e, f, here)
      ]
      | inr e ↦ ground (arith, e)
    ]

-- Any entry that a word adds to by a property holds their number in the end.
module _ (width : ℕ) (memory : ℕ → ℕ) (entry : Hist → ℕ) (has : ℕ → ℕ → Bool)
    (adds : (x pixel : ℕ) (h : Hist)
      → entry (hist_pixel width (x * 2) pixel h) ≡ entry h + one_if (has x pixel)) where
  hist_line-in_line :
      (done v_row : ℕ) (h : Hist)
      → entry (hist_line done width memory v_row h) ≡ entry h + in_line done memory v_row has
  unfolding hist_line
  hist_line-in_line zero v_row h = omega arith
  hist_line-in_line (suc done) v_row h = omega (
    arith,
    adds done (memory (v_row + done)) (hist_line done width memory v_row h),
    hist_line-in_line done v_row h,
  )

  hist_lines-in_frame :
      (done pitch v_row : ℕ) (h : Hist)
      → entry (hist_lines done width pitch memory v_row h)
        ≡ entry h + in_frame done ((width + 1) / 2) pitch memory v_row has
  unfolding hist_lines
  hist_lines-in_frame zero pitch v_row h = omega arith
  hist_lines-in_frame (suc done) pitch v_row h = omega (
    arith,
    hist_line-in_line ((width + 1) / 2) (v_row + done * (pitch / 2))
        (hist_lines done width pitch memory v_row h),
    hist_lines-in_frame done pitch v_row h,
  )

from_zero : (n : ℕ) → 0 + n ≡ n
from_zero n = omega arith

-- The histogram of a frame: what `Counts` says, and each bin and each point of the waveform holds the number of the words
-- that belong to it.
pub record IsHist (width pitch : ℕ) (memory : ℕ → ℕ) (v_row : ℕ) (h : Hist) : Type 0 where
  pub counts : Counts (347 * ((width + 1) / 2)) h
  pub bin : (i : ℕ) → h.hist i ≡ in_frame 347 ((width + 1) / 2) pitch memory v_row (λ x. has_bin i)
  pub point :
      (c l : ℕ)
      → h.waveform c l ≡ in_frame 347 ((width + 1) / 2) pitch memory v_row (has_point width c l)

-- Whatever the frame holds: each bin has counted the words of its 347 lines whose average it stands for, and each point of
-- the waveform those of its column and level; the bins hold all the words together, `hist_max` is the largest bin but
-- for the first, and nothing outside of the two arrays is written.
pub hist_build-IsHist :
    (width pitch : ℕ) (memory : ℕ → ℕ) (v_row : ℕ)
    → IsHist width pitch memory v_row (hist_build width pitch memory v_row)
unfolding hist_build
hist_build-IsHist width pitch memory v_row =
    let empty : Hist = record { hist = λ i. 0; hist_max = 0; waveform = λ c l. 0 } in
    record {
      counts = hist_build-Counts width pitch memory v_row;
      bin = λ i.
          hist_lines-in_frame width memory (λ h. h.hist i) (λ x. has_bin i)
            (λ x pixel h. hist_pixel_bin width (x * 2) pixel i h) 347 pitch v_row empty
          ∙ from_zero _;
      point = λ c l.
          hist_lines-in_frame width memory (λ h. h.waveform c l) (has_point width c l)
            (λ x pixel h. hist_pixel_point width x pixel c l h) 347 pitch v_row empty
          ∙ from_zero _;
    }
