-- ===== src/Zebra/Histogram.antt =====
-- The bins of the histogram of zebra.c and the bars of its picture.
pub mod Counted
use native.Mathlib.Nat.{div-lt_iff_lt-mul, div-le_of_le-mul, mul-div_cancel_left}
use magic_lantern.Common.{
  ℕ, zero, suc, ◌+◌, ◌*◌, ◌/◌, ◌%◌, ◌^◌, ◌≤◌, ◌<◌, ◌≡◌, ◌≢◌, refl, sym, subst, ap, ◌∙◌, ◌⊎◌, inl,
  inr, true, false, not, ◌&&◌, Bool-cases, arith, ltb, ◌==◌, if◌then◌else◌,
}
use magic_lantern.Common.Memory.{update}
use magic_lantern.Common.Word.{u32}
use magic_lantern.Zebra.{Hist, average, hist_pixel, hist_line, hist_lines, hist_build, bar_size}

-- The sum over the bins below `n`.
abbrev pub sum_below : ℕ → (ℕ → ℕ) → ℕ
sum_below zero f = 0
sum_below (suc n) f = sum_below n f + f n

sum_below_same : (n i v : ℕ) (f : ℕ → ℕ) → n ≤ i → sum_below n (update f i v) ≡ sum_below n f
sum_below_same zero i v f h = refl
sum_below_same (suc n) i v f h =
    let ih = sum_below_same n i v f (omega arith) in
    let other : (n == i) ≡ false = ground (arith, h) in rw (ih, other) refl

sum_below_one :
    (n i : ℕ) (f : ℕ → ℕ) → i < n → sum_below n (update f i (f i + 1)) ≡ sum_below n f + 1
sum_below_one zero i f h = absurd (omega arith)
sum_below_one (suc n) i f h = elim (Bool-cases (n == i)) [
  | inl e ↦
      let last : n ≡ i = ground (arith, e) in
      let same = sum_below_same n i (f i + 1) f (omega (arith, last)) in
      let at : f n ≡ f i = ap f last in rw (same, e) (omega (arith, at))
  | inr e ↦ let ih = sum_below_one n i f (ground (arith, e)) in rw (ih, e) (omega arith)
]

-- The bins hold `count` words in all; `hist_max` is the largest bin but for the first; nothing outside of the
-- arrays is written.
pub record Counts (count : ℕ) (h : Hist) : Type 0 where
  pub total : sum_below 128 h.hist ≡ count
  pub largest : (i : ℕ) → 0 < i → h.hist i ≤ h.hist_max
  pub reached : (h.hist_max ≡ 0) ⊎ ((i : ℕ) × (0 < i) × (i < 128) × (h.hist i ≡ h.hist_max))
  pub bins : (i : ℕ) → 128 ≤ i → h.hist i ≡ 0
  pub plot : (c l : ℕ) → (360 ≤ c) ⊎ (256 ≤ l) → h.waveform c l ≡ 0

column_lt : (x width : ℕ) → x < width → x * 360 / width < 360
column_lt x width h = (div-lt_iff_lt-mul (omega (arith, h))).1 (omega (arith, h))

-- The maximum after a count, for the counts `f`, the bin `k` and the old maximum `m`.
abbrev raised : (ℕ → ℕ) → ℕ → ℕ → ℕ
raised f k m = if not (k == 0) && ltb m (f k + 1) then f k + 1 else m

raised-le : (f : ℕ → ℕ) (k m i : ℕ) → 0 < i → f i ≤ m → update f k (f k + 1) i ≤ raised f k m
raised-le f k m i pos h = ground (arith, pos, h)

abbrev Reached : (ℕ → ℕ) → ℕ → Type 0
Reached f m = (m ≡ 0) ⊎ ((i : ℕ) × (0 < i) × (i < 128) × (f i ≡ m))

raised-Reached :
    (f : ℕ → ℕ) (k m : ℕ) → k < 128 → Reached f m → Reached (update f k (f k + 1)) (raised f k m)
raised-Reached f k m bin v = elim (Bool-cases (not (k == 0) && ltb m (f k + 1))) [
  | inl e ↦ inr (k, ground (arith, e), bin, ground (arith, e))
  | inr e ↦ elim v [
    | inl z ↦ inl (ground (arith, e, z))
    | inr (i, pos, lt, at) ↦ elim (Bool-cases (i == k)) [
      | inl q ↦
          let same : f i ≡ f k = ap f (ground (arith, q)) in
          absurd (ground (arith, e, q, same, at, pos))
      | inr q ↦ inr (i, pos, lt, ground (arith, e, q, at))
    ]
  ]
]

outside_kept :
    (w : ℕ → ℕ → ℕ) (column level v c l : ℕ)
    → column < 360
    → level < 256
    → (360 ≤ c) ⊎ (256 ≤ l)
    → w c l ≡ 0
    → update w column (update (w column) level v) c l ≡ 0
outside_kept w column level v c l h k (inl o) z =
    let other : (c == column) ≡ false = ground (arith, h, o) in rw other z
outside_kept w column level v c l h k (inr o) z = elim (Bool-cases (c == column)) [
  | inl e ↦
      let at : w column l ≡ w c l = ap (λ d. w d l) (sym (ground (arith, e))) in
      let other : (l == level) ≡ false = ground (arith, k, o) in rw (e, other) (at ∙ z)
  | inr e ↦ rw e z
]

hist_pixel-Counts :
    (width x pixel count : ℕ) (h : Hist)
    → x < width
    → Counts count h
    → Counts (count + 1) (hist_pixel width x pixel h)
unfolding hist_pixel
hist_pixel-Counts width x pixel count h inside v =
    let p = average pixel in
    let k = p * 128 / 65536 in
    let small : p < 65536 = omega arith in
    let bin : k < 128 = omega (arith, small) in
    let level : p * 256 / 65536 < 256 = omega (arith, small) in
    let column = column_lt x width inside in
    record {
      total = sum_below_one 128 k h.hist bin ∙ omega (arith, v.total);
      largest = λ i pos. raised-le h.hist k h.hist_max i pos (v.largest i pos);
      reached = raised-Reached h.hist k h.hist_max bin v.reached;
      bins = λ i out. let old = v.bins i out in ground (arith, bin, out, old);
      plot = λ c l out. outside_kept h.waveform _ _ _ c l column level out (v.plot c l out);
    }

hist_line-Counts :
    (done width : ℕ) (memory : ℕ → ℕ) (v_row count : ℕ) (h : Hist)
    → done ≤ (width + 1) / 2
    → Counts count h
    → Counts (count + done) (hist_line done width memory v_row h)
unfolding hist_line
hist_line-Counts zero width memory v_row count h d v = subst (λ n. Counts n h) (omega arith) v
hist_line-Counts (suc done) width memory v_row count h d v =
    let ih = hist_line-Counts done width memory v_row count h (omega (arith, d)) v in
    subst (λ n. Counts n (hist_line (suc done) width memory v_row h)) (omega arith)
      (hist_pixel-Counts width (done * 2) (memory (v_row + done)) (count + done)
        (hist_line done width memory v_row h) (omega (arith, d)) ih)

hist_lines-Counts :
    (done width pitch : ℕ) (memory : ℕ → ℕ) (v_row count : ℕ) (h : Hist)
    → Counts count h
    → Counts (count + done * ((width + 1) / 2)) (hist_lines done width pitch memory v_row h)
unfolding hist_lines
hist_lines-Counts zero width pitch memory v_row count h v = subst (λ n. Counts n h) (omega arith) v
hist_lines-Counts (suc done) width pitch memory v_row count h v =
    let ih = hist_lines-Counts done width pitch memory v_row count h v in
    subst (λ n. Counts n (hist_lines (suc done) width pitch memory v_row h)) (omega arith)
      (hist_line-Counts ((width + 1) / 2) width memory (v_row + done * (pitch / 2)) _
        (hist_lines done width pitch memory v_row h) (omega arith) ih)

pub hist_build-Counts :
    (width pitch : ℕ) (memory : ℕ → ℕ) (v_row : ℕ)
    → Counts (347 * ((width + 1) / 2)) (hist_build width pitch memory v_row)
unfolding hist_build
hist_build-Counts width pitch memory v_row =
    subst (λ n. Counts n (hist_build width pitch memory v_row)) (omega arith)
      (hist_lines-Counts 347 width pitch memory v_row 0 _ (record {
        total = refl;
        largest = λ i pos. omega arith;
        reached = inl refl;
        bins = λ i out. refl;
        plot = λ c l out. refl;
      }))

bar_size-le : (h : Hist) (i : ℕ) → h.hist i ≤ h.hist_max → bar_size h i ≤ 64
unfolding bar_size
bar_size-le h i l = elim (Bool-cases (h.hist_max == 0)) [
  | inl e ↦
      let zero_max : h.hist_max ≡ 0 = ground (arith, e) in
      rw e (div-le_of_le-mul 1 (omega (arith, l, zero_max)))
  | inr e ↦ rw e (div-le_of_le-mul h.hist_max (omega (arith, l)))
]

bar_size_empty : (h : Hist) (i : ℕ) → h.hist_max ≡ 0 → h.hist i ≤ h.hist_max → bar_size h i ≡ 0
unfolding bar_size
bar_size_empty h i z l =
    let none : h.hist i ≡ 0 = omega (arith, l, z) in
    let test : (h.hist_max == 0) ≡ true = ground (arith, z) in rw (none, test) refl

bar_size_full :
    (h : Hist) (i : ℕ)
    → h.hist_max ≢ 0
    → h.hist i < 2 ^ 26
    → h.hist i ≡ h.hist_max
    → bar_size h i ≡ 64
unfolding bar_size
bar_size_full h i nz small e =
    let test : (h.hist_max == 0) ≡ false = ground (arith, nz) in
    let whole : u32 (h.hist i * 64) ≡ h.hist i * 64 = omega (arith, small) in
    rw (test, whole, e) (mul-div_cancel_left 64 (ground (arith, nz)))

hist-le : (n i : ℕ) (f : ℕ → ℕ) → i < n → f i ≤ sum_below n f
hist-le zero i f h = absurd (omega (arith, h))
hist-le (suc n) i f h = elim (Bool-cases (i == n)) [
  | inl e ↦ let at : f i ≡ f n = ap f (ground (arith, e)) in omega (arith, at)
  | inr e ↦ omega (arith, hist-le n i f (ground (arith, h, e)))
]

bars :
    (n : ℕ) (h : Hist)
    → n < 2 ^ 26
    → Counts n h
    → ((i : ℕ) → 0 < i → bar_size h i ≤ 64)
      × (((i : ℕ) → 0 < i → bar_size h i ≡ 0)
          ⊎ ((i : ℕ) × (0 < i) × (i < 128) × (bar_size h i ≡ 64)))
bars n h small v = (
  λ i pos. bar_size-le h i (v.largest i pos),
  elim (Bool-cases (h.hist_max == 0)) [
    | inl e ↦ inl (λ i pos. bar_size_empty h i (ground (arith, e)) (v.largest i pos))
    | inr e ↦ elim v.reached [
      | inl z ↦ absurd (ground (arith, e, z))
      | inr (i, pos, lt, at) ↦
          let fits : h.hist i < 2 ^ 26 = omega (arith, hist-le 128 i h.hist lt, v.total, small) in
          inr (i, pos, lt, bar_size_full h i (ground (arith, e)) fits at)
    ]
  ],
)

-- In the picture of the histogram of a frame less than 300000 wide no bar but the first is higher than the box, and one is
-- as high, unless all of them are empty.
hist_build-bar_size :
    (width pitch : ℕ) (memory : ℕ → ℕ) (v_row : ℕ)
    → width < 300000
    → let h = hist_build width pitch memory v_row in
      ((i : ℕ) → 0 < i → bar_size h i ≤ 64)
      × (((i : ℕ) → 0 < i → bar_size h i ≡ 0)
          ⊎ ((i : ℕ) × (0 < i) × (i < 128) × (bar_size h i ≡ 64)))
hist_build-bar_size width pitch memory v_row narrow =
    bars (347 * ((width + 1) / 2)) (hist_build width pitch memory v_row) (omega (arith, narrow))
      (hist_build-Counts width pitch memory v_row)
