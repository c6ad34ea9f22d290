-- ===== src/Spotmeter/Mean.antt =====
-- The measurement is a mean.
use native.Mathlib.Nat.{mul-le-mul_left, mul-le-mul_right, le-div_iff_mul-le, div-le_of_le-mul}
use magic_lantern.Common.{ℕ, zero, suc, ◌+◌, ◌-◌, ◌*◌, ◌/◌, ◌^◌, ◌≤◌, ◌<◌, ◌≡◌, arith}
use magic_lantern.Common.Word.{u32}
use magic_lantern.Spotmeter.{
  VramInfo, sum_line, sum_lines, from_middle, to_middle, rounds_of, spotmeter_measure,
}

module _ (lo hi : ℕ) (vram : ℕ → ℕ) where
  -- Pixels between two values, from a place on.
  abbrev AreBetween : ℕ → ℕ → Type 0
  AreBetween n at = (k : ℕ) → k < n → (lo ≤ vram (u32 (at + k))) × (vram (u32 (at + k)) ≤ hi)

  sum_line_lem :
      (n at sum : ℕ)
      → AreBetween n at
      → sum + n * hi < 2 ^ 32
      → (sum + n * lo ≤ sum_line n at vram sum) × (sum_line n at vram sum ≤ sum + n * hi)
  unfolding sum_line
  sum_line_lem zero at sum between small = (omega arith, omega arith)
  sum_line_lem (suc n) at sum between small =
      let (low, high) =
        sum_line_lem n at sum (λ k h. between k (omega (arith, h))) (omega (arith, small)) in
      let (here_low, here_high) = between n (omega arith) in
      (
        omega (arith, low, high, here_low, here_high, small),
        omega (arith, low, high, here_low, here_high, small),
      )

  sum_lines_lem :
      (rows n pitch at : ℕ)
      → ((y : ℕ) → y < rows → AreBetween n (at + y * pitch))
      → rows * (n * hi) < 2 ^ 32
      → (rows * (n * lo) ≤ sum_lines rows n pitch at vram)
        × (sum_lines rows n pitch at vram ≤ rows * (n * hi))
  unfolding sum_lines
  sum_lines_lem zero n pitch at between small = (omega arith, omega arith)
  sum_lines_lem (suc rows) n pitch at between small =
      let (low, high) =
        sum_lines_lem rows n pitch at (λ y h. between y (omega (arith, h)))
          (omega (arith, small)) in
      let (line_low, line_high) =
        sum_line_lem n (at + rows * pitch) (sum_lines rows n pitch at vram)
          (between rows (omega arith)) (omega (arith, high, small)) in
      (omega (arith, low, line_low), omega (arith, high, line_high))

mean_lem :
    (n lo hi sum : ℕ)
    → 0 < n
    → n * (n * lo) ≤ sum
    → sum ≤ n * (n * hi)
    → (lo ≤ sum / (n * n)) × (sum / (n * n) ≤ hi)
mean_lem n lo hi sum pos low high =
    let square : 0 < n * n = omega (arith, mul-le-mul_right n pos) in
    let l : lo * (n * n) ≤ sum = omega (arith, low) in
    let h : sum ≤ n * n * hi = omega (arith, high) in
    ((le-div_iff_mul-le square).1 l, div-le_of_le-mul (n * n) h)

-- In the frame, a square with the sides `2 * dx + 1` begins `dx` before the middle.
square_lem :
    (a dx : ℕ)
    → dx ≤ a / 2
    → a < 2 ^ 31
    → (from_middle a dx ≡ a / 2 - dx) × (rounds_of (from_middle a dx) (to_middle a dx) ≡ 2 * dx + 1)
square_lem a dx h k = (omega (arith, h, k), omega (arith, h, k))

-- For a square of at most 255 lines that is in a frame of less than 2^31 lines and columns, and whose pixels, of 16 bits, lie
-- between two values, the measurement lies between the percentages of these; the sum does not wrap round, and the
-- measurement is below 100.
pub spotmeter_measure-between :
    (v : VramInfo) (dx lo hi : ℕ)
    → dx ≤ 127
    → dx ≤ v.width / 2
    → dx ≤ v.height / 2
    → v.width < 2 ^ 31
    → v.height < 2 ^ 31
    → hi < 65536
    → ((y x : ℕ)
        → y < 2 * dx + 1
        → x < 2 * dx + 1
        → let p =
            v.vram (u32 (v.width / 2 - dx + (v.height / 2 - dx) * v.pitch + y * v.pitch + x)) in
          (lo ≤ p) × (p ≤ hi))
    → (100 * lo / 65536 ≤ spotmeter_measure v dx)
      × (spotmeter_measure v dx ≤ 100 * hi / 65536)
      × (spotmeter_measure v dx < 100)
unfolding spotmeter_measure
spotmeter_measure-between v dx lo hi small inside below wide high_frame bits between =
    let n = 2 * dx + 1 in
    let (x_at, x_rounds) = square_lem v.width dx inside wide in
    let (y_at, y_rounds) = square_lem v.height dx below high_frame in
    let at = v.width / 2 - dx + (v.height / 2 - dx) * v.pitch in
    let line : n * hi ≤ 255 * 65535 =
      mul_both n hi 255 65535 (omega (arith, small)) (omega (arith, bits)) in
    let all : n * (n * hi) ≤ 255 * (255 * 65535) =
      mul_both n (n * hi) 255 (255 * 65535) (omega (arith, small)) line in
    let (low, high) =
      sum_lines_lem lo hi v.vram n n v.pitch at (λ y h k l. between y k h l) (omega (arith, all)) in
    let (l, h) = mean_lem n lo hi (sum_lines n n v.pitch at v.vram) (omega arith) low high in
    let square : n * n ≤ 255 * 255 =
      mul_both n n 255 255 (omega (arith, small)) (omega (arith, small)) in
    let whole : u32 (n * n) ≡ n * n = omega (arith, square) in
    rw (x_rounds, y_rounds, x_at, y_at, whole)
      (scaled_lem (sum_lines n n v.pitch at v.vram / (n * n)) l h bits)
  where
    mul_both : (a b c d : ℕ) → a ≤ c → b ≤ d → a * b ≤ c * d
    mul_both a b c d p q =
        let left : a * b ≤ c * b = mul-le-mul_right b p in
        let right : c * b ≤ c * d = mul-le-mul_left c q in omega (arith, left, right)

    scaled_lem :
        (mean : ℕ)
        → lo ≤ mean
        → mean ≤ hi
        → hi < 65536
        → (100 * lo / 65536 ≤ u32 (100 * mean) / 65536)
          × (u32 (100 * mean) / 65536 ≤ 100 * hi / 65536)
          × (u32 (100 * mean) / 65536 < 100)
    scaled_lem mean l h bits =
        (omega (arith, l, h, bits), omega (arith, l, h, bits), omega (arith, l, h, bits))
