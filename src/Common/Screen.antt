-- ===== src/Common/Screen.antt =====
-- A memory that is a screen: `pitch` places in a line. A rectangle that is filled with one value, point by point.
use Prim.Native.Nat.{ℕ, suc, ◌+◌, ◌-◌, ◌*◌, ◌≤◌, ◌<◌}
use mathlib.Core.Path.{◌≡◌, ap, subst, ◌∙◌}
use mathlib.Core.Logic.{◌≢◌, ◌⊎◌, inl, inr}
use mathlib.Core.Bool.{Bool, true, false, ◌&&◌}
use native.Mathlib.Nat.{mul-le-mul_right}
use native.Mathlib.Omega.{arith}
use magic_lantern.Common.Tests.{◌==◌, ltb, leb, if◌then◌else◌, Bool-cases}
use magic_lantern.Common.Memory.{update, fill, fill_rows, fill_rows_inside, fill_rows_outside}

abbrev pub is_in_rect : ℕ → ℕ → ℕ → ℕ → ℕ → ℕ → Bool
is_in_rect x0 n y0 rows px py = (leb x0 px && ltb px (x0 + n)) && (leb y0 py && ltb py (y0 + rows))

-- A line of another number is not touched.
other_line :
    (base pitch x0 n px py : ℕ)
    → x0 + n ≤ pitch
    → px < pitch
    → (q : ℕ) → py ≢ q
    → (base + py * pitch + px < base + q * pitch + x0)
      ⊎ (base + q * pitch + x0 + n ≤ base + py * pitch + px)
other_line base pitch x0 n px py fits in_line q h = elim (Bool-cases (ltb py q)) [
  | inl e ↦
      let less : suc py ≤ q = ground (arith, e) in
      let above : suc py * pitch ≤ q * pitch = mul-le-mul_right pitch less in
      inl (omega (arith, above, in_line))
  | inr e ↦
      let more : suc q ≤ py = ground (arith, e, h) in
      let above : suc q * pitch ≤ py * pitch = mul-le-mul_right pitch more in
      inr (omega (arith, above, fits))
]

-- Where a point that is not in the rectangle stands, for a line of the rectangle.
beside_line :
    (base pitch x0 n px py y0 rows y : ℕ)
    → x0 + n ≤ pitch
    → px < pitch
    → is_in_rect x0 n y0 rows px py ≡ false
    → y < rows
    → (base + py * pitch + px < base + (y0 + y) * pitch + x0)
      ⊎ (base + (y0 + y) * pitch + x0 + n ≤ base + py * pitch + px)
beside_line base pitch x0 n px py y0 rows y fits in_line e h = elim (Bool-cases (py == y0 + y)) [
  | inl k ↦
      let same : py ≡ y0 + y = ground (arith, k) in
      let lines : py * pitch ≡ (y0 + y) * pitch = ap (λ q. q * pitch) same in
      (elim (Bool-cases (leb x0 px)) [
        | inl l ↦
            let right : x0 + n ≤ px = ground (arith, e, h, same, l) in
            inr (omega (arith, lines, right))
        | inr l ↦ let left : px < x0 = ground (arith, l) in inl (omega (arith, lines, left))
      ])
  | inr k ↦ other_line base pitch x0 n px py fits in_line (y0 + y) (ground (arith, k))
]

-- A rectangle whose points have each their own value.
pub fill_rows_at :
    (base pitch x0 n : ℕ) (cell : ℕ → ℕ → ℕ) (memory : ℕ → ℕ) (px py y0 rows : ℕ)
    → x0 + n ≤ pitch
    → px < pitch
    → fill_rows rows pitch n (base + y0 * pitch + x0) cell memory (base + py * pitch + px) ≡ (
        if is_in_rect x0 n y0 rows px py
        then cell (py - y0) (px - x0)
        else memory (base + py * pitch + px))
fill_rows_at base pitch x0 n cell memory px py y0 rows fits in_line =
    elim (Bool-cases (is_in_rect x0 n y0 rows px py)) [
      | inl e ↦
          let (left, below, rows_in, n_in) = in_rect_lem e in
          rw e (
            subst
              (λ a.
                fill_rows rows pitch n (base + y0 * pitch + x0) cell memory a
                ≡ cell (py - y0) (px - x0))
              (place_lem left below)
              (fill_rows_inside rows pitch n (base + y0 * pitch + x0) cell memory (py - y0)
                (px - x0) rows_in n_in (omega (arith, fits))))
      | inr e ↦ rw e (
          fill_rows_outside rows pitch n (base + y0 * pitch + x0) cell memory
            (base + py * pitch + px)
            (λ y h.
              subst (λ a. (base + py * pitch + px < a) ⊎ (a + n ≤ base + py * pitch + px))
                (omega arith) (beside_line base pitch x0 n px py y0 rows y fits in_line e h)))
    ]
  where
    in_rect_lem :
        is_in_rect x0 n y0 rows px py ≡ true
        → (x0 ≤ px) × (y0 ≤ py) × (py - y0 < rows) × (px - x0 < n)
    in_rect_lem e = ground (arith, e)

    place_lem :
        x0 ≤ px
        → y0 ≤ py
        → base + y0 * pitch + x0 + (py - y0) * pitch + (px - x0) ≡ base + py * pitch + px
    place_lem left below =
        let lines : y0 * pitch + (py - y0) * pitch ≡ (y0 + (py - y0)) * pitch = omega arith in
        let whole : y0 + (py - y0) ≡ py = omega (arith, below) in
        let both = lines ∙ ap (λ q. q * pitch) whole in omega (arith, both, left)

pub fill_rows_point :
    (base pitch x0 n v : ℕ) (memory : ℕ → ℕ) (px py : ℕ)
    → x0 + n ≤ pitch
    → px < pitch
    → (y0 rows : ℕ)
    → fill_rows rows pitch n (base + y0 * pitch + x0) (λ j i. v) memory (base + py * pitch + px)
      ≡ (if is_in_rect x0 n y0 rows px py then v else memory (base + py * pitch + px))
fill_rows_point base pitch x0 n v memory px py fits in_line y0 rows =
    fill_rows_at base pitch x0 n (λ j i. v) memory px py y0 rows fits in_line

-- One point.
pub update_point :
    (base pitch x v : ℕ) (memory : ℕ → ℕ) (px py q : ℕ)
    → x < pitch
    → px < pitch
    → update memory (base + q * pitch + x) v (base + py * pitch + px)
      ≡ (if is_in_rect x 1 q 1 px py then v else memory (base + py * pitch + px))
unfolding fill_rows fill
update_point base pitch x v memory px py q fits in_line =
    ap (λ a. update memory a v (base + py * pitch + px)) (omega arith)
    ∙ fill_rows_point base pitch x 1 v memory px py (omega (arith, fits)) in_line q 1
