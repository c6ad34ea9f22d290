-- ===== src/Common/Bits.antt =====
-- `|` on numbers whose ones do not meet.
use Prim.Native.Nat.{
  ℕ, zero, suc, ◌+◌, ◌*◌, ◌/◌, ◌%◌, ◌^◌, ◌≤◌, ◌<◌, max, bit_or, digits, bit_or-bitwise,
}
use mathlib.Core.Path.{◌≡◌, refl, ap, ◌∙◌}
use native.Mathlib.Omega.{arith}

-- More digits than the number has change nothing.
or_digits_enough :
    (n m a b : ℕ) → a ≤ n → a ≤ m → digits (λ b. b) max n a b ≡ digits (λ b. b) max m a b
or_digits_enough zero zero a b p q = refl
or_digits_enough zero (suc m) zero b p q = refl
or_digits_enough zero (suc m) (suc a) b p q = absurd (omega arith)
or_digits_enough (suc n) zero zero b p q = refl
or_digits_enough (suc n) zero (suc a) b p q = absurd (omega arith)
or_digits_enough (suc n) (suc m) zero b p q = refl
or_digits_enough (suc n) (suc m) (suc a) b p q =
    omega (arith, or_digits_enough n m (suc a / 2) (b / 2) (omega arith) (omega arith))

zero-bit_or : (b : ℕ) → bit_or 0 b ≡ b
zero-bit_or b = bit_or-bitwise 0 b

-- The lowest digit.
bit_or_low : (a b : ℕ) → bit_or a b ≡ bit_or (a / 2) (b / 2) * 2 + max (a % 2) (b % 2)
bit_or_low zero b = omega (arith, zero-bit_or b, zero-bit_or (b / 2))
bit_or_low (suc a) b = omega (
  arith,
  bit_or-bitwise (suc a) b,
  bit_or-bitwise (suc a / 2) (b / 2),
  or_digits_enough a (suc a / 2) (suc a / 2) (b / 2) (omega arith) (omega arith),
)

bit_or-zero_enough : (n a : ℕ) → a ≤ n → bit_or a 0 ≡ a
bit_or-zero_enough n zero h = refl
bit_or-zero_enough zero (suc a) h = absurd (omega arith)
bit_or-zero_enough (suc n) (suc a) h =
    omega (arith, bit_or_low (suc a) 0, bit_or-zero_enough n (suc a / 2) (omega arith))

-- A number below a power of two, and a multiple of the power.
pub bit_or_shifted : (k a b : ℕ) → b < 2 ^ k → bit_or (a * 2 ^ k) b ≡ a * 2 ^ k + b
bit_or_shifted zero a b h =
    let none : b ≡ 0 = omega (arith, h) in
    let all = bit_or-zero_enough a a (omega arith) in
    ap (λ c. bit_or (a * 1) c) none ∙ ap (λ c. bit_or c 0) (omega arith) ∙ all ∙ omega (arith, none)
bit_or_shifted (suc k) a b h =
    let half : b / 2 < 2 ^ k = omega (arith, h) in
    let ih = bit_or_shifted k a (b / 2) half in
    let low = bit_or_low (a * 2 ^ suc k) b in
    let power : 2 ^ suc k ≡ 2 * 2 ^ k = omega arith in
    let double : a * 2 ^ suc k ≡ 2 * (a * 2 ^ k) =
      ap (λ p. a * p) power ∙ mul_left_comm_lem a (2 ^ k) in
    let halves : a * 2 ^ suc k / 2 ≡ a * 2 ^ k = omega (arith, double) in
    let even : a * 2 ^ suc k % 2 ≡ 0 = omega (arith, double) in
    let upper : bit_or (a * 2 ^ suc k / 2) (b / 2) ≡ a * 2 ^ k + b / 2 =
      ap (λ c. bit_or c (b / 2)) halves ∙ ih in
    omega (arith, low, upper, even, double)
  where
    mul_left_comm_lem : (a p : ℕ) → a * (2 * p) ≡ 2 * (a * p)
    mul_left_comm_lem a p = omega arith
