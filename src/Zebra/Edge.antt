-- ===== src/Zebra/Edge.antt =====
-- `edge_detect` of zebra.c: the differences of neighbouring pixels, and the absolute value by shift and xor.
use Prim.Native.Nat.{bit_xor}
use magic_lantern.Common.{
  ℕ, ◌+◌, ◌*◌, ◌/◌, ◌%◌, ◌^◌, ◌≤◌, ◌<◌, ◌≡◌, refl, subst, Bool, true, false, ◌&&◌, ◌||◌, arith, leb,
  ◌==◌,
}
use magic_lantern.Common.Range.{passes, passes_each}
use magic_lantern.Common.Int.{ℤ, pos, negsuc, ◌-ℤ◌, ◌+ℤ◌, sub_ℕ, magnitude, pos_part}

-- `s >> 15` of an `int32_t` rounds down.
abbrev pub shift_right_15 : ℤ → ℤ
shift_right_15 (pos n) = pos (n / 2 ^ 15)
shift_right_15 (negsuc n) = negsuc (n / 2 ^ 15)

-- `a ^ b` in two's complement: `negsuc n` has the bits of `n`, inverted.
abbrev pub xor_ℤ : ℤ → ℤ → ℤ
xor_ℤ (pos a) (pos b) = pos (bit_xor a b)
xor_ℤ (pos a) (negsuc b) = negsuc (bit_xor a b)
xor_ℤ (negsuc a) (pos b) = negsuc (bit_xor a b)
xor_ℤ (negsuc a) (negsuc b) = pos (bit_xor a b)

-- `( s ^ (s >> 15) ) - (s >> 15)`
unfoldable pub edge_abs : ℤ → ℤ
unfolding ◌-ℤ◌
edge_abs s = xor_ℤ s (shift_right_15 s) -ℤ shift_right_15 s

-- `edge_detect`: `buf` is read at 0, 1, `pitch` and `pitch+1`. The shifts are of numbers that are not negative.
unfoldable pub edge_detect : (ℕ → ℕ) → ℕ → ℕ
unfolding edge_abs ◌+ℤ◌
edge_detect buf pitch =
    let p00 = buf 0 % 65536 in
    let p01 = buf 0 / 65536 in
    let p02 = buf 1 % 65536 in
    let p10 = buf pitch % 65536 in
    let p11 = buf pitch / 65536 in
    let p12 = buf (pitch + 1) % 65536 in
    let sx1 = edge_abs (sub_ℕ p00 p11) in
    let sy1 = edge_abs (sub_ℕ p01 p10) in
    let sx2 = edge_abs (sub_ℕ p01 p12) in
    let sy2 = edge_abs (sub_ℕ p02 p11) in
    Prim.Native.Nat.bit_or (pos_part (sx2 +ℤ sy2) / 2 / 256 % 256 * 256)
      (pos_part (sx1 +ℤ sy1) / 2 ^ 9)

-- `z` is `n`, or up to 2 beside it if `n` does not fit 15 bits.
abbrev is_abs : ℕ → ℤ → Bool
is_abs n (pos m) = leb n (m + 2) && leb m (n + 2) && (leb 32768 n || (m == n))
is_abs n (negsuc m) = false

positive_table : passes (λ n. is_abs n (edge_abs (pos n))) 65536 ≡ true
unfolding passes edge_abs
positive_table = refl

negative_table : passes (λ n. is_abs (n + 1) (edge_abs (negsuc n))) 65535 ≡ true
unfolding passes edge_abs
negative_table = refl

abbrev pub Near : ℕ → ℤ → Type 0
Near n z = (m : ℕ) × (z ≡ pos m) × (n ≤ m + 2) × (m ≤ n + 2) × (n ≤ 32767 → m ≡ n)

is_abs-Near : (n : ℕ) (z : ℤ) → is_abs n z ≡ true → Near n z
is_abs-Near n (pos m) h = (m, refl, ground (arith, h), ground (arith, h), λ k. ground (arith, h, k))
is_abs-Near n (negsuc m) h = absurd (cc)

-- For a difference of two pixels of 16 bits the trick gives a number that is not negative, the absolute value
-- exactly if it fits 15 bits, and up to 2 beside it otherwise.
edge_abs-Near : (s : ℤ) → magnitude s < 65536 → Near (magnitude s) (edge_abs s)
edge_abs-Near (pos n) h =
    let tested =
      passes_each (λ k. is_abs k (edge_abs (pos k))) 65536 positive_table n (omega (arith, h)) in
    subst (λ k. Near k (edge_abs (pos n))) (omega arith) (is_abs-Near n (edge_abs (pos n)) tested)
edge_abs-Near (negsuc n) h =
    let tested =
      passes_each (λ k. is_abs (k + 1) (edge_abs (negsuc k))) 65535 negative_table n
        (omega (arith, h)) in
    subst (λ k. Near k (edge_abs (negsuc n))) (omega arith)
      (is_abs-Near (n + 1) (edge_abs (negsuc n)) tested)
