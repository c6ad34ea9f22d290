-- ===== src/Config/Digits.antt =====
-- `atoi` and the `%d` of config.c.
use magic_lantern.Common.{
  ℕ, zero, suc, ◌+◌, ◌-◌, ◌*◌, ◌/◌, ◌%◌, ◌^◌, ◌≤◌, ◌<◌, ◌≡◌, refl, ◌∙◌, [], ◌∷◌, ◌++◌, arith, ltb,
  length, length-append, Bool-cases, lt→ltb, inl, inr,
}
use native.Mathlib.Nat.{pow-suc}
use magic_lantern.Common.Word.{u32}
use magic_lantern.Common.Text.{Text, All}
use magic_lantern.Config.{atoi_from, atoi}
use magic_lantern.Config.Save.{digits, format_d}

abbrev pub IsDigit : ℕ → Type 0
IsDigit c = (b'0' ≤ c) × (c ≤ b'9')

All-append {ℓ} : (P : ℕ → Type ℓ) (xs ys : Text) → All P xs → All P ys → All P (xs ++ ys)
All-append P [] ys h k = k
All-append P (x ∷ xs) ys h k = (h.0, All-append P xs ys h.1 k)

pub digits-IsDigit : (fuel n : ℕ) → All IsDigit (digits fuel n)
unfolding digits
digits-IsDigit zero n = tt
digits-IsDigit (suc fuel) n = elim (Bool-cases (ltb n 10)) [
  | inl small ↦ rw small (ground (arith, small))
  | inr big ↦
      rw big
        (All-append IsDigit (digits fuel (n / 10)) _ (digits-IsDigit fuel (n / 10)) (omega arith))
]

length-digits_le : (fuel n : ℕ) → length (digits fuel n) ≤ fuel
unfolding digits
length-digits_le zero n = omega arith
length-digits_le (suc fuel) n = elim (Bool-cases (ltb n 10)) [
  | inl small ↦ rw small (omega arith)
  | inr big ↦
      rw (big, length-append (digits fuel (n / 10)) _)
        (omega (arith, length-digits_le fuel (n / 10)))
]

pub length-digits :
    (fuel n : ℕ) → 0 < fuel → (length (digits fuel n) ≤ fuel) × (0 < length (digits fuel n))
unfolding digits
length-digits zero n h = absurd (omega arith)
length-digits (suc fuel) n h = elim (Bool-cases (ltb n 10)) [
  | inl small ↦ rw small (omega arith)
  | inr big ↦
      rw (big, length-append (digits fuel (n / 10)) _)
        (omega (arith, length-digits_le fuel (n / 10)))
]

atoi_from-append :
    (value : ℕ) (xs ys : Text)
    → All IsDigit xs
    → atoi_from value (xs ++ ys) ≡ atoi_from (atoi_from value xs) ys
unfolding atoi_from
atoi_from-append value [] ys h = refl
atoi_from-append value (c ∷ xs) ys h =
    let ih = atoi_from-append (u32 (value * 10 + (c - b'0'))) xs ys h.1 in ground (arith, h.0, ih)

one_place : (fuel n : ℕ) → n < 10 ^ suc fuel → n / 10 < 10 ^ fuel
one_place fuel n h = let h' : n < 10 ^ fuel * 10 = rw (← pow-suc 10 fuel) h in omega (arith, h')

last_digit : (n : ℕ) → n < 2 ^ 32 → atoi_from (n / 10) ((n % 10 + b'0') ∷ []) ≡ n
unfolding atoi_from
last_digit n w = ground arith

atoi-digits : (fuel n : ℕ) → n < 10 ^ fuel → n < 2 ^ 32 → atoi_from 0 (digits fuel n) ≡ n
unfolding digits atoi_from
atoi-digits zero n h w = omega (arith, h)
atoi-digits (suc fuel) n h w = elim (Bool-cases (ltb n 10)) [
  | inl small ↦ rw small (ground (arith, small))
  | inr big ↦ rw big (
      atoi_from-append 0 (digits fuel (n / 10)) ((n % 10 + b'0') ∷ [])
        (digits-IsDigit fuel (n / 10))
      ∙ rw (atoi-digits fuel (n / 10) (one_place fuel n h) (omega arith)) (last_digit n w))
]

-- An `unsigned` below 2^31 is printed by `%d` and read back by `atoi` unchanged.
pub atoi-format_d : (n : ℕ) → n < 2 ^ 31 → atoi (format_d n) ≡ n
unfolding atoi format_d
atoi-format_d n h = rw (lt→ltb _ _ h) (atoi-digits 10 n (omega arith) (omega arith))

-- One from 2^31 on is printed with a minus sign, and read back as 0.
atoi-format_d_negative : (n : ℕ) → 2 ^ 31 ≤ n → atoi (format_d n) ≡ 0
unfolding atoi format_d atoi_from
atoi-format_d_negative n h = ground arith
