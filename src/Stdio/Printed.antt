-- ===== src/Stdio/Printed.antt =====
-- The digits of a number in a base, and what `strtoul` reads from them.
use native.Mathlib.Nat.{div-add-mod', mod-lt, div-lt_self}
use magic_lantern.Common.{
  ℕ, zero, suc, ◌+◌, ◌-◌, ◌*◌, ◌/◌, ◌%◌, ◌^◌, ◌≤◌, ◌<◌, ◌≡◌, ◌≢◌, refl, ap, ◌∙◌, Bool, true, false,
  not, ◌&&◌, ◌||◌, Bool-cases, inl, inr, [], ◌∷◌, arith, ltb, leb, ◌==◌, if◌then◌else◌,
}
use magic_lantern.Common.Range.{passes, passes_each}
use magic_lantern.Common.Text.{Text}
use magic_lantern.Common.Word.{u32}
use magic_lantern.Stdio.{is_space, skip_white, read_sign, read_base, digit_of, ulong_max, strtoul}
use magic_lantern.Stdio.Digits.{value_from}
use magic_lantern.Stdio.Numbers.{strtol-number_of, sign_of, base_of, number_of}

-- The digits 0 to 9, a to z.
abbrev pub digit_char : ℕ → ℕ
digit_char d = if ltb d 10 then d + b'0' else d + (b'a' - 10)

-- The digits of `n`, the highest first, before a rest.
unfoldable pub print_from : ℕ → ℕ → ℕ → Text → Text
print_from zero base n rest = rest
print_from (suc fuel) base n rest =
    let more = print_from fuel base (n / base) (digit_char (n % base) ∷ rest) in
    if ltb n base then digit_char n ∷ rest else more

abbrev pub print_in : ℕ → ℕ → Text
print_in base n = print_from (n + 1) base n []

-- A digit is read as itself, and is no white space and no sign.
digit_table :
    passes
      (λ d.
        (digit_of (digit_char d) == d)
        && not (is_space (digit_char d))
        && not (digit_char d == b'-')
        && not (digit_char d == b'+'))
      36
    ≡ true
unfolding passes digit_of is_space
digit_table = refl

abbrev IsRead : ℕ → Type 0
IsRead d =
    (digit_of (digit_char d) ≡ d)
    × (is_space (digit_char d) ≡ false)
    × (((digit_char d) == b'-') ≡ false)
    × (((digit_char d) == b'+') ≡ false)

digit-IsRead : (d : ℕ) → d < 36 → IsRead d
digit-IsRead d h =
    parts (digit_of (digit_char d)) d (is_space (digit_char d)) (digit_char d == b'-')
      (digit_char d == b'+')
      (passes_each
        (λ d.
          (digit_of (digit_char d) == d)
          && not (is_space (digit_char d))
          && not (digit_char d == b'-')
          && not (digit_char d == b'+'))
        36 digit_table d h)
  where
    parts :
        (v d : ℕ) (s m p : Bool)
        → ((v == d) && not s && not m && not p) ≡ true
        → (v ≡ d) × (s ≡ false) × (m ≡ false) × (p ≡ false)
    parts v d s m p h = ground (arith, h)

value_from_digit :
    (base acc d : ℕ) (rest : Text)
    → d < base
    → base ≤ 36
    → value_from base acc (digit_char d ∷ rest) ≡ value_from base (acc * base + d) rest
unfolding value_from
value_from_digit base acc d rest h high =
    let read = (digit-IsRead d (omega (arith, h, high))).0 in
    let more : leb base (digit_of (digit_char d)) ≡ false = rw read (below base d h) in
    rw (more, read) refl
  where
    below : (base d : ℕ) → d < base → leb base d ≡ false
    below base d h = ground (arith, h)

value_from-print_from :
    (fuel base n : ℕ) (rest : Text)
    → n < fuel
    → 2 ≤ base
    → base ≤ 36
    → value_from base 0 (print_from fuel base n rest) ≡ value_from base n rest
unfolding print_from
value_from-print_from zero base n rest h low high = absurd (omega (arith, h))
value_from-print_from (suc fuel) base n rest h low high = elim (Bool-cases (ltb n base)) [
  | inl last ↦ rw last (
      value_from_digit base 0 n rest (ground (arith, last)) high
      ∙ ap (λ v. value_from base v rest) (grind arith))
  | inr more ↦
      let pos : 0 < n = ground (arith, more, low) in
      let falls : n / base < n = div-lt_self pos low in
      let ih =
        value_from-print_from fuel base (n / base) (digit_char (n % base) ∷ rest)
          (omega (arith, falls, h)) low high in
      rw more (
        ih
        ∙ value_from_digit base (n / base) (n % base) rest (mod-lt n (omega (arith, low))) high
        ∙ ap (λ v. value_from base v rest) (div-add-mod' n base))
]

-- The first of the digits.
first_digit :
    (fuel base n : ℕ) (rest : Text)
    → n < fuel
    → 2 ≤ base
    → (d : ℕ) × (tail : Text) × (d < base) × (print_from fuel base n rest ≡ digit_char d ∷ tail)
unfolding print_from
first_digit zero base n rest h low = absurd (omega (arith, h))
first_digit (suc fuel) base n rest h low = elim (Bool-cases (ltb n base)) [
  | inl last ↦ (n, rest, ground (arith, last), rw last refl)
  | inr more ↦
      let pos : 0 < n = ground (arith, more, low) in
      let falls : n / base < n = div-lt_self pos low in
      let (d, tail, small, e) =
        first_digit fuel base (n / base) (digit_char (n % base) ∷ rest) (omega (arith, falls, h))
          low in
      (d, tail, small, rw more e)
]

-- Digits begin with neither white space nor a sign.
plain_lem :
    (d : ℕ) (tail : Text)
    → d < 36
    → read_sign (skip_white (digit_char d ∷ tail)) ≡ (false, digit_char d ∷ tail)
unfolding read_sign skip_white
plain_lem d tail h =
    let (_, white, minus, plus) = digit-IsRead d h in rw white (rw (minus, plus) refl)

plain-print_in :
    (base n : ℕ)
    → 2 ≤ base
    → base ≤ 36
    → read_sign (skip_white (print_in base n)) ≡ (false, print_in base n)
plain-print_in base n low high =
    let (d, tail, small, e) = first_digit (n + 1) base n [] (omega arith) low in
    rw e (plain_lem d tail (omega (arith, small, high)))

static_base : (base : ℕ) (s : Text) → 2 ≤ base → base ≢ 16 → read_base base s ≡ (base, s)
unfolding read_base
static_base base s low other =
    let static : ((base == 0) || (base == 16)) ≡ false = ground (arith, low, other) in
    rw static refl

-- How a text is taken apart once its sign and its base are known.
taken_apart :
    (str rest digits : Text) (base b : ℕ)
    → read_sign (skip_white str) ≡ (false, rest)
    → read_base base rest ≡ (b, digits)
    → (base_of str base ≡ b) × (number_of str base ≡ value_from b 0 digits) × (sign_of str ≡ false)
taken_apart str rest digits base b sign prefix =
    let both : read_base base (read_sign (skip_white str)).1 ≡ (b, digits) =
      ap (λ s. read_base base s.1) sign ∙ prefix in
    (ap (λ r. r.0) both, ap (λ r. value_from r.0 0 r.1) both, ap (λ s. s.0) sign)

-- A number below 2 ^ 32, written in a base from 2 to 36 other than 16, is read back by `strtoul` in that base.
pub strtoul-print_in :
    (base n : ℕ)
    → 2 ≤ base
    → base ≤ 36
    → base ≢ 16
    → n < 2 ^ 32
    → strtoul (print_in base n) base ≡ n
unfolding value_from
strtoul-print_in base n low high other small =
    let str = print_in base n in
    let (same, number, sign) =
      taken_apart str str str base base (plain-print_in base n low high)
        (static_base base str low other) in
    let back : number_of str base ≡ n =
      number
      ∙ value_from-print_from (n + 1) base n [] (omega arith) low high
      ∙ nothing_more base n in
    let fits : ltb ulong_max n ≡ false = ground (arith, small) in
    (strtol-number_of str base (omega (arith, same, low)) (omega (arith, same, high))).1
    ∙ returned (number_of str base) n (sign_of str) back sign fits
  where
    nothing_more : (base n : ℕ) → value_from base n [] ≡ n
    nothing_more base n = refl

    returned :
        (v n : ℕ) (sign : Bool)
        → v ≡ n
        → sign ≡ false
        → ltb ulong_max n ≡ false
        → (if ltb ulong_max v then ulong_max else (if sign then u32 (2 ^ 32 - v) else v)) ≡ n
    returned v n sign e s f = ground (arith, e, s, f)

-- With the prefix `0x` a number is read back as hexadecimal, in a base that is left open.
pub strtoul-print_in_hex : (n : ℕ) → n < 2 ^ 32 → strtoul (b'0' ∷ b'x' ∷ print_in 16 n) 0 ≡ n
unfolding read_base skip_white read_sign is_space value_from
strtoul-print_in_hex n small =
    let fits : ltb ulong_max n ≡ false = ground (arith, small) in
    let number = value_from-print_from (n + 1) 16 n [] (omega arith) (omega arith) (omega arith) in
    (strtol-number_of (b'0' ∷ b'x' ∷ print_in 16 n) 0 (omega arith) (omega arith)).1
    ∙ rw (number, fits) refl
