-- ===== src/Stdio/Numbers.antt =====
-- What `strtol` and `strtoul` return.
use magic_lantern.Common.{
  ℕ, ◌+◌, ◌-◌, ◌^◌, ◌≤◌, ◌≡◌, refl, ap, ◌∙◌, Bool, true, false, arith, min, ltb, if◌then◌else◌,
}
use magic_lantern.Common.Int.{pos, neg_ℕ}
use magic_lantern.Common.Text.{Text}
use magic_lantern.Common.Word.{u32, to_int}
use magic_lantern.Stdio.{
  skip_white, read_sign, read_base, ulong_max, finish, strto_l, strtol, strtoul,
}
use magic_lantern.Stdio.Digits.{value_from, held, read_digits_lem}

-- What the text is taken apart into: its sign, its base, and the number of the digits after the prefix.
abbrev pub sign_of : Text → Bool
sign_of str = (read_sign (skip_white str)).0

abbrev pub base_of : Text → ℕ → ℕ
base_of str base = (read_base base (read_sign (skip_white str)).1).0

abbrev pub number_of : Text → ℕ → ℕ
number_of str base =
    value_from (base_of str base) 0 (read_base base (read_sign (skip_white str)).1).1

strto_l_lem :
    (sflag : Bool) (str : Text) (base : ℕ)
    → 2 ≤ base_of str base
    → base_of str base ≤ 36
    → strto_l sflag str base ≡ finish sflag (held sflag (sign_of str) (number_of str base))
unfolding strto_l
strto_l_lem sflag str base low high =
    let legal : ltb (u32 (base_of str base + 2 ^ 32 - 2)) 35 ≡ true = ground (arith, low, high) in
    let loop =
      read_digits_lem (base_of str base) sflag (sign_of str)
        (read_base base (read_sign (skip_white str)).1).1 0 low in
    rw (legal, loop) refl

-- The signed number: within the limits of a `long` the one that the text stands for, and beyond them the limit.
finish_signed :
    (negative : Bool) (v : ℕ)
    → to_int (finish true (held true negative v))
      ≡ (if negative then neg_ℕ (min v (2 ^ 31)) else pos (min v (2 ^ 31 - 1)))
unfolding finish
finish_signed true v = ground arith
finish_signed false v = ground arith

finish_unsigned :
    (negative : Bool) (v : ℕ)
    → finish false (held false negative v)
      ≡ (if ltb ulong_max v then ulong_max else (if negative then u32 (2 ^ 32 - v) else v))
unfolding finish
finish_unsigned true v = ground arith
finish_unsigned false v = ground arith

-- For a text whose base is between 2 and 36, `strtol` gives the number of its digits with its sign, or the limit of a
-- `long` on that side, and `strtoul` the number, the largest one where it does not fit, and with `-` its complement.
pub strtol-number_of :
    (str : Text) (base : ℕ)
    → 2 ≤ base_of str base
    → base_of str base ≤ 36
    → let v = number_of str base in
      (to_int (strtol str base)
        ≡ (if sign_of str then neg_ℕ (min v (2 ^ 31)) else pos (min v (2 ^ 31 - 1))))
      × (strtoul str base
          ≡ (if ltb ulong_max v then ulong_max else (if sign_of str then u32 (2 ^ 32 - v) else v)))
unfolding strtol strtoul
strtol-number_of str base low high = (
  ap to_int (strto_l_lem true str base low high) ∙ finish_signed (sign_of str) (number_of str base),
  strto_l_lem false str base low high ∙ finish_unsigned (sign_of str) (number_of str base),
)
