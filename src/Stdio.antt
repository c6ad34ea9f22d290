-- ===== src/Stdio.antt =====
-- stdio.c: the reading of numbers, and `realloc`. `unsigned long` has 32 bits, and a text is its bytes without the 0.
pub mod Digits
pub mod Numbers
pub mod Printed
pub mod Realloc
mod Tests
use magic_lantern.Common.{
  ℕ, zero, suc, ◌+◌, ◌-◌, ◌*◌, ◌/◌, ◌%◌, ◌^◌, Bool, true, false, ◌&&◌, ◌||◌, List, [], ◌∷◌, bit_or,
  ltb, leb, ◌==◌, if◌then◌else◌,
}
use magic_lantern.Common.Word.{u32}
use magic_lantern.Common.Text.{Text}

unfoldable pub is_space : ℕ → Bool
is_space c = (c == b' ') || (c == b'\t') || (c == b'\r') || (c == b'\n')

unfoldable pub skip_white : Text → Text
unfolding is_space
skip_white [] = []
skip_white (c ∷ s) = if is_space c then skip_white s else c ∷ s

-- The optional sign: whether it is `-`, and what follows it.
unfoldable pub read_sign : Text → Bool × Text
read_sign [] = (false, [])
read_sign (c ∷ s) =
    if c == b'-' then (true, s) else if c == b'+' then (false, s) else (false, c ∷ s)

-- `(0x20|(*str)) == 'x'`
unfoldable pub skip_x : ℕ → Text → ℕ × Text
skip_x base [] = (base, [])
skip_x base (c ∷ s) = if bit_or 0x20 c == b'x' then (base + base, s) else (base, c ∷ s)

unfoldable pub skip_zero : ℕ → Text → ℕ × Text
unfolding skip_x
skip_zero base [] = (base, [])
skip_zero base (c ∷ s) = if c == b'0' then skip_x (base - 2) s else (base, c ∷ s)

-- The base, where it is dynamic (0) or 16, by the prefix of the number. `base` is the bits of the `int`.
unfoldable pub read_base : ℕ → Text → ℕ × Text
unfolding skip_zero
read_base base s =
    if (base == 0) || (base == 16)
    then (let (b, rest) = skip_zero (base + 10) s in (if ltb 16 b then 16 else b, rest))
    else (base, s)

-- `digit`; 40 is the bad value.
unfoldable pub digit_of : ℕ → ℕ
digit_of c =
    if leb ((c + 256 - b'0') % 256) 9
    then c - b'0'
    else if leb b'a' (bit_or 0x20 c)
    then bit_or 0x20 c - (b'a' - 10)
    else 40

abbrev pub ulong_max : ℕ
ulong_max = 2 ^ 32 - 1

-- The loop over the digits: `number` and `negative`.
unfoldable pub read_digits : ℕ → Bool → Text → ℕ × Bool → ℕ × Bool
read_digits base sflag [] r = r
read_digits base sflag (c ∷ s) (number, negative) =
    let digit = digit_of c in
    let cutoff = ulong_max / base in
    let cutoff_digit = ulong_max % base in
    let rest = read_digits base sflag s (
      if ltb cutoff number || ((number == cutoff) && ltb cutoff_digit digit)
      then (ulong_max, negative && sflag)
      else (number * base + digit, negative)) in
    if leb base digit then (number, negative) else rest

-- The end of `strto_l`: the limit of a `long`, and the sign. LONG_MIN is -2^31.
unfoldable pub finish : Bool → ℕ × Bool → ℕ
finish sflag (number, negative) =
    let limit = if negative then 2 ^ 31 else 2 ^ 31 - 1 in
    let number = if sflag && ltb limit number then limit else number in
    if negative then u32 (2 ^ 32 - number) else number

unfoldable pub strto_l : Bool → Text → ℕ → ℕ
strto_l sflag str base =
    let (negative, unsigned) = read_sign (skip_white str) in
    let (b, digits) = read_base base unsigned in
    finish sflag (
      if ltb (u32 (b + 2 ^ 32 - 2)) 35
      then read_digits b sflag digits (0, negative)
      else (0, negative))

unfoldable pub strtol : Text → ℕ → ℕ
unfolding strto_l
strtol str base = strto_l true str base

unfoldable pub strtoul : Text → ℕ → ℕ
unfolding strto_l
strtoul str base = strto_l false str base
