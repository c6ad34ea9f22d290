-- ===== src/Config/Line.antt =====
-- One line of the file: what `read_line` and `config_parse_line` make of a line that is written as
-- `name = value`.
use magic_lantern.Common.{
  ℕ, zero, suc, ◌≤◌, ◌<◌, ◌≡◌, ◌≢◌, refl, ap, Bool, true, false, ◌&&◌, some, [], ◌∷◌, ◌++◌, arith,
  ◌==◌, take, length, lt→ltb,
}
use magic_lantern.Common.Text.{Text, All}
use magic_lantern.Config.{
  parsed, is_space, skip_spaces, copy_name, trim_end, finish_value, config_parse_line, read_line,
  max_name_len, max_value_len,
}

-- A byte of a name: no white space and no `=`.
abbrev pub IsNameByte : ℕ → Type 0
IsNameByte c = (is_space c ≡ false) × (c ≢ b'=')

abbrev pub IsName : Text → Type 0
IsName name = All IsNameByte name × (length name < max_name_len) × (0 < length name)

-- A value that neither begins nor ends with white space.
abbrev pub BeginsClean : Text → Type 0
BeginsClean [] = Unit
BeginsClean (c ∷ s) = is_space c ≡ false

abbrev pub EndsClean : Text → Type 0
EndsClean [] = Unit
EndsClean (c ∷ []) = is_space c ≡ false
EndsClean (c ∷ d ∷ s) = EndsClean (d ∷ s)

abbrev pub IsValue : Text → Type 0
IsValue value = BeginsClean value × EndsClean value × (length value < max_value_len)

-- A byte that does not end or vanish from a line.
abbrev pub IsLineByte : ℕ → Type 0
IsLineByte c = (c ≢ 13) × (c ≢ 10)

-- `%s = %s`
abbrev pub format_line : Text → Text → Text
format_line name value = name ++ (b' ' ∷ b'=' ∷ b' ' ∷ value)

pub read_line-append :
    (room : ℕ) (line rest : Text)
    → All IsLineByte line
    → length line < room
    → read_line room (line ++ (10 ∷ rest)) ≡ some (line, rest)
unfolding read_line
read_line-append zero line rest h l = absurd (omega arith)
read_line-append (suc room) [] rest h l = refl
read_line-append (suc room) (c ∷ line) rest h l =
    let ih = read_line-append room line rest h.1 (omega arith) in ground (arith, h.0, ih)

pub copy_name-append :
    (room : ℕ) (name s : Text)
    → All IsNameByte name
    → length name < room
    → copy_name room (name ++ (b' ' ∷ s)) ≡ (name, b' ' ∷ s)
unfolding copy_name
copy_name-append zero name s h l = absurd (omega arith)
copy_name-append (suc room) [] s h l = refl
copy_name-append (suc room) (c ∷ name) s h l =
    let ih = copy_name-append room name s h.1 (omega arith) in ground (arith, h.0.0, h.0.1, ih)

pub skip_spaces_clean : (s : Text) → BeginsClean s → skip_spaces s ≡ s
unfolding skip_spaces
skip_spaces_clean [] h = refl
skip_spaces_clean (c ∷ s) h = rw h refl

and_not_empty : (b : Bool) (n : ℕ) → (b && suc n == 0) ≡ false
and_not_empty true n = ground arith
and_not_empty false n = refl

pub trim_end_clean : (s : Text) → EndsClean s → trim_end s ≡ s
unfolding trim_end
trim_end_clean [] h = refl
trim_end_clean (c ∷ []) h = rw h refl
trim_end_clean (c ∷ d ∷ s) h =
    rw (trim_end_clean (d ∷ s) h) (rw (and_not_empty (is_space c) (length s)) refl)

take_all : (n : ℕ) (s : Text) → length s ≤ n → take n s ≡ s
take_all zero [] h = refl
take_all zero (c ∷ s) h = absurd (omega arith)
take_all (suc n) [] h = refl
take_all (suc n) (c ∷ s) h = ap (λ t. c ∷ t) (take_all n s (omega arith))

finish_value_clean :
    (name value : Text)
    → IsValue value
    → finish_value name (skip_spaces (b' ' ∷ value))
      ≡ parsed (record { name = name; value = value })
unfolding finish_value skip_spaces
finish_value_clean name value h =
    rw
      (
        skip_spaces_clean value h.0,
        take_all 60 value (omega (arith, h.2)),
        trim_end_clean value h.1,
        lt→ltb _ _ h.2,
      )
      refl

-- A line `name = value` is parsed to that name and that value, and nothing is written out of bounds,
-- if the name has 1 to 63 bytes and no white space or `=`, and the value less than 60 bytes and no
-- white space at its ends.
pub config_parse_line-format_line :
    (name value : Text)
    → IsName name
    → IsValue value
    → config_parse_line true (format_line name value)
      ≡ parsed (record { name = name; value = value })
unfolding config_parse_line skip_spaces
config_parse_line-format_line [] value hn hv = absurd (omega (arith, hn.2))
config_parse_line-format_line (c ∷ s) value hn hv =
    rw (hn.0.0.0, copy_name-append 64 (c ∷ s) (b'=' ∷ b' ' ∷ value) hn.0 hn.1)
      (rw (short (length s) hn.1) (finish_value_clean (c ∷ s) value hv))
  where
    short : (n : ℕ) → suc n < 64 → (suc n == 64) ≡ false
    short n h = ground arith
