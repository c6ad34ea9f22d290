-- ===== src/Config/Overrun.antt =====
-- When `config_parse_line` writes past the end of the value.
use magic_lantern.Common.{
  ℕ, zero, suc, ◌≤◌, ◌<◌, ◌≡◌, ◌≢◌, refl, ◌∙◌, true, false, [], ◌∷◌, arith, ltb, ◌==◌, take, length,
  length-take, lt→ltb,
}
use magic_lantern.Common.Text.{Text}
use magic_lantern.Config.{
  overrun, skip_spaces, copy_name, trim_end, finish_value, after_name, config_parse_line,
}
use magic_lantern.Config.Line.{
  format_line, IsName, BeginsClean, EndsClean, copy_name-append, skip_spaces_clean, trim_end_clean,
}

-- A line `name = value`, with one space on each side of the `=`, a name of 1 to 63 bytes without white space or `=`, and a
-- value of 60 bytes or more with no white space first and none in its 60th byte, makes `config_parse_line` write a byte
-- past the end of the structure.
pub config_parse_line-overrun :
    (name value : Text)
    → IsName name
    → BeginsClean value
    → EndsClean (take 60 value)
    → 60 ≤ length value
    → config_parse_line true (format_line name value) ≡ overrun
unfolding config_parse_line skip_spaces finish_value
config_parse_line-overrun [] value hn hb he long = absurd (omega (arith, hn.2))
config_parse_line-overrun (c ∷ s) value hn hb he long =
    rw (hn.0.0.0, copy_name-append 64 (c ∷ s) (b'=' ∷ b' ' ∷ value) hn.0 hn.1)
      (rw (short (length s) hn.1, skip_spaces_clean value hb, trim_end_clean (take 60 value) he)
        (rw (full (length (take 60 value)) (length-take 60 value ∙ omega arith)) refl))
  where
    short : (n : ℕ) → suc n < 64 → (suc n == 64) ≡ false
    short n h = ground arith

    full : (n : ℕ) → n ≡ 60 → ltb n 60 ≡ false
    full n h = ground arith

length-skip_spaces : (s : Text) → length (skip_spaces s) ≤ length s
unfolding skip_spaces
length-skip_spaces [] = omega arith
length-skip_spaces (c ∷ s) = ground (arith, length-skip_spaces s)

length-copy_name : (room : ℕ) (s : Text) → length (copy_name room s).1 ≤ length s
unfolding copy_name
length-copy_name zero s = omega arith
length-copy_name (suc room) [] = omega arith
length-copy_name (suc room) (c ∷ s) = ground (arith, length-copy_name room s)

length-trim_end : (s : Text) → length (trim_end s) ≤ length s
unfolding trim_end
length-trim_end [] = omega arith
length-trim_end (c ∷ s) = ground (arith, length-trim_end s)

finish_value-ne-overrun : (name s : Text) → length s < 60 → finish_value name s ≢ overrun
unfolding finish_value
finish_value-ne-overrun name s h =
    let fits : length (trim_end (take 60 s)) < 60 =
      omega (arith, length-trim_end (take 60 s), length-take 60 s) in
    rw (lt→ltb _ _ fits) (λ e. cc)

after_name-ne-overrun : (name s : Text) → length s ≤ 60 → after_name name s ≢ overrun
unfolding after_name
after_name-ne-overrun name [] h = cc
after_name-ne-overrun name (c ∷ s) h =
    ground (arith, finish_value-ne-overrun name (skip_spaces s), length-skip_spaces s)

-- No line of at most 60 bytes makes it write out of bounds.
config_parse_line-ne-overrun :
    (line : Text) → length line ≤ 60 → config_parse_line true line ≢ overrun
unfolding config_parse_line
config_parse_line-ne-overrun line h =
    let (name, rest) = copy_name 64 (skip_spaces line) in
    ground (
      arith,
      after_name-ne-overrun name (skip_spaces rest),
      length-skip_spaces rest,
      length-copy_name 64 (skip_spaces line),
      length-skip_spaces line,
    )
