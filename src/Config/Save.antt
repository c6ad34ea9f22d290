-- ===== src/Config/Save.antt =====
-- `config_save_file`: the variables written back, one line each, by `fprintf`.
use magic_lantern.Common.{
  ℕ, zero, suc, ◌+◌, ◌-◌, ◌/◌, ◌%◌, ◌^◌, List, [], ◌∷◌, ◌++◌, ltb, if◌then◌else◌,
}
use magic_lantern.Common.Text.{Text}
use magic_lantern.Config.{Value, int, str, ConfigVar}
use magic_lantern.Config.Line.{format_line}

-- The decimal digits of a number, most significant first, in at most `fuel` places.
unfoldable pub digits : ℕ → ℕ → Text
digits zero n = []
digits (suc fuel) n =
    let rest = digits fuel (n / 10) in
    if ltb n 10 then (n + b'0') ∷ [] else rest ++ ((n % 10 + b'0') ∷ [])

-- `%d` of an `unsigned`: its bits are printed as an `int`. Ten digits are enough below 2^32.
unfoldable pub format_d : ℕ → Text
format_d n = if ltb n (2 ^ 31) then digits 10 n else b'-' ∷ digits 10 (2 ^ 32 - n)

abbrev pub format_value : Value → Text
format_value (int n) = format_d n
format_value (str s) = s

-- The loop over the variables.
unfoldable pub save_vars : List ConfigVar → Text
save_vars [] = []
save_vars (v ∷ vars) = format_line v.name (format_value v.value) ++ (10 ∷ save_vars vars)

-- The lines of a list, each with its end of line.
abbrev pub unlines : List Text → Text
unlines [] = []
unlines (l ∷ ls) = l ++ (10 ∷ unlines ls)

-- The bytes of the file. `comments` are the three lines with the build and the date.
unfoldable pub config_save_file : List Text → List ConfigVar → Text
config_save_file comments vars = unlines comments ++ save_vars vars
