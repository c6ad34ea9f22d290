-- ===== src/Config/Tests.antt =====
-- config.c at concrete inputs.
use magic_lantern.Common.{none, ◌≡◌, ◌≢◌, refl, true, List, [], ◌∷◌, ◌++◌, arith, replicate}
use magic_lantern.Common.Text.{Text}
use magic_lantern.Config.File.{head_name, fail_name, with_head, config_parse_file}
use magic_lantern.Config.{
  Config, ConfigVar, int, str, overrun, loaded, failed, no_fuel, config_parse_line, config_parse,
  parse_lines, read_line, skip_spaces, copy_name, trim_end, finish_value, config_auto_parse, atoi,
}
use magic_lantern.Config.Line.{format_line}
use magic_lantern.Config.Save.{config_save_file, format_d, digits}
use magic_lantern.Config.Digits.{atoi-format_d}
use magic_lantern.Config.RoundTrip.{config_parse-config_save_file}
use magic_lantern.Config.Overrun.{config_parse_line-overrun}
use magic_lantern.Config.Values.{config_parse-ends, Agrees, config_parse-Agrees}

-- "ab", "cd", "x"
abbrev ab : Text
ab = b'a' ∷ b'b' ∷ []

abbrev cd : Text
cd = b'c' ∷ b'd' ∷ []

abbrev declared : List ConfigVar
declared = record { name = ab; value = int 4 } ∷ record { name = cd; value = str [] } ∷ []

abbrev tuned : List ConfigVar
tuned = record { name = ab; value = int 120 } ∷ record { name = cd; value = str (b'x' ∷ []) } ∷ []

abbrev comment : Text
comment = b'#' ∷ b' ' ∷ []

atoi-format_d_example : atoi (format_d 120) ≡ 120
atoi-format_d_example = atoi-format_d 120 (omega arith)

config_parse-config_save_file_example :
    (cs : List Config) × (config_parse declared (config_save_file (comment ∷ []) tuned)
      ≡ loaded tuned cs)
unfolding format_d digits
config_parse-config_save_file_example =
    config_parse-config_save_file (comment ∷ []) declared tuned (ground arith) (ground arith)
      (ground arith) (ground arith)

config_parse_line-overrun_example :
    config_parse_line true (format_line ab (replicate 60 b'x')) ≡ overrun
config_parse_line-overrun_example =
    config_parse_line-overrun ab (replicate 60 b'x') (ground arith, omega arith, omega arith) refl
      refl (omega arith)

config_parse-ends_example : config_parse declared (ab ++ (10 ∷ cd)) ≢ no_fuel
config_parse-ends_example = config_parse-ends declared (ab ++ (10 ∷ cd))

-- "ab=1\n": the list has one entry.
one_line_file :
    config_parse declared (b'a' ∷ b'b' ∷ b'=' ∷ b'1' ∷ 10 ∷ [])
    ≡ loaded
        (record { name = ab; value = int 1 } ∷ record { name = cd; value = str [] } ∷ [])
        (record { name = ab; value = b'1' ∷ [] } ∷ [])
unfolding config_parse parse_lines read_line config_parse_line skip_spaces copy_name finish_value
    trim_end config_auto_parse atoi
one_line_file = refl

config_parse-Agrees_example :
    Agrees
      (record { name = ab; value = int 1 } ∷ record { name = cd; value = str [] } ∷ [])
      (record { name = ab; value = b'1' ∷ [] } ∷ [])
config_parse-Agrees_example = config_parse-Agrees declared _ _ _ (ground arith) one_line_file

-- A line with no `=` ends the parse.
broken_file : config_parse declared (b'a' ∷ b'b' ∷ 10 ∷ []) ≡ failed declared
unfolding config_parse parse_lines read_line config_parse_line skip_spaces copy_name
broken_file = refl

-- A last line with no end of line is not read.
unfinished_file : config_parse declared (b'a' ∷ b'b' ∷ b'=' ∷ b'1' ∷ []) ≡ loaded declared []
unfolding config_parse parse_lines read_line
unfinished_file = refl

-- Without a file the list has its name and the mark of the failure.
missing_file :
    (config_parse_file declared ab none)
    ≡ loaded declared (
        record { name = head_name; value = ab }
        ∷ record { name = fail_name; value = b'1' ∷ [] }
        ∷ [])
unfolding config_parse_file with_head
missing_file = refl
