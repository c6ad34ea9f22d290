-- ===== src/Config.antt =====
-- config.c: the configuration file. A line is `name = value`; the variables that CONFIG_INT and
-- CONFIG_STR declare are set as their lines are read.
pub mod Save
pub mod Line
pub mod Digits
pub mod RoundTrip
pub mod Overrun
pub mod Values
pub mod File
mod Tests
use magic_lantern.Common.{
  ℕ, zero, suc, ◌+◌, ◌-◌, ◌*◌, Bool, true, false, not, ◌&&◌, ◌||◌, Option, none, some, List, [],
  ◌∷◌, ◌++◌, ltb, ◌==◌, if◌then◌else◌, take, length,
}
use mathlib.Core.Option
use magic_lantern.Common.Word.{u32}
use magic_lantern.Common.Text.{Text, streq, c_string}

abbrev pub max_name_len : ℕ
max_name_len = 64

abbrev pub max_value_len : ℕ
max_value_len = 60

-- `struct config`; the list that `next` makes is a `List Config`, newest first.
pub record Config : Type 0 where
  pub name : Text
  pub value : Text

-- What a `struct config_var` points at: type 0 is an `unsigned`, type 1 a `char *`.
pub data Value : Type 0 where
  int : ℕ → Value
  str : Text → Value

pub record ConfigVar : Type 0 where
  pub name : Text
  pub value : Value

abbrev pub is_space : ℕ → Bool
is_space c = c == b' ' || c == 9 || c == 13 || c == 10

-- `while( line[i] && is_space( line[i] ) ) i++;`
unfoldable pub skip_spaces : Text → Text
skip_spaces [] = []
skip_spaces (c ∷ s) = if is_space c then skip_spaces s else c ∷ s

-- The loop that copies the name, with `MAX_NAME_LEN - name_len` places left: the name and the rest.
unfoldable pub copy_name : ℕ → Text → Text × Text
copy_name zero s = ([], s)
copy_name (suc room) [] = ([], [])
copy_name (suc room) (c ∷ s) =
    let (name, rest) = copy_name room s in
    if not (is_space c) && not (c == b'=') then (c ∷ name, rest) else ([], c ∷ s)

-- Backing up over white space at the end of the value.
unfoldable pub trim_end : Text → Text
trim_end [] = []
trim_end (c ∷ s) = let t = trim_end s in if is_space c && length t == 0 then [] else c ∷ t

-- The outcome of `config_parse_line`. `overrun`: the byte 0 after the value is written past the
-- end of `value`, outside of the allocated structure.
pub data Parsed : Type 0 where
  parsed : Config → Parsed
  parse_error : Parsed
  malloc_error : Parsed
  overrun : Parsed

-- From the value on: `value[ value_len ] = '\0'` is in bounds only below MAX_VALUE_LEN.
unfoldable pub finish_value : Text → Text → Parsed
finish_value name s =
    let value = trim_end (take max_value_len s) in
    if ltb (length value) max_value_len
    then parsed (record { name = name; value = value })
    else overrun

unfoldable pub after_name : Text → Text → Parsed
after_name name [] = parse_error
after_name name (c ∷ s) = if c == b'=' then finish_value name (skip_spaces s) else parse_error

-- `config_parse_line`; `memory` is whether `malloc` gives a block.
unfoldable pub config_parse_line : Bool → Text → Parsed
unfolding after_name
config_parse_line false line = malloc_error
config_parse_line true line =
    let (name, rest) = copy_name max_name_len (skip_spaces line) in
    if length name == max_name_len then parse_error else after_name name (skip_spaces rest)

-- `read_line` with `size - len` places left, on the bytes of the file from the current position:
-- the line and the bytes after it. `none` is the result -1, at the end of the file or of the buffer.
unfoldable pub read_line : ℕ → Text → Option (Text × Text)
read_line zero file = none
read_line (suc room) [] = none
read_line (suc room) (c ∷ file) =
    let skipped = read_line (suc room) file in
    let kept = read_line room file in
    if c == 13
    then skipped
    else if c == 10
    then some ([], file)
    else Option.map (λ (r : Text × Text). (c ∷ r.0, r.1)) kept

-- `atoi`: an `int` sum, kept as its 32 bits.
unfoldable pub atoi_from : ℕ → Text → ℕ
atoi_from value [] = value
atoi_from value (c ∷ s) =
    let rest = atoi_from (u32 (value * 10 + (c - b'0'))) s in
    if ltb c b'0' || ltb b'9' c then value else rest

unfoldable pub atoi : Text → ℕ
unfolding atoi_from
atoi s = atoi_from 0 s

abbrev pub assign : Value → Text → Value
assign (int n) s = int (atoi s)
assign (str t) s = str s

-- `config_auto_parse`: the first variable of that name is set.
unfoldable pub config_auto_parse : Config → List ConfigVar → List ConfigVar
config_auto_parse c [] = []
config_auto_parse c (v ∷ vars) =
    if streq v.name c.name
    then record v { value = assign v.value c.value } ∷ vars
    else v ∷ config_auto_parse c vars

-- `if( line_buf[0] == '#' || line_buf[0] == '\0' )`
abbrev pub is_ignored : Text → Bool
is_ignored [] = true
is_ignored (c ∷ s) = c == b'#'

-- What `config_parse` leaves: the variables and the list, which is empty after a parse error; or
-- the overrun of a line, whose effect is not defined. `no_fuel` does not happen (module Values).
pub data Loaded : Type 0 where
  loaded : List ConfigVar → List Config → Loaded
  failed : List ConfigVar → Loaded
  overran : Loaded
  no_fuel : Loaded

-- What becomes of one line that is not ignored.
abbrev pub next_line :
    (List ConfigVar → List Config → Loaded) → List ConfigVar → List Config → Parsed → Loaded
next_line continue vars configs (parsed c) = continue (config_auto_parse c vars) (c ∷ configs)
next_line continue vars configs parse_error = failed vars
next_line continue vars configs malloc_error = failed vars
next_line continue vars configs overrun = overran

-- One round of the loop of `config_parse`, with memory at hand; `continue` is the rest of the loop.
abbrev pub one_line :
    (List ConfigVar → List Config → Text → Loaded)
    → List ConfigVar
    → List Config
    → Option (Text × Text)
    → Loaded
one_line continue vars configs none = loaded vars configs
one_line continue vars configs (some (buf, rest)) =
    let line = c_string buf in
    let skip = continue vars configs rest in
    let next =
      next_line (λ vs cs. continue vs cs rest) vars configs (config_parse_line true line) in
    if is_ignored line then skip else next

-- The loop. Each line takes a byte of the file at least.
unfoldable pub parse_lines : ℕ → List ConfigVar → List Config → Text → Loaded
parse_lines zero vars configs file = no_fuel
parse_lines (suc fuel) vars configs file =
    one_line (parse_lines fuel) vars configs (read_line (max_name_len + max_value_len) file)

unfoldable pub config_parse : List ConfigVar → Text → Loaded
config_parse vars file = parse_lines (length file + 1) vars [] file

unfoldable pub config_value : List Config → Text → Option Text
config_value [] name = none
config_value (c ∷ configs) name =
    if streq c.name name then some c.value else config_value configs name

unfoldable pub config_int : List Config → Text → ℕ → ℕ
config_int configs name def = elim (config_value configs name) [ none ↦ def | some s ↦ atoi s ]
