-- ===== src/Config/RoundTrip.antt =====
-- Reading the file that `config_save_file` wrote.
mod Bytes
use magic_lantern.Common.{
  ℕ, zero, suc, ◌+◌, ◌≤◌, ◌<◌, ◌≡◌, ◌≢◌, refl, sym, ap, ◌∙◌, true, false, none, some, List, [], ◌∷◌,
  ◌++◌, append_assoc, arith, ◌==◌, if◌then◌else◌, length, length-append,
}
use magic_lantern.Common.Text.{Text, All, streq, streq_refl, streq_of_ne, c_string}
use magic_lantern.Config.{
  Config, ConfigVar, Value, int, str, Loaded, loaded, read_line, assign, config_auto_parse,
  config_parse_line, next_line, parse_lines, config_parse, is_ignored,
}
use magic_lantern.Config.Line.{
  format_line, IsName, IsValue, read_line-append, config_parse_line-format_line,
}
use magic_lantern.Config.Save.{format_value, format_d, save_vars, unlines, config_save_file}
use magic_lantern.Config.Digits.{atoi-format_d}
use Bytes.{
  IsTextByte, SavableValue, All-append, format_value-IsValue, format_value-IsTextByte,
  format_line-IsTextByte, All-IsLineByte, c_string_clean,
}

-- A variable whose line can be read back.
pub record Savable (v : ConfigVar) : Type 0 where
  pub name_ok : IsName v.name
  pub name_bytes : All IsTextByte v.name
  pub no_comment : is_ignored v.name ≡ false
  pub value_ok : SavableValue v.value
  pub fits : length (format_line v.name (format_value v.value)) < 124

-- A line that `config_parse` passes over.
pub record IsComment (l : Text) : Type 0 where
  pub bytes : All IsTextByte l
  pub hash : is_ignored l ≡ true
  pub fits : length l < 124

-- The same declaration, with any value.
abbrev pub Alike : Value → Value → Type 0
Alike (int m) (int n) = Unit
Alike (str s) (str t) = Unit
Alike _ _ = ⊥

abbrev pub SameVars : List ConfigVar → List ConfigVar → Type 0
SameVars [] [] = Unit
SameVars (o ∷ os) (v ∷ vs) = (o.name ≡ v.name) × Alike o.value v.value × SameVars os vs
SameVars _ _ = ⊥

abbrev pub Distinct : List ConfigVar → Type 0
Distinct [] = Unit
Distinct (v ∷ vs) = All (λ w. v.name ≢ w.name) vs × Distinct vs

assign-format_value : (o v : Value) → Alike o v → SavableValue v → assign o (format_value v) ≡ v
assign-format_value (int m) (int n) a h = ap int (atoi-format_d n h)
assign-format_value (int m) (str t) a h = absurd a
assign-format_value (str s) (int n) a h = absurd a
assign-format_value (str s) (str t) a h = refl

config_auto_parse-append :
    (done : List ConfigVar) (o : ConfigVar) (olds : List ConfigVar) (c : Config)
    → All (λ w. w.name ≢ c.name) done
    → o.name ≡ c.name
    → config_auto_parse c (done ++ (o ∷ olds))
      ≡ done ++ (record o { value = assign o.value c.value } ∷ olds)
unfolding config_auto_parse
config_auto_parse-append [] o olds c h e = rw (e, streq_refl c.name) refl
config_auto_parse-append (w ∷ done) o olds c h e =
    rw (streq_of_ne w.name c.name h.0)
      (ap (λ l. w ∷ l) (config_auto_parse-append done o olds c h.1 e))

not_ignored : (name s : Text) → is_ignored name ≡ false → is_ignored (name ++ s) ≡ false
not_ignored [] s h = cc
not_ignored (c ∷ name) s h = h

-- One saved line.
parse_lines_saved :
    (fuel : ℕ) (vars : List ConfigVar) (configs : List Config) (v : ConfigVar) (rest : Text)
    → Savable v
    → let c : Config = record { name = v.name; value = format_value v.value } in
      parse_lines (suc fuel) vars configs (format_line v.name (format_value v.value) ++ (10 ∷ rest))
      ≡ parse_lines fuel (config_auto_parse c vars) (c ∷ configs) rest
unfolding parse_lines
parse_lines_saved fuel vars configs v rest h =
    let line : Text = format_line v.name (format_value v.value) in
    let bytes : All IsTextByte line =
      format_line-IsTextByte v.name (format_value v.value) h.name_bytes
        (format_value-IsTextByte v.value h.value_ok) in
    let shown : is_ignored line ≡ false = not_ignored v.name _ h.no_comment in
    rw (read_line-append 124 line rest (All-IsLineByte line bytes) h.fits) (
      rw (c_string_clean line bytes) (
        rw
          (
            shown,
            config_parse_line-format_line v.name (format_value v.value) h.name_ok
                (format_value-IsValue v.value h.value_ok),
          )
          refl))

-- One comment.
parse_lines_comment :
    (fuel : ℕ) (vars : List ConfigVar) (configs : List Config) (l rest : Text)
    → IsComment l
    → parse_lines (suc fuel) vars configs (l ++ (10 ∷ rest)) ≡ parse_lines fuel vars configs rest
unfolding parse_lines
parse_lines_comment fuel vars configs l rest h =
    let bytes = All-IsLineByte l h.bytes in
    rw (read_line-append 124 l rest bytes h.fits) (rw (c_string_clean l h.bytes) (rw h.hash refl))

-- No variable of `vars` has a name of `done`, or of one before it.
abbrev NoClash : List ConfigVar → List ConfigVar → Type 0
NoClash done [] = Unit
NoClash done (v ∷ vs) = All (λ w. w.name ≢ v.name) done × NoClash (done ++ (v ∷ [])) vs

Distinct-NoClash :
    (done vars : List ConfigVar)
    → All (λ v. All (λ w. w.name ≢ v.name) done) vars
    → Distinct vars
    → NoClash done vars
Distinct-NoClash done [] h d = tt
Distinct-NoClash done (v ∷ vs) h d =
    (h.0, Distinct-NoClash (done ++ (v ∷ [])) vs (later vs h.1 d.0) d.1)
  where
    later :
        (us : List ConfigVar)
        → All (λ u. All (λ w. w.name ≢ u.name) done) us
        → All (λ u. v.name ≢ u.name) us
        → All (λ u. All (λ w. w.name ≢ u.name) (done ++ (v ∷ []))) us
    later [] a b = tt
    later (u ∷ us) a b =
        (All-append (λ w. w.name ≢ u.name) done (v ∷ []) a.0 (b.0, tt), later us a.1 b.1)

-- The variables in `done` are restored, those in `olds` have their lines ahead.
restore :
    (fuel : ℕ) (done olds vars : List ConfigVar) (configs : List Config)
    → length (save_vars vars) < fuel
    → SameVars olds vars
    → All Savable vars
    → NoClash done vars
    → (cs : List Config) × (parse_lines fuel (done ++ olds) configs (save_vars vars)
        ≡ loaded (done ++ vars) cs)
unfolding save_vars
restore zero done olds vars configs f same h d = absurd (omega arith)
restore (suc fuel) done [] [] configs f same h d = (configs, unfold parse_lines read_line in refl)
restore (suc fuel) done [] (v ∷ vs) configs f same h d = absurd same
restore (suc fuel) done (o ∷ os) [] configs f same h d = absurd same
restore (suc fuel) done (o ∷ os) (v ∷ vs) configs f same h d =
    let line : Text = format_line v.name (format_value v.value) in
    let c : Config = record { name = v.name; value = format_value v.value } in
    let shorter : length (save_vars vs) < fuel =
      omega (arith, length-append line (10 ∷ save_vars vs)) in
    let set : config_auto_parse c (done ++ (o ∷ os)) ≡ (done ++ (v ∷ [])) ++ os =
      config_auto_parse-append done o os c d.0 same.0
      ∙ ap (λ (w : ConfigVar). done ++ (w ∷ os)) (restored o v same.0 same.1 h.0.value_ok)
      ∙ sym (append_assoc done (v ∷ []) os) in
    let (cs, eq) = restore fuel (done ++ (v ∷ [])) os vs (c ∷ configs) shorter same.2 h.1 d.1 in
    (
      cs,
      parse_lines_saved fuel (done ++ (o ∷ os)) configs v (save_vars vs) h.0
          ∙ ap (λ w. parse_lines fuel w (c ∷ configs) (save_vars vs)) set
          ∙ eq
          ∙ ap (λ w. loaded w cs) (append_assoc done (v ∷ []) vs),
    )
  where
    restored :
        (o v : ConfigVar)
        → o.name ≡ v.name
        → Alike o.value v.value
        → SavableValue v.value
        → record o { value = assign o.value (format_value v.value) } ≡ v
    restored o v e a h =
        λ i. record { name = e i; value = assign-format_value o.value v.value a h i }

skip_comments :
    (fuel : ℕ) (comments : List Text) (vars : List ConfigVar) (rest : Text)
    → All IsComment comments
    → length (unlines comments ++ rest) < fuel
    → (less : ℕ) × (parse_lines fuel vars [] (unlines comments ++ rest)
        ≡ parse_lines less vars [] rest)
      × (length rest < less)
skip_comments zero comments vars rest h f = absurd (omega arith)
skip_comments (suc fuel) [] vars rest h f = (suc fuel, refl, f)
skip_comments (suc fuel) (l ∷ ls) vars rest h f =
    let whole : length ((l ++ (10 ∷ unlines ls)) ++ rest)
        ≡ length l + suc (length (unlines ls ++ rest)) =
      ap length (append_assoc l (10 ∷ unlines ls) rest)
      ∙ length-append l (10 ∷ (unlines ls ++ rest)) in
    let (less, eq, room) = skip_comments fuel ls vars rest h.1 (omega (arith, whole)) in
    (
      less,
      ap (parse_lines (suc fuel) vars []) (append_assoc l (10 ∷ unlines ls) rest)
          ∙ parse_lines_comment fuel vars [] l (unlines ls ++ rest) h.0
          ∙ eq,
      room,
    )

-- What `config_save_file` writes, `config_parse` reads back: the variables, declared alike and with any
-- values, get the saved values. This holds for variables of different names whose texts a line can
-- hold, whose numbers are below 2^31 and whose lines have less than 124 bytes, and for any comment
-- lines above them.
pub config_parse-config_save_file :
    (comments : List Text) (olds vars : List ConfigVar)
    → All IsComment comments
    → SameVars olds vars
    → All Savable vars
    → Distinct vars
    → (cs : List Config) × (config_parse olds (config_save_file comments vars) ≡ loaded vars cs)
unfolding config_parse config_save_file
config_parse-config_save_file comments olds vars hc same h d =
    let (less, skipped, room) =
      skip_comments (length (unlines comments ++ save_vars vars) + 1) comments olds (save_vars vars)
        hc (omega arith) in
    let (cs, eq) =
      restore less [] olds vars [] room same h (Distinct-NoClash [] vars (trivial vars) d) in
    (cs, skipped ∙ eq)
  where
    trivial :
        (vs : List ConfigVar)
        → All (λ (v : ConfigVar). All (λ (w : ConfigVar). w.name ≢ v.name) []) vs
    trivial [] = tt
    trivial (v ∷ vs) = (tt, trivial vs)
