-- ===== src/Config/Values.antt =====
-- What holds of the whole file: the loop ends, and the variables agree with the list.
use magic_lantern.Common.{
  ℕ, zero, suc, ◌+◌, ◌<◌, ◌≡◌, ◌≢◌, refl, sym, subst, ap, ◌∙◌, true, Option, none, some, List, [],
  ◌∷◌, arith, ◌==◌, length, Bool-cases, inl, inr,
}
use mathlib.Core.Option
use magic_lantern.Common.Text.{Text, All, streq, streq_refl, eq_of_streq, streq_of_ne, c_string}
use magic_lantern.Config.{
  Config, ConfigVar, Value, int, str, Parsed, parsed, parse_error, malloc_error, overrun, Loaded,
  loaded, failed, overran, no_fuel, read_line, assign, config_auto_parse, config_parse_line,
  is_ignored, next_line, one_line, parse_lines, config_parse, config_value,
}
use magic_lantern.Config.RoundTrip.{Distinct}

mapped :
    (c : ℕ) (o : Option (Text × Text)) (line rest : Text)
    → Option.map {B = Text × Text} (λ (r : Text × Text). (c ∷ r.0, r.1)) o ≡ some (line, rest)
    → (l : Text) × (o ≡ some (l, rest))
mapped c none line rest h = cc
mapped c (some (l, r)) line rest h = (l, cc)

-- A line that was read took a byte of the file.
read_line-shorter :
    (room : ℕ) (file line rest : Text)
    → read_line room file ≡ some (line, rest)
    → length rest < length file
unfolding read_line
read_line-shorter zero file line rest h = cc
read_line-shorter (suc room) [] line rest h = cc
read_line-shorter (suc room) (c ∷ file) line rest h = elim (Bool-cases (c == 13)) [
  | inl e ↦ omega (arith, read_line-shorter (suc room) file line rest (rw e at h))
  | inr e ↦ elim (Bool-cases (c == 10)) [
    | inl g ↦ ground (arith, h, e, g)
    | inr g ↦
        let (l, eq) = mapped c (read_line room file) line rest (rw (e, g) at h) in
        omega (arith, read_line-shorter room file l rest eq)
  ]
]

-- An outcome of a line that holds of every outcome of the rest holds of it.
next_line_inv :
    (P : Loaded → Type 0) (continue : List ConfigVar → List Config → Loaded) (vars : List ConfigVar)
    (configs : List Config) (p : Parsed)
    → ((c : Config) → P (continue (config_auto_parse c vars) (c ∷ configs)))
    → P (failed vars)
    → P overran
    → P (next_line continue vars configs p)
next_line_inv P continue vars configs (parsed c) go f o = go c
next_line_inv P continue vars configs parse_error go f o = f
next_line_inv P continue vars configs malloc_error go f o = f
next_line_inv P continue vars configs overrun go f o = o

one_line_inv :
    (P : Loaded → Type 0) (continue : List ConfigVar → List Config → Text → Loaded)
    (vars : List ConfigVar) (configs : List Config) (o : Option (Text × Text))
    → ((buf rest : Text) → o ≡ some (buf, rest) → P (continue vars configs rest))
    → ((buf rest : Text) (c : Config)
        → o ≡ some (buf, rest)
        → P (continue (config_auto_parse c vars) (c ∷ configs) rest))
    → P (loaded vars configs)
    → P (failed vars)
    → P overran
    → P (one_line continue vars configs o)
one_line_inv P continue vars configs none skip next l f v = l
one_line_inv P continue vars configs (some (buf, rest)) skip next l f v =
    elim (Bool-cases (is_ignored (c_string buf))) [
      | inl e ↦ rw e (skip buf rest refl)
      | inr e ↦ rw e (
          next_line_inv P (λ vs cs. continue vs cs rest) vars configs
            (config_parse_line true (c_string buf)) (λ c. next buf rest c refl) f v)
    ]

parse_lines-ends :
    (fuel : ℕ) (vars : List ConfigVar) (configs : List Config) (file : Text)
    → length file < fuel
    → parse_lines fuel vars configs file ≢ no_fuel
unfolding parse_lines
parse_lines-ends zero vars configs file h = absurd (omega arith)
parse_lines-ends (suc fuel) vars configs file h =
    one_line_inv (λ r. r ≢ no_fuel) (parse_lines fuel) vars configs (read_line 124 file)
      (λ buf rest e. parse_lines-ends fuel vars configs rest (shorter buf rest e))
      (λ buf rest c e.
        parse_lines-ends fuel (config_auto_parse c vars) (c ∷ configs) rest (shorter buf rest e))
      (λ e. cc) (λ e. cc) (λ e. cc)
  where
    shorter : (buf rest : Text) → read_line 124 file ≡ some (buf, rest) → length rest < fuel
    shorter buf rest e = omega (arith, read_line-shorter 124 file buf rest e)

-- The loop of `config_parse` ends, whatever the file holds.
pub config_parse-ends : (vars : List ConfigVar) (file : Text) → config_parse vars file ≢ no_fuel
unfolding config_parse
config_parse-ends vars file = parse_lines-ends (length file + 1) vars [] file (omega arith)

-- Every variable whose name is in the list has the value that `config_value` finds there.
abbrev pub Agrees : List ConfigVar → List Config → Type 0
Agrees vars configs =
    All (λ v. (s : Text) → config_value configs v.name ≡ some s → v.value ≡ assign v.value s) vars

assign_again : (v : Value) (s : Text) → assign v s ≡ assign (assign v s) s
assign_again (int n) s = refl
assign_again (str t) s = refl

-- The new line is found first, and only by its own name.
found :
    (c : Config) (configs : List Config) (name s : Text)
    → config_value (c ∷ configs) name ≡ some s
    → (c.name ≢ name → config_value configs name ≡ some s) × (c.name ≡ name → s ≡ c.value)
unfolding config_value
found c configs name s h = (
  λ ne. rw (streq_of_ne c.name name ne) at h,
  λ e.
      let same : streq c.name name ≡ true = ap (streq c.name) (sym e) ∙ streq_refl c.name in
      let h' : some c.value ≡ some s = rw same at h in cc,
)

keep :
    (c : Config) (configs : List Config) (vars : List ConfigVar)
    → All (λ (v : ConfigVar). c.name ≢ v.name) vars
    → Agrees vars configs
    → Agrees vars (c ∷ configs)
keep c configs [] apart h = tt
keep c configs (v ∷ vs) apart h =
    (λ s look. h.0 s ((found c configs v.name s look).0 apart.0), keep c configs vs apart.1 h.1)

Agrees-config_auto_parse :
    (c : Config) (configs : List Config) (vars : List ConfigVar)
    → Distinct vars
    → Agrees vars configs
    → Agrees (config_auto_parse c vars) (c ∷ configs)
unfolding config_auto_parse
Agrees-config_auto_parse c configs [] d h = tt
Agrees-config_auto_parse c configs (v ∷ vs) d h = elim (Bool-cases (streq v.name c.name)) [
  | inl e ↦
      let same = eq_of_streq v.name c.name e in
      rw e (
        λ s look.
            assign_again v.value c.value
            ∙ ap (assign (assign v.value c.value))
                (sym ((found c configs v.name s look).1 (sym same))),
        keep c configs vs (subst (λ n. All (λ (w : ConfigVar). n ≢ w.name) vs) same d.0) h.1,
      )
  | inr e ↦ rw e (
    λ s look.
        h.0 s
          ((found c configs v.name s look).0 (λ p. cc (e, ap (streq v.name) p, streq_refl v.name))),
    Agrees-config_auto_parse c configs vs d.1 h.1,
  )
]

All-config_auto_parse :
    (P : Text → Type 0) (c : Config) (vars : List ConfigVar)
    → All (λ (v : ConfigVar). P v.name) vars
    → All (λ (v : ConfigVar). P v.name) (config_auto_parse c vars)
unfolding config_auto_parse
All-config_auto_parse P c [] h = tt
All-config_auto_parse P c (v ∷ vs) h = elim (Bool-cases (streq v.name c.name)) [
  | inl e ↦ rw e h
  | inr e ↦ rw e (h.0, All-config_auto_parse P c vs h.1)
]

Distinct-config_auto_parse :
    (c : Config) (vars : List ConfigVar) → Distinct vars → Distinct (config_auto_parse c vars)
unfolding config_auto_parse
Distinct-config_auto_parse c [] d = tt
Distinct-config_auto_parse c (v ∷ vs) d = elim (Bool-cases (streq v.name c.name)) [
  | inl e ↦ rw e d
  | inr e ↦
      rw e (All-config_auto_parse (λ n. v.name ≢ n) c vs d.0, Distinct-config_auto_parse c vs d.1)
]

-- The agreement, for a result with a list.
abbrev AgreesLoaded : Loaded → Type 0
AgreesLoaded (loaded vars configs) = Agrees vars configs
AgreesLoaded _ = Unit

parse_lines-Agrees :
    (fuel : ℕ) (vars : List ConfigVar) (configs : List Config) (file : Text)
    → Distinct vars
    → Agrees vars configs
    → AgreesLoaded (parse_lines fuel vars configs file)
unfolding parse_lines
parse_lines-Agrees zero vars configs file d h = tt
parse_lines-Agrees (suc fuel) vars configs file d h =
    one_line_inv AgreesLoaded (parse_lines fuel) vars configs (read_line 124 file)
      (λ buf rest e. parse_lines-Agrees fuel vars configs rest d h)
      (λ buf rest c e.
        parse_lines-Agrees fuel (config_auto_parse c vars) (c ∷ configs) rest
          (Distinct-config_auto_parse c vars d) (Agrees-config_auto_parse c configs vars d h))
      h tt tt

-- After a file is read, every variable whose name the list holds has the value that `config_value` finds
-- for it, so later lines win in both; for variables of different names.
pub config_parse-Agrees :
    (vars vars' : List ConfigVar) (configs : List Config) (file : Text)
    → Distinct vars
    → config_parse vars file ≡ loaded vars' configs
    → Agrees vars' configs
unfolding config_parse config_value
config_parse-Agrees vars vars' configs file d e =
    subst AgreesLoaded e (parse_lines-Agrees (length file + 1) vars [] file d (nothing vars))
  where
    nothing : (vs : List ConfigVar) → Agrees vs []
    nothing [] = tt
    nothing (v ∷ vs) = (λ s look. cc, nothing vs)
