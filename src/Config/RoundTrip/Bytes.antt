-- ===== src/Config/RoundTrip/Bytes.antt =====
-- The bytes that a saved line is made of.
use magic_lantern.Common.{ℕ, ◌^◌, ◌<◌, ◌≡◌, ◌≢◌, refl, false, List, [], ◌∷◌, ◌++◌, arith, lt→ltb}
use magic_lantern.Common.Text.{Text, All, c_string}
use magic_lantern.Config.{Value, int, str, is_space}
use magic_lantern.Config.Line.{format_line, IsValue, IsLineByte, BeginsClean, EndsClean}
use magic_lantern.Config.Save.{digits, format_d, format_value}
use magic_lantern.Config.Digits.{IsDigit, digits-IsDigit, length-digits}

-- A byte that stands for itself in a line.
abbrev pub IsTextByte : ℕ → Type 0
IsTextByte c = (c ≢ 0) × (c ≢ 13) × (c ≢ 10)

-- An `unsigned` that `%d` prints without a sign, or a text that a line can hold.
abbrev pub SavableValue : Value → Type 0
SavableValue (int n) = n < 2 ^ 31
SavableValue (str s) = IsValue s × All IsTextByte s

pub All-append {ℓ κ} :
    {A : Type ℓ} (P : A → Type κ) (xs ys : List A) → All P xs → All P ys → All P (xs ++ ys)
All-append P [] ys h k = k
All-append P (x ∷ xs) ys h k = (h.0, All-append P xs ys h.1 k)

pub All-map {ℓ κ μ} :
    {A : Type ℓ} (P : A → Type κ) (Q : A → Type μ) (xs : List A)
    → ((x : A) → P x → Q x)
    → All P xs
    → All Q xs
All-map P Q [] f h = tt
All-map P Q (x ∷ xs) f h = (f x h.0, All-map P Q xs f h.1)

pub All-IsLineByte : (s : Text) → All IsTextByte s → All IsLineByte s
All-IsLineByte s = All-map IsTextByte IsLineByte s (λ c h. (h.1, h.2))

pub c_string_clean : (s : Text) → All IsTextByte s → c_string s ≡ s
c_string_clean [] h = refl
c_string_clean (c ∷ s) h = ground (arith, h.0.0, c_string_clean s h.1)

digit_byte : (c : ℕ) → IsDigit c → IsTextByte c
digit_byte c h = omega arith

digit_no_space : (c : ℕ) → IsDigit c → is_space c ≡ false
digit_no_space c h = ground arith

begins_clean : (s : Text) → All IsDigit s → BeginsClean s
begins_clean [] h = tt
begins_clean (c ∷ s) h = digit_no_space c h.0

ends_clean : (s : Text) → All IsDigit s → EndsClean s
ends_clean [] h = tt
ends_clean (c ∷ []) h = digit_no_space c h.0
ends_clean (c ∷ d ∷ s) h = ends_clean (d ∷ s) h.1

pub format_value-IsValue : (v : Value) → SavableValue v → IsValue (format_value v)
unfolding format_d
format_value-IsValue (int n) h = rw (lt→ltb _ _ h) (
  begins_clean _ (digits-IsDigit 10 n),
  ends_clean _ (digits-IsDigit 10 n),
  omega (arith, length-digits 10 n (omega arith)),
)
format_value-IsValue (str s) h = h.0

pub format_value-IsTextByte : (v : Value) → SavableValue v → All IsTextByte (format_value v)
unfolding format_d
format_value-IsTextByte (int n) h =
    rw (lt→ltb _ _ h) (All-map IsDigit IsTextByte (digits 10 n) digit_byte (digits-IsDigit 10 n))
format_value-IsTextByte (str s) h = h.1

pub format_line-IsTextByte :
    (name value : Text)
    → All IsTextByte name
    → All IsTextByte value
    → All IsTextByte (format_line name value)
format_line-IsTextByte name value hn hv =
    All-append IsTextByte name (b' ' ∷ b'=' ∷ b' ' ∷ value) hn
      (omega arith, (omega arith, (omega arith, hv)))
