-- ===== src/Common/Text.antt =====
-- C strings as lists of bytes, without the byte 0 that ends them.
use magic_lantern.Common.{
  ℕ, ◌≡◌, refl, ◌≢◌, Bool, true, false, ◌&&◌, List, [], ◌∷◌, arith, ◌==◌, if◌then◌else◌, Bool-cases,
  inl, inr,
}

abbrev pub Text : Type 0
Text = List ℕ

-- `streq`
abbrev pub streq : Text → Text → Bool
streq [] [] = true
streq [] (y ∷ ys) = false
streq (x ∷ xs) [] = false
streq (x ∷ xs) (y ∷ ys) = x == y && streq xs ys

pub streq_refl : (s : Text) → streq s s ≡ true
streq_refl [] = refl
streq_refl (c ∷ s) = ground (arith, streq_refl s)

pub eq_of_streq : (s t : Text) → streq s t ≡ true → s ≡ t
eq_of_streq [] [] h = refl
eq_of_streq [] (y ∷ t) h = cc
eq_of_streq (x ∷ s) [] h = cc
eq_of_streq (x ∷ s) (y ∷ t) h = ground (arith, eq_of_streq s t)

pub streq_of_ne : (s t : Text) → s ≢ t → streq s t ≡ false
streq_of_ne s t h = elim (Bool-cases (streq s t)) [
  | inl e ↦ absurd (h (eq_of_streq s t e))
  | inr e ↦ e
]

-- The bytes up to the first 0.
abbrev pub c_string : Text → Text
c_string [] = []
c_string (c ∷ s) = if c == 0 then [] else c ∷ c_string s

-- Every element satisfies `P`.
abbrev pub All {ℓ κ} : {A : Type ℓ} → (A → Type κ) → List A → Type κ
All P [] = Unit
All P (x ∷ xs) = P x × All P xs
