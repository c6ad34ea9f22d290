-- ===== src/Stdio/Tests.antt =====
-- The functions of stdio.c on small inputs.
use magic_lantern.Common.{
  ℕ, ◌-◌, ◌*◌, ◌^◌, ◌≡◌, refl, ◌⊎◌, inl, [], ◌∷◌, arith, leb, ◌==◌, if◌then◌else◌,
}
use magic_lantern.Common.Int.{negsuc}
use magic_lantern.Common.Word.{to_int}
use magic_lantern.Common.Text.{Text}
use magic_lantern.Stdio.{
  is_space, skip_white, read_sign, skip_x, skip_zero, read_base, digit_of, read_digits, finish,
  strto_l, strtol, strtoul,
}
use magic_lantern.Stdio.Digits.{value_from}
use magic_lantern.Stdio.Numbers.{strtol-number_of}
use magic_lantern.Stdio.Printed.{print_in, strtoul-print_in}
use magic_lantern.Stdio.Realloc.{Heap, realloc, Keeps, realloc-size_of}

-- A space, a sign and two digits.
abbrev minus_twelve : Text
minus_twelve = b' ' ∷ b'-' ∷ b'1' ∷ b'2' ∷ b';' ∷ []

strtol-number_of_example :
    (to_int (strtol minus_twelve 0) ≡ negsuc 11) × (strtoul minus_twelve 0 ≡ 2 ^ 32 - 12)
unfolding is_space skip_white read_sign skip_x skip_zero read_base digit_of value_from
strtol-number_of_example = strtol-number_of minus_twelve 0 (omega arith) (omega arith)

strtoul-print_in_example : strtoul (print_in 10 4294967295) 10 ≡ 4294967295
strtoul-print_in_example =
    strtoul-print_in 10 4294967295 (omega arith) (omega arith) (omega arith) (omega arith)

-- An octal number, and one that does not fit.
octal_lem : strtoul (b'0' ∷ b'1' ∷ b'7' ∷ []) 0 ≡ 15
unfolding strtoul strto_l is_space skip_white read_sign skip_x skip_zero read_base digit_of
    read_digits finish
octal_lem = refl

-- A block of two words at 10; the new one is at 20, and its words hold 0.
abbrev heap : Heap
heap = record {
  malloc = λ size memory. record { place = 20; memory = λ k. if leb 20 k then 0 else memory k };
  free = λ block memory. memory;
}

abbrev block : ℕ → ℕ
block k = if k == 9 then 8 else k * 100

realloc-size_of_example :
    let r = realloc heap 10 16 block in
    Keeps 2 10 block r.place r.memory × (r.place ≡ 0 → (◌≡◌ {A = ℕ} 16 0) ⊎ (◌≡◌ {A = ℕ} 20 0))
realloc-size_of_example =
    realloc-size_of heap 10 16 block (omega arith) refl (λ k low high. ground (arith, low, high))
      (inl (omega arith))
