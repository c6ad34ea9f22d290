-- ===== src/Focus/Stack.antt =====
-- The focus stack: the pictures that it takes and the steps of the lens.
use magic_lantern.Common.{
  ℕ, zero, suc, ◌+◌, ◌-◌, ◌*◌, ◌%◌, ◌^◌, ◌≤◌, ◌<◌, ◌≡◌, refl, sym, true, false, ap, ◌∙◌, List, [],
  ◌∷◌, ◌++◌, arith, ltb, ◌==◌, if◌then◌else◌, min,
}
use magic_lantern.Common.Int.{
  ℤ, pos, negsuc, neg, pos_part, neg_part, magnitude, ◌+ℤ◌, int_laws, +ℤ_parts, +ℤ_assoc,
  eq_of_parts, sub_ℕ,
}
use magic_lantern.Common.Word.{u32, of_int, to_int}
use magic_lantern.Focus.{Call, lens_focus, lens_take_picture, stack_loop, focus_stack}
use magic_lantern.Focus.Rack.{travel}

abbrev pub pictures : List Call → ℕ
pictures [] = 0
pictures (lens_take_picture wait ∷ cs) = suc (pictures cs)
pictures (_ ∷ cs) = pictures cs

-- `n` steps of `step`.
abbrev times : ℕ → ℤ → ℤ
times n step = sub_ℕ (n * pos_part step) (n * neg_part step)

times-suc : (n : ℕ) (step : ℤ) → step +ℤ times n step ≡ times (suc n) step
times-suc n step =
    ground
      (arith, +ℤ_parts step (times n step), eq_of_parts (step +ℤ times n step) (times (suc n) step))

travel-stack_loop :
    (r i count : ℕ) (step : ℤ) (end : List Call)
    → i + suc r ≡ count
    → travel (stack_loop (suc r) i count step ++ end) ≡ times r step +ℤ travel end
unfolding stack_loop
travel-stack_loop zero i count step end e =
    let last : (count - 1 == i) ≡ true = ground (arith, e) in
    rw last (eq_of_parts _ _ (ground (arith, +ℤ_parts (times 0 step) (travel end))))
travel-stack_loop (suc r) i count step end e =
    let more : (count - 1 == i) ≡ false = ground (arith, e) in
    rw more (
      ap (λ z. step +ℤ z) (travel-stack_loop r (i + 1) count step end (omega arith))
      ∙ sym (+ℤ_assoc step (times r step) (travel end))
      ∙ ap (λ z. z +ℤ travel end) (times-suc r step))

pictures-stack_loop :
    (rounds i count : ℕ) (step : ℤ) (end : List Call)
    → i + rounds ≡ count
    → pictures (stack_loop rounds i count step ++ end) ≡ rounds + pictures end
unfolding stack_loop
pictures-stack_loop zero i count step end e = omega arith
pictures-stack_loop (suc zero) i count step end e =
    let last : (count - 1 == i) ≡ true = ground (arith, e) in rw last (omega arith)
pictures-stack_loop (suc (suc r)) i count step end e =
    let more : (count - 1 == i) ≡ false = ground (arith, e) in
    rw more (omega (arith, pictures-stack_loop (suc r) (i + 1) count step end (omega arith)))

product_sum : (p m n : ℕ) → p * n + n * m ≡ (p + m) * n
product_sum p m n = omega arith

-- A negative factor of a product modulo 2^32.
wrapped_product :
    (n k : ℕ)
    → k < 2 ^ 31
    → n * k < 2 ^ 31
    → u32 ((2 ^ 32 - k) % 2 ^ 32 * n) ≡ (2 ^ 32 - n * k) % 2 ^ 32
wrapped_product zero k a b = omega arith
wrapped_product (suc n) zero a b = omega arith
wrapped_product (suc n) (suc k) a b =
    let small : (2 ^ 32 - suc k) % 2 ^ 32 ≡ 2 ^ 32 - suc k = omega arith in
    let expand : (2 ^ 32 - suc k) * suc n + suc n * suc k ≡ 2 ^ 32 * suc n =
      product_sum (2 ^ 32 - suc k) (suc k) (suc n)
      ∙ ap (λ (t : ℕ). t * suc n)
          (let whole : 2 ^ 32 - suc k + suc k ≡ 2 ^ 32 = omega arith in whole) in
    rw small (omega (arith, expand))

-- The unsigned product is the signed one, as long as that fits an `int`.
unsigned_product :
    (n : ℕ) (step : ℤ)
    → magnitude step < 2 ^ 31
    → n * magnitude step < 2 ^ 31
    → to_int (u32 (of_int (neg step) * n)) ≡ neg (times n step)
unsigned_product n (pos k) a b =
    let bits : of_int (neg (pos k)) ≡ (2 ^ 32 - k) % 2 ^ 32 = ground arith in
    rw (bits, wrapped_product n k (omega arith) (omega arith)) (ground arith)
unsigned_product n (negsuc k) a b =
    let bits : of_int (neg (negsuc k)) ≡ suc k = ground (arith, a) in rw bits (ground arith)

cancels : (a : ℤ) → a +ℤ (neg a +ℤ pos 0) ≡ pos 0
unfolding ◌+ℤ◌
cancels a = ground arith

bounded : (m k : ℕ) → m < 15 → k < 2 ^ 27 → m * k < 2 ^ 31
bounded m k h small = grind arith

stack_returns :
    (m : ℕ) (step : ℤ)
    → m < 15
    → magnitude step < 2 ^ 27
    → travel (
        stack_loop (suc m) 0 (suc m) step
        ++ (lens_focus 0 (to_int (u32 (of_int (neg step) * u32 (suc m + 4294967295)))) ∷ []))
      ≡ pos 0
stack_returns m step h small =
    let back : u32 (suc m + 4294967295) ≡ m = omega arith in
    let fits : m * magnitude step < 2 ^ 31 = bounded m (magnitude step) h small in
    travel-stack_loop m 0 (suc m) step _ (omega arith)
    ∙ rw (back, unsigned_product m step (omega arith) fits) (cancels (times m step))

stack_at :
    (c : ℕ) (step : ℤ)
    → 0 < c
    → c ≤ 15
    → magnitude step < 2 ^ 27
    → let cs =
        stack_loop c 0 c step
        ++ (lens_focus 0 (to_int (u32 (of_int (neg step) * u32 (c + 4294967295)))) ∷ []) in
      (travel cs ≡ pos 0) × (pictures cs ≡ c)
stack_at zero step p h small = absurd (omega arith)
stack_at (suc m) step p h small = (
  stack_returns m step (omega arith) small,
  pictures-stack_loop (suc m) 0 (suc m) step _ (omega arith) ∙ omega arith,
)

cap : (n : ℕ) → (if ltb 15 n then 15 else n) ≡ min 15 n
cap n = ground arith

-- A stack of at least one picture takes at most 15 of them, as many as asked for up to that, and ends
-- where it began: the steps that it sends, with the last, add up to 0.
pub focus_stack-returns :
    (n : ℕ) (step : ℤ)
    → 0 < n
    → magnitude step < 2 ^ 27
    → (travel (focus_stack n step) ≡ pos 0) × (pictures (focus_stack n step) ≡ min 15 n)
unfolding focus_stack
focus_stack-returns n step p small =
    rw cap (stack_at (min 15 n) step (omega arith) (omega arith) small)

minus_one : (x : ℕ) → x < 2 ^ 32 → x * 4294967295 % 2 ^ 32 ≡ (2 ^ 32 - x) % 2 ^ 32
minus_one x h = omega arith

+-zero : (a : ℤ) → a +ℤ pos 0 ≡ a
+-zero a = omega int_laws

neg-neg :
    (step : ℤ) → magnitude step < 2 ^ 31 → to_int ((2 ^ 32 - of_int (neg step)) % 2 ^ 32) ≡ step
neg-neg (pos k) h = ground arith
neg-neg (negsuc k) h = ground arith

-- A stack of no picture still moves the lens, by one step.
focus_stack-zero :
    (step : ℤ)
    → magnitude step < 2 ^ 31
    → (travel (focus_stack 0 step) ≡ step) × (pictures (focus_stack 0 step) ≡ 0)
unfolding focus_stack stack_loop
focus_stack-zero step small =
    (rw (minus_one (of_int (neg step)) (omega arith), neg-neg step small) (+-zero step), refl)
