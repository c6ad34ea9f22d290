-- ===== src/Stdio/Digits.antt =====
-- The loop of `strto_l` over the digits, against the number that they stand for.
use native.Mathlib.Nat.{mul-le-mul_right, mul-le-mul_left, div-add-mod, mod-lt}
use magic_lantern.Common.{
  ℕ, suc, ◌+◌, ◌*◌, ◌/◌, ◌%◌, ◌≤◌, ◌<◌, ◌≡◌, refl, sym, ap, ◌∙◌, Bool, true, false, ◌&&◌, ◌||◌,
  Bool-cases, inl, inr, [], ◌∷◌, arith, ltb, leb, ◌==◌, ltb→lt, lt→ltb, ==_iff, if◌then◌else◌,
}
use magic_lantern.Common.Text.{Text}
use magic_lantern.Stdio.{digit_of, ulong_max, read_digits}

-- The number that the digits at the start of a text stand for, after a number `acc` that was read before.
unfoldable pub value_from : ℕ → ℕ → Text → ℕ
value_from base acc [] = acc
value_from base acc (c ∷ s) =
    let rest = value_from base (acc * base + digit_of c) s in
    if leb base (digit_of c) then acc else rest

value_from-le : (base acc : ℕ) (s : Text) → 1 ≤ base → acc ≤ value_from base acc s
unfolding value_from
value_from-le base acc [] h = omega arith
value_from-le base acc (c ∷ s) h = elim (Bool-cases (leb base (digit_of c))) [
  | inl e ↦ rw e (omega arith)
  | inr e ↦
      let more = mul-le-mul_right acc h in
      let ih = value_from-le base (acc * base + digit_of c) s h in rw e (grind (arith, more, ih))
]

cutoff_of :
    (m base q r number digit : ℕ)
    → m ≡ q * base + r
    → r < base
    → digit < base
    → (ltb q number || ((number == q) && ltb r digit)) ≡ ltb m (number * base + digit)
cutoff_of m base q r number digit e low d = elim (Bool-cases (ltb q number)) [
  | inl more ↦
      let above : suc q * base ≤ number * base = mul-le-mul_right base (ltb→lt q number more) in
      let step : suc q * base ≡ q * base + base = grind arith in
      let big : ltb m (number * base + digit) ≡ true =
        lt→ltb _ _ (omega (arith, e, above, step, low)) in
      rw (more, big) refl
  | inr less ↦ elim (Bool-cases (number == q)) [
    | inl same ↦
        let at : number ≡ q = (==_iff number q).0 same in
        let product : number * base ≡ q * base = ap (λ n. n * base) at in
        rw (less, same) (tail r digit m (number * base) (e ∙ ap (λ n. n + r) (sym product)))
    | inr other ↦
        let under : suc number ≤ q = ground (arith, less, other) in
        let below : suc number * base ≤ q * base = mul-le-mul_right base under in
        let step : suc number * base ≡ number * base + base = grind arith in
        let small : number * base + digit ≤ m = omega (arith, e, below, step, d) in
        rw (less, other) (not_above m (number * base + digit) small)
  ]
]
  where
    tail : (r digit m p : ℕ) → m ≡ p + r → ltb r digit ≡ ltb m (p + digit)
    tail r digit m p e = ground (arith, e)

    not_above : (m n : ℕ) → n ≤ m → false ≡ ltb m n
    not_above m n h = ground (arith, h)

-- The test of the source tells whether a digit more exceeds the largest number.
cutoff_lem :
    (base number digit : ℕ)
    → 1 ≤ base
    → digit < base
    → (ltb (ulong_max / base) number
        || ((number == ulong_max / base) && ltb (ulong_max % base) digit))
      ≡ ltb ulong_max (number * base + digit)
cutoff_lem base number digit h d =
    cutoff_of ulong_max base (ulong_max / base) (ulong_max % base) number digit
      (sym (div-add-mod ulong_max base) ∙ grind arith) (mod-lt ulong_max (omega (arith, h))) d

-- The largest number where the number is larger.
abbrev pub saturated : ℕ → ℕ
saturated n = if ltb ulong_max n then ulong_max else n

-- Every digit more keeps a number too large.
stays_above : (base n digit : ℕ) → 2 ≤ base → ulong_max < n → ulong_max < n * base + digit
stays_above base n digit h big =
    let product : n * 1 ≤ n * base = grind (arith, mul-le-mul_left) in omega (arith, big, product)

-- What the loop holds after digits that stand for `n`: the number or the largest one, and the sign, which an overflow
-- takes away if the number is read without a sign.
abbrev pub held : Bool → Bool → ℕ → ℕ × Bool
held sflag negative n = (saturated n, if ltb ulong_max n then negative && sflag else negative)

and_twice : (a b : Bool) → ((a && b) && b) ≡ (a && b)
and_twice true true = refl
and_twice true false = refl
and_twice false b = refl

-- One round with a digit.
held_more :
    (base digit : ℕ) (sflag negative : Bool) (acc : ℕ)
    → 2 ≤ base
    → digit < base
    → let (number, sign) = held sflag negative acc in
      (if ltb (ulong_max / base) number
          || ((number == ulong_max / base) && ltb (ulong_max % base) digit)
        then (ulong_max, sign && sflag)
        else (number * base + digit, sign))
      ≡ held sflag negative (acc * base + digit)
held_more base digit sflag negative acc h d = elim (Bool-cases (ltb ulong_max acc)) [
  | inl over ↦
      let test = cutoff_lem base ulong_max digit (omega (arith, h)) d in
      let double : ulong_max * 2 ≤ ulong_max * base = mul-le-mul_left ulong_max h in
      let again : ltb ulong_max (ulong_max * base + digit) ≡ true =
        lt→ltb _ _ (omega (arith, double)) in
      let above : ltb ulong_max (acc * base + digit) ≡ true =
        lt→ltb _ _ (stays_above base acc digit h (ltb→lt _ _ over)) in
      rw (over, test, again, above) (ap (λ b. (ulong_max, b)) (and_twice negative sflag))
  | inr under ↦
      let test = cutoff_lem base acc digit (omega (arith, h)) d in
      rw (under, test) (branch (ltb ulong_max (acc * base + digit)) (acc * base + digit))
]
  where
    branch :
        (b : Bool) (n : ℕ)
        → ◌≡◌ {A = ℕ × Bool}
            (if b then (ulong_max, negative && sflag) else (n, negative))
            ((if b then ulong_max else n), (if b then negative && sflag else negative))
    branch true n = refl
    branch false n = refl

pub read_digits_lem :
    (base : ℕ) (sflag negative : Bool) (s : Text) (acc : ℕ)
    → 2 ≤ base
    → read_digits base sflag s (held sflag negative acc)
      ≡ held sflag negative (value_from base acc s)
unfolding read_digits value_from
read_digits_lem base sflag negative [] acc h = refl
read_digits_lem base sflag negative (c ∷ s) acc h = elim (Bool-cases (leb base (digit_of c))) [
  | inl end ↦ rw end refl
  | inr more ↦
      let step = held_more base (digit_of c) sflag negative acc h (ground (arith, more)) in
      let ih = read_digits_lem base sflag negative s (acc * base + digit_of c) h in
      rw (more, step) ih
]
