-- ===== src/Focus/Rack.antt =====
-- The rack focus: the travel of the lens.
use magic_lantern.Common.{
  ℕ, zero, suc, ◌+◌, ◌-◌, ◌*◌, ◌^◌, ◌≤◌, ◌<◌, ◌≡◌, ◌≢◌, refl, ap, ◌∙◌, some, List, [], ◌∷◌, arith,
  ltb, ◌==◌, if◌then◌else◌, replicate, true, false, Bool-cases, inl, inr,
}
use magic_lantern.Common.Int.{
  ℤ, pos, neg, neg_ℕ, pos_part, magnitude, ltb_ℤ, ◌+ℤ◌, int_laws, +ℤ_parts, eq_of_parts,
}
use magic_lantern.Common.Word.{wrapped, to_int-of_int}
use magic_lantern.Focus.{Call, lens_focus, rack_loop, rack_focus}

-- The sum of the steps that are sent to the lens.
abbrev pub travel : List Call → ℤ
travel [] = pos 0
travel (lens_focus mode step ∷ cs) = step +ℤ travel cs
travel (_ ∷ cs) = travel cs

eq_zero_of_mul_lt : (n d : ℕ) → n * d < d → n ≡ 0
eq_zero_of_mul_lt zero d h = refl
eq_zero_of_mul_lt (suc n) d h = absurd (omega (arith, h))

rack_loop_ends :
    (fuel speed delta : ℕ) (cmd : ℤ)
    → delta < fuel
    → 0 < speed
    → (n : ℕ) × (rack_loop fuel speed delta cmd ≡ some (replicate n (lens_focus 0x7 cmd)))
      × (delta ≤ n * speed)
      × (n * speed < delta + speed)
unfolding rack_loop
rack_loop_ends zero speed delta cmd f p = absurd (omega arith)
rack_loop_ends (suc fuel) speed delta cmd f p = elim (Bool-cases (delta == 0)) [
  | inl done ↦ (0, rw done refl, ground (arith, done), omega arith)
  | inr more ↦ elim (Bool-cases (ltb delta speed)) [
    | inl clipped ↦
        let (n, eq, low, high) =
          rack_loop_ends fuel delta (delta - delta) cmd (ground (arith, more))
            (ground (arith, more)) in
        let one : n ≡ 0 = eq_zero_of_mul_lt n delta (omega arith) in
        (
          suc n,
          rw (clipped, more, eq) refl,
          rw one (ground (arith, clipped)),
          rw one (ground (arith, clipped, more)),
        )
    | inr whole ↦
        let (n, eq, low, high) =
          rack_loop_ends fuel speed (delta - speed) cmd (ground (arith, more)) p in
        (suc n, rw (whole, more, eq) refl, ground (arith, whole), ground (arith, whole))
  ]
]

travel-replicate_pos : (n v : ℕ) → travel (replicate n (lens_focus 0x7 (pos v))) ≡ pos (n * v)
travel-replicate_pos zero v = omega int_laws
travel-replicate_pos (suc n) v =
    rw (travel-replicate_pos n v) (eq_of_parts _ _ (omega (arith, +ℤ_parts (pos v) (pos (n * v)))))

travel-replicate_neg : (n v : ℕ) → travel (replicate n (lens_focus 0x7 (neg_ℕ v))) ≡ neg_ℕ (n * v)
travel-replicate_neg zero v = ground arith
travel-replicate_neg (suc n) v =
    rw (travel-replicate_neg n v) (ground (arith, +ℤ_parts (neg_ℕ v) (neg_ℕ (n * v))))

-- The size of one command: `rack_focus` takes 1 for a speed that is not positive.
abbrev pub step_size : ℤ → ℕ
step_size speed = if ltb_ℤ (pos 0) speed then pos_part speed else 1

-- A signed distance in the direction of `delta`.
abbrev pub toward : ℤ → ℕ → ℤ
toward delta n = if ltb_ℤ delta (pos 0) then neg_ℕ n else pos n

travel-toward :
    (n v : ℕ) (delta : ℤ)
    → travel (replicate n (lens_focus 0x7 (toward delta v))) ≡ toward delta (n * v)
travel-toward n v delta = elim (Bool-cases (ltb_ℤ delta (pos 0))) [
  | inl h ↦ rw h (travel-replicate_neg n v)
  | inr h ↦ rw h (travel-replicate_pos n v)
]

rack_focus-rack_loop :
    (speed delta : ℤ)
    → magnitude delta < 2 ^ 31
    → rack_focus speed delta
      ≡ rack_loop
          (magnitude delta + 1)
          (step_size speed)
          (magnitude delta)
          (toward delta (step_size speed))
unfolding rack_focus
rack_focus-rack_loop speed delta h =
    let exact : wrapped (neg delta) ≡ neg delta = to_int-of_int (neg delta) (ground (arith, h)) in
    elim (Bool-cases (ltb_ℤ delta (pos 0))) [
      | inl e ↦ rw (e, exact) (looped (neg delta) (neg_ℕ (step_size speed)) (back e) (size e))
      | inr e ↦ rw e (looped delta (pos (step_size speed)) e (forth e))
    ]
  where
    looped :
        (d cmd : ℤ)
        → ltb_ℤ d (pos 0) ≡ false
        → pos_part d ≡ magnitude delta
        → (if ltb_ℤ d (pos 0)
            then some (lens_focus 0x7 cmd ∷ [])
            else rack_loop (pos_part d + 1) (step_size speed) (pos_part d) cmd)
          ≡ rack_loop (magnitude delta + 1) (step_size speed) (magnitude delta) cmd
    looped d cmd h k = rw h (ap (λ n. rack_loop (n + 1) (step_size speed) n cmd) k)

    back : ltb_ℤ delta (pos 0) ≡ true → ltb_ℤ (neg delta) (pos 0) ≡ false
    back e = ground (arith, e)

    size : ltb_ℤ delta (pos 0) ≡ true → pos_part (neg delta) ≡ magnitude delta
    size e = ground (arith, e)

    forth : ltb_ℤ delta (pos 0) ≡ false → pos_part delta ≡ magnitude delta
    forth e = ground (arith, e)

-- `rack_focus` ends for every speed and every distance but the least `int`. It sends the same full step n times, in the
-- direction of `delta`, so the lens travels n steps: at least `|delta|`, and less than one step more.
pub rack_focus-travel :
    (speed delta : ℤ)
    → magnitude delta < 2 ^ 31
    → (n : ℕ) × (cs : List Call) × (rack_focus speed delta ≡ some cs)
      × (travel cs ≡ toward delta (n * step_size speed))
      × (magnitude delta ≤ n * step_size speed)
      × (n * step_size speed < magnitude delta + step_size speed)
rack_focus-travel speed delta small =
    let (n, eq, low, high) =
      rack_loop_ends (magnitude delta + 1) (step_size speed) (magnitude delta)
        (toward delta (step_size speed)) (omega arith) (ground arith) in
    (
      n,
      replicate n (lens_focus 0x7 (toward delta (step_size speed))),
      rack_focus-rack_loop speed delta small ∙ eq,
      travel-toward n (step_size speed) delta,
      low,
      high,
    )

rounded_up : (n k v : ℕ) → k * v ≤ n * v → n * v < k * v + v → n * v ≡ k * v
rounded_up zero zero v low high = refl
rounded_up zero (suc k) v low high = omega arith
rounded_up (suc n) zero v low high = absurd (omega (arith, high))
rounded_up (suc n) (suc k) v low high =
    let ih : n * v ≡ k * v = rounded_up n k v (omega arith) (omega arith) in omega (arith, ih)

-- Where the speed divides the distance, the lens travels exactly `delta`.
pub rack_focus-exact :
    (speed delta : ℤ) (k : ℕ)
    → magnitude delta < 2 ^ 31
    → magnitude delta ≡ k * step_size speed
    → (cs : List Call) × (rack_focus speed delta ≡ some cs) × (travel cs ≡ delta)
rack_focus-exact speed delta k small e =
    let (n, cs, eq, t, low, high) = rack_focus-travel speed delta small in
    let same : n * step_size speed ≡ k * step_size speed =
      rounded_up n k (step_size speed) (omega arith) (omega arith) in
    (cs, eq, t ∙ ground (arith, same, e))

-- Where it does not, the lens travels beyond `delta`: the last command is not shortened to the rest.
rack_focus-overshoots :
    (speed delta : ℤ)
    → magnitude delta < 2 ^ 31
    → ((k : ℕ) → magnitude delta ≢ k * step_size speed)
    → (cs : List Call) × (rack_focus speed delta ≡ some cs)
      × (magnitude delta < magnitude (travel cs))
rack_focus-overshoots speed delta small uneven =
    let (n, cs, eq, t, low, high) = rack_focus-travel speed delta small in
    (cs, eq, rw t (ground (arith, uneven n, low)))
