-- ===== src/Focus/Jog.antt =====
-- The jog of `focus_task`: its steps, and `focus_task_delta`.
use magic_lantern.Common.{
  ℕ, zero, suc, ◌+◌, ◌*◌, ◌/◌, ◌^◌, ◌≤◌, ◌<◌, ◌≡◌, ◌≢◌, false, refl, sym, ap, ◌∙◌, some, List, [],
  ◌∷◌, arith, ltb, ◌==◌, ◌&&◌, if◌then◌else◌,
}
use magic_lantern.Common.Int.{
  ℤ, pos, neg_ℕ, negsuc, neg, magnitude, quot, ◌+ℤ◌, ◌-ℤ◌, ◌*ℤ◌, +ℤ_assoc, int_laws,
}
use magic_lantern.Focus.{
  Focus, Call, lens_focus, gui_hide_menu, next_step, jog, focus_toggle, focus_reset_a, focus_task,
  focus_rack_speed_increment,
}
use magic_lantern.Common.Word.{to_int, to_int-of_int, wrapped}
use magic_lantern.Focus.Rack.{travel, step_size, rack_focus-exact}

-- Every step that is sent to the lens is at most `n` in size.
abbrev pub StepsWithin : ℕ → List Call → Type 0
StepsWithin n [] = Unit
StepsWithin n (lens_focus mode step ∷ cs) = (magnitude step ≤ n) × StepsWithin n cs
StepsWithin n (_ ∷ cs) = StepsWithin n cs

-- The size of the next step.
abbrev quicken : ℕ → ℕ
quicken n = if ltb 0 n && ltb n 1000 then (n + 1) * 100 / 99 else n

grown : (n : ℕ) → quot ((pos n +ℤ pos 1) *ℤ pos 100) 99 ≡ pos ((n + 1) * 100 / 99)
unfolding ◌+ℤ◌ ◌*ℤ◌
grown n = ground arith

grown_back : (n : ℕ) → quot ((negsuc n -ℤ pos 1) *ℤ pos 100) 99 ≡ neg_ℕ ((suc n + 1) * 100 / 99)
unfolding ◌-ℤ◌ ◌*ℤ◌
grown_back n = ground arith

next_step_pos : (n : ℕ) → next_step (pos n) ≡ pos (quicken n)
unfolding next_step
next_step_pos n = ground (arith, grown n)

next_step_neg : (n : ℕ) → next_step (negsuc n) ≡ neg_ℕ (quicken (suc n))
unfolding next_step
next_step_neg n = ground (arith, grown_back n)

quicken_bounds : (n : ℕ) → (n ≤ quicken n) × (n ≤ 1010 → quicken n ≤ 1010)
quicken_bounds n = ground arith

magnitude_pos : (n : ℕ) → magnitude (pos n) ≡ n
magnitude_pos n = omega arith

magnitude_negsuc : (n : ℕ) → magnitude (negsuc n) ≡ suc n
magnitude_negsuc n = omega arith

magnitude_neg : (n : ℕ) → magnitude (neg_ℕ n) ≡ n
magnitude_neg n = ground arith

magnitude-next_step : (step : ℤ) → magnitude (next_step step) ≡ quicken (magnitude step)
magnitude-next_step (pos n) = rw (next_step_pos, magnitude_pos) (ap quicken (sym (magnitude_pos n)))
magnitude-next_step (negsuc n) =
    rw (next_step_neg, magnitude_neg) (ap quicken (sym (magnitude_negsuc n)))

magnitude-+ℤ : (a b : ℤ) → magnitude (a +ℤ b) ≤ magnitude a + magnitude b
unfolding ◌+ℤ◌
magnitude-+ℤ a b = ground arith

-- A jog that starts with a step of at most 1010 never sends a larger one. As long as `focus_task_delta` cannot leave the
-- range of an `int`, it gets exactly what is sent to the lens added to it.
jog_lem :
    (rounds : ℕ) (step : ℤ) (s : Focus)
    → magnitude step ≤ 1010
    → magnitude s.focus_task_delta + rounds * 1010 < 2 ^ 31
    → StepsWithin 1010 (jog rounds step s).1
      × ((jog rounds step s).0.focus_task_delta
          ≡ s.focus_task_delta +ℤ travel (jog rounds step s).1)
      × (magnitude (jog rounds step s).0.focus_task_delta
          ≤ magnitude s.focus_task_delta + rounds * 1010)
unfolding jog
jog_lem zero step s h small = (tt, omega int_laws, omega arith)
jog_lem (suc r) step s h small =
    let sum = s.focus_task_delta +ℤ step in
    let grows = magnitude-+ℤ s.focus_task_delta step in
    let exact : wrapped sum ≡ sum = to_int-of_int sum (omega (arith, grows, h, small)) in
    let size : magnitude (wrapped sum) ≡ magnitude sum = ap magnitude exact in
    let (within, moved, bound) =
      jog_lem r (next_step step) (record s { focus_task_delta = wrapped sum })
        (omega (arith, magnitude-next_step step, (quicken_bounds (magnitude step)).1 h))
        (omega (arith, size, grows, h, small)) in
    (
      (h, within),
      moved
          ∙ ap
              (λ d.
                d
                +ℤ travel (jog r (next_step step) (record s { focus_task_delta = wrapped sum })).1)
              exact
          ∙ +ℤ_assoc s.focus_task_delta step _,
      omega (arith, bound, size, grows, h),
    )

-- The rack speed of the menu stays between 1 and 40.
focus_rack_speed_increment-bounds :
    (s : Focus)
    → 1 ≤ s.focus_rack_speed
    → s.focus_rack_speed ≤ 40
    → let v = (focus_rack_speed_increment s).focus_rack_speed in (1 ≤ v) × (v ≤ 40)
unfolding focus_rack_speed_increment
focus_rack_speed_increment-bounds s a b = ground arith

cancel : (a b c : ℤ) → c ≡ neg (pos 0 +ℤ a) → b ≡ c → a +ℤ b ≡ pos 0
unfolding ◌+ℤ◌
cancel a b c h e = rw (e, h) (ground arith)

-- A jog of at most 2126219 rounds from a step of at most 1010, then "Rack focus": where the rack speed divides the distance
-- jogged since the reset, and that is not 0, the focus task drives the lens back by exactly what the jog sent, and clears
-- the request.
pub rack_returns :
    (rounds n k : ℕ) (step : ℤ) (s : Focus)
    → magnitude step ≤ 1010
    → rounds ≤ 2126219
    → let (t, cs) = jog rounds step (focus_reset_a s) in
      let r = (focus_toggle t).0 in
      magnitude r.focus_rack_delta ≢ 0
      → magnitude r.focus_rack_delta ≡ k * step_size (to_int r.focus_rack_speed)
      → (u : Focus) × (ds : List Call) × (focus_task n r ≡ some (u, ds))
        × (travel cs +ℤ travel ds ≡ pos 0)
        × (u.focus_rack_delta ≡ pos 0)
unfolding focus_task focus_toggle focus_reset_a
rack_returns rounds n k step s small few moved divides =
    let (t, cs) = jog rounds step (record s { focus_task_delta = pos 0 }) in
    let r = (focus_toggle t).0 in
    let (within, recorded, bound) =
      jog_lem rounds step (record s { focus_task_delta = pos 0 }) small (omega (arith, few)) in
    let fits : magnitude t.focus_task_delta < 2 ^ 31 = omega (arith, bound, few) in
    let same : r.focus_rack_delta ≡ neg t.focus_task_delta =
      to_int-of_int (neg t.focus_task_delta) (ground (arith, fits)) in
    let (ds, eq, back) =
      rack_focus-exact (to_int r.focus_rack_speed) r.focus_rack_delta k (ground (arith, same, fits))
        divides in
    let busy : (magnitude r.focus_rack_delta == 0) ≡ false = ground (arith, moved) in
    (
      record r { focus_rack_delta = pos 0 },
      gui_hide_menu 10 ∷ ds,
      rw (busy, eq) refl,
      cancel (travel cs) (travel ds) r.focus_rack_delta (same ∙ ap neg recorded) back,
      refl,
    )
