-- ===== src/Focus/Tests.antt =====
-- focus.c at concrete inputs.
use magic_lantern.Common.{ℕ, ◌*◌, ◌≤◌, ◌<◌, ◌≡◌, refl, some, List, [], ◌∷◌, arith}
use magic_lantern.Common.Int.{pos, negsuc, ◌+ℤ◌, ◌*ℤ◌}
use magic_lantern.Focus.{
  Focus, Call, lens_focus, rack_focus, rack_loop, focus_stack, jog, ptp_focus, focus_task,
  focus_toggle, focus_reset_a, next_step,
}
use magic_lantern.Focus.Rack.{travel, toward, rack_focus-travel, rack_focus-exact}
use magic_lantern.Focus.Stack.{pictures, focus_stack-returns}
use magic_lantern.Focus.Jog.{rack_returns}
use magic_lantern.Focus.Position.{ptp_focus-follows}

abbrev start : Focus
start = record {
  focus_dir = pos 0;
  focus_position = pos 0;
  focus_task_dir = pos 0;
  focus_task_delta = pos 0;
  focus_rack_delta = pos 0;
  focus_rack_speed = 4;
}

-- 5 units at speed 4: two full commands are sent.
rack_five :
    rack_focus (pos 4) (negsuc 4)
    ≡ some (lens_focus 0x7 (negsuc 3) ∷ lens_focus 0x7 (negsuc 3) ∷ [])
unfolding rack_focus rack_loop
rack_five = refl

-- The least `int` is answered by one command.
rack_least : rack_focus (pos 4) (negsuc 2147483647) ≡ some (lens_focus 0x7 (negsuc 3) ∷ [])
unfolding rack_focus
rack_least = refl

rack_focus-travel_example :
    (n : ℕ) × (cs : List Call) × (rack_focus (pos 4) (negsuc 4) ≡ some cs)
    × (travel cs ≡ toward (negsuc 4) (n * 4))
    × (5 ≤ n * 4)
    × (n * 4 < 9)
rack_focus-travel_example = rack_focus-travel (pos 4) (negsuc 4) (omega arith)

rack_focus-exact_example :
    (cs : List Call) × (rack_focus (pos 4) (pos 8) ≡ some cs) × (travel cs ≡ pos 8)
rack_focus-exact_example = rack_focus-exact (pos 4) (pos 8) 2 (omega arith) refl

focus_stack-returns_example :
    (travel (focus_stack 20 (pos 100)) ≡ pos 0) × (pictures (focus_stack 20 (pos 100)) ≡ 15)
focus_stack-returns_example = focus_stack-returns 20 (pos 100) (omega arith) (omega arith)

-- Two rounds from 1 send 1 and 2, which speed 3 brings back in one command.
rack_returns_example :
    let (t, cs) = jog 2 (pos 1) (focus_reset_a (record start { focus_rack_speed = 3 })) in
    (u : Focus) × (ds : List Call) × (focus_task 0 (focus_toggle t).0 ≡ some (u, ds))
    × (travel cs +ℤ travel ds ≡ pos 0)
    × (u.focus_rack_delta ≡ pos 0)
unfolding focus_toggle focus_reset_a jog next_step ◌+ℤ◌ ◌*ℤ◌
rack_returns_example =
    rack_returns 2 0 1 (pos 1) (record start { focus_rack_speed = 3 }) (omega arith) (omega arith)
      (omega arith) refl

ptp_focus-follows_example :
    ptp_focus 5 start ≡ (record start { focus_position = pos 5 }, lens_focus 0x7 (pos 5), 5, pos 5)
unfolding ◌+ℤ◌
ptp_focus-follows_example = ptp_focus-follows 5 start (omega arith)
