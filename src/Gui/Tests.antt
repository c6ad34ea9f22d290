-- ===== src/Gui/Tests.antt =====
-- The event loop on a few events.
use magic_lantern.Common.{ℕ, ◌+◌, ◌≡◌, refl, true, false, none, some, List, [], ◌∷◌, arith}
use magic_lantern.Common.Word.{u32}
use magic_lantern.Gui.{
  Round, is_among, is_cleared, is_logged, on_control, on_other, on_event, next_obj, gui_round,
  gui_rounds, my_gui_main_task, gui_init_end, debug_msg, event_message, cancel_all, queue_clear,
}
use magic_lantern.Gui.Rounds.{
  count, is_give, is_handed_on, is_ours, cancelled, presses, seen, my_gui_main_task-presses,
}

abbrev event : ℕ → ℕ → ℕ → Round
event kind param obj = record {
  shutdown_requested = false;
  event = some (record { kind = kind; param = param; obj = obj; arg = 0 });
  main_obj = 0;
  timer_obj = 0;
}

-- The button, a cancellation, the button again, the end of the cancellation, the button, and a NULL.
abbrev evening : List Round
evening =
    event 0 0x13 0
    ∷ event 3 0x11 7
    ∷ event 0 0x13 0
    ∷ event 3 0x11 0
    ∷ event 0 0x13 0
    ∷ record { shutdown_requested = false; event = none; main_obj = 0; timer_obj = 0 }
    ∷ record { shutdown_requested = true; event = none; main_obj = 0; timer_obj = 0 }
    ∷ event 0 0x13 0
    ∷ []

my_gui_main_task-presses_example :
    let (after, calls) = my_gui_main_task 3 evening in
    (count is_give calls ≡ 2) × (count is_handed_on calls ≡ 0) × (u32 (after.counter + 6) ≡ 3)
unfolding presses seen is_ours cancelled next_obj
my_gui_main_task-presses_example = my_gui_main_task-presses evening 3 (omega arith)

cancelled_press :
    (my_gui_main_task 3 (event 3 0x11 7 ∷ event 0 0x13 0 ∷ [])).1
    ≡ gui_init_end
      ∷ debug_msg (event_message (record { kind = 3; param = 0x11; obj = 7; arg = 0 }))
      ∷ debug_msg cancel_all
      ∷ debug_msg (event_message (record { kind = 0; param = 0x13; obj = 0; arg = 0 }))
      ∷ debug_msg (queue_clear 0 0x13)
      ∷ []
unfolding my_gui_main_task gui_rounds gui_round on_event on_control on_other is_logged is_cleared
    is_among next_obj
cancelled_press = refl
