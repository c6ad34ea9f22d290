-- ===== src/Focus.antt =====
-- focus.c: the focus jog, the rack focus and the focus stack.
-- A function returns the new static variables beside what it asks of the camera and of the other tasks.
pub mod Rack
pub mod Stack
pub mod Jog
pub mod Position
mod Tests
use magic_lantern.Common.{
  ℕ, zero, suc, ◌+◌, ◌-◌, ◌*◌, ◌/◌, ◌≡◌, Bool, true, false, not, ◌&&◌, Option, none, some, List, [],
  ◌∷◌, ◌++◌, ltb, ◌==◌, if◌then◌else◌,
}
use mathlib.Core.Option
use magic_lantern.Common.Int.{
  ℤ, pos, negsuc, neg, neg_ℕ, pos_part, magnitude, quot, ltb_ℤ, ◌+ℤ◌, ◌-ℤ◌, ◌*ℤ◌,
}
use magic_lantern.Common.Word.{u32, of_int, to_int, wrapped}

-- The calls that focus.c makes, in order: `lens_focus`, `lens_focus_wait`, `lens_take_picture`,
-- `msleep`, `give_semaphore( focus_task_sem )` and `gui_hide_menu`.
pub data Call : Type 0 where
  lens_focus : ℕ → ℤ → Call
  lens_focus_wait : Call
  lens_take_picture : ℕ → Call
  msleep : ℕ → Call
  give_task_sem : Call
  gui_hide_menu : ℕ → Call

-- The static variables. `focus_rack_speed` is the only unsigned one.
pub record Focus : Type 0 where
  pub focus_dir : ℤ
  pub focus_position : ℤ
  pub focus_task_dir : ℤ
  pub focus_task_delta : ℤ
  pub focus_rack_delta : ℤ
  pub focus_rack_speed : ℕ

abbrev pub focus_max : ℕ
focus_max = 1700

-- `focus_stack`. The count is at most 15 here, and the loop breaks in the round `i == count - 1`.
unfoldable pub stack_loop : ℕ → ℕ → ℕ → ℤ → List Call
stack_loop zero i count step = []
stack_loop (suc rounds) i count step =
    let rest = stack_loop rounds (i + 1) count step in
    lens_take_picture 2000
    ∷ (if count - 1 == i then [] else lens_focus 0xD step ∷ lens_focus_wait ∷ msleep 50 ∷ rest)

-- The last step is `-step * (count-1)`, an unsigned product: with `count` 0 it is `-step * 0xFFFFFFFF`.
unfoldable pub focus_stack : ℕ → ℤ → List Call
focus_stack n step =
    let count : ℕ = if ltb 15 n then 15 else n in
    stack_loop count 0 count step
    ++ (lens_focus 0 (to_int (u32 (of_int (neg step) * u32 (count + 4294967295)))) ∷ [])

pub focus_reset_a : Focus → Focus
focus_reset_a s = record s { focus_task_delta = pos 0 }

pub focus_toggle : Focus → Focus × List Call
focus_toggle s =
    let d = wrapped (neg s.focus_task_delta) in
    (record s { focus_task_delta = d; focus_rack_delta = d }, give_task_sem ∷ [])

pub focus_rack_speed_increment : Focus → Focus
focus_rack_speed_increment s =
    let v = u32 ((s.focus_rack_speed + 1) * 5) / 4 in
    record s { focus_rack_speed = if ltb 40 v then 1 else v }

pub lens_focus_start : ℤ → Focus → Focus × List Call
lens_focus_start dir s = (
  record s {
    focus_task_dir =
        if magnitude dir == 0 then if magnitude s.focus_dir == 0 then negsuc 0 else pos 1 else dir;
  },
  give_task_sem ∷ [],
)

pub lens_focus_stop : Focus → Focus
lens_focus_stop s = record s { focus_task_dir = pos 0 }

-- The `while( delta )` loop of `rack_focus`, once `speed` is positive and `delta` is not negative.
-- `speed_cmd` is what is sent each time. `none`: the fuel ran out.
unfoldable pub rack_loop : ℕ → ℕ → ℕ → ℤ → Option (List Call)
rack_loop zero speed delta speed_cmd = none
rack_loop (suc fuel) speed delta speed_cmd =
    let s = if ltb delta speed then delta else speed in
    let rest = rack_loop fuel s (delta - s) speed_cmd in
    if delta == 0 then some [] else Option.map (λ cs. lens_focus 0x7 speed_cmd ∷ cs) rest

-- Each round lowers `delta` by at least 1, so `|delta| + 1` rounds are enough. The negation of the least `int` leaves it
-- as it is; then the first round takes all of it, as it is below `speed`. For an `int` as the speed nothing else overflows.
unfoldable pub rack_focus : ℤ → ℤ → Option (List Call)
rack_focus speed delta =
    let s : ℕ = if ltb_ℤ (pos 0) speed then pos_part speed else 1 in
    let cmd = if ltb_ℤ delta (pos 0) then neg_ℕ s else pos s in
    let d = if ltb_ℤ delta (pos 0) then wrapped (neg delta) else delta in
    if ltb_ℤ d (pos 0)
    then some (lens_focus 0x7 cmd ∷ [])
    else rack_loop (pos_part d + 1) s (pos_part d) cmd

-- How the jog loop of `focus_task` quickens.
unfoldable pub next_step : ℤ → ℤ
next_step step =
    if ltb_ℤ (pos 0) step && ltb_ℤ step (pos 1000)
    then quot ((step +ℤ pos 1) *ℤ pos 100) 99
    else if ltb_ℤ step (pos 0) && ltb_ℤ (negsuc 999) step
    then quot ((step -ℤ pos 1) *ℤ pos 100) 99
    else step

-- The jog loop, for as many rounds as it reads a `focus_task_dir` other than 0; another task stops
-- it by `lens_focus_stop`. An overflow of `focus_task_delta` is taken to wrap round.
unfoldable pub jog : ℕ → ℤ → Focus → Focus × List Call
jog zero step s = (s, [])
jog (suc rounds) step s =
    let (s', cs) =
      jog rounds (next_step step)
        (record s { focus_task_delta = wrapped (s.focus_task_delta +ℤ step) }) in
    (s', lens_focus 1 step ∷ msleep 50 ∷ cs)

-- One pass of `focus_task` after its semaphore. `rounds` is the environment's choice above.
unfoldable pub focus_task : ℕ → Focus → Option (Focus × List Call)
focus_task rounds s =
    if magnitude s.focus_rack_delta == 0
    then some (jog (if magnitude s.focus_task_dir == 0 then 0 else rounds) s.focus_task_dir s)
    else Option.map (λ cs. (record s { focus_rack_delta = pos 0 }, gui_hide_menu 10 ∷ cs))
        (rack_focus (to_int s.focus_rack_speed) s.focus_rack_delta)

-- `PTP_HANDLER( 0x9998, 0 )`: the new state, the call, and the two parameters of the reply.
unfoldable pub ptp_focus : ℕ → Focus → Focus × Call × ℕ × ℤ
ptp_focus param1 s =
    let p = s.focus_position +ℤ to_int param1 in
    let q =
      if ltb_ℤ p (pos 0) then pos 0 else if ltb_ℤ (pos focus_max) p then pos focus_max else p in
    (record s { focus_position = q }, lens_focus 0x7 (to_int param1), param1, q)
