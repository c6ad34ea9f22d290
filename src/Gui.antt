-- ===== src/Gui.antt =====
-- The event loop of gui.c, which takes the place of the GUI task of the firmware, as the calls that it makes.
pub mod Rounds
mod Tests
use magic_lantern.Common.{
  ℕ, ◌+◌, ◌-◌, ◌^◌, Bool, true, false, not, ◌&&◌, ◌||◌, Option, none, some, List, [], ◌∷◌, ◌++◌,
  ◌==◌, if◌then◌else◌,
}
use magic_lantern.Common.Word.{u32}

pub record Event : Type 0 where
  pub kind : ℕ
  pub param : ℕ
  pub obj : ℕ
  pub arg : ℕ

-- The messages for the debug log; the text is left out.
pub data Message : Type 0 where
  event_message : Event → Message
  queue_clear : ℕ → ℕ → Message
  gui_control : ℕ → Message
  mode_message : ℕ → Message
  cancel_all : Message
  other_event : ℕ → Message
  shoot_type_message : ℕ → Message
  lcd_state_message : ℕ → Message

pub data Call : Type 0 where
  gui_init_end : Call
  debug_msg : Message → Call
  give_semaphore : Call
  gui_massive_event_loop : ℕ → ℕ → ℕ → Call
  gui_local_post : ℕ → ℕ → ℕ → Call
  gui_timer_something : ℕ → ℕ → Call
  gui_change_mode : ℕ → Call
  gui_other_post : ℕ → ℕ → ℕ → Call
  gui_post_10000085 : ℕ → ℕ → ℕ → Call
  gui_init_event : ℕ → Call
  gui_change_shoot_type_post : ℕ → Call
  gui_change_lcd_state_post : ℕ → Call

-- What the firmware shows the loop in one round: the flag `shutdown_requested` before it, the event (`none` is NULL), and
-- the objects in `gui_main_struct` and `gui_timer_struct`.
pub record Round : Type 0 where
  pub shutdown_requested : Bool
  pub event : Option Event
  pub main_obj : ℕ
  pub timer_obj : ℕ

-- The local variable `obj`, and the counter of `gui_main_struct`.
pub record Gui : Type 0 where
  pub obj : ℕ
  pub counter : ℕ

unfoldable pub is_among : ℕ → List ℕ → Bool
is_among p [] = false
is_among p (q ∷ l) = let later = is_among p l in if p == q then true else later

abbrev pub control_params : List ℕ
control_params =
    0x25 ∷ 0x26 ∷ 0x27 ∷ 0x28 ∷ 0x29 ∷ 0x2A ∷ 0x1F ∷ 0x2B ∷ 0x23 ∷ 0x2C ∷ 0x2D ∷ 0x2E ∷ 0x2F ∷ 0x30
    ∷ 0x31 ∷ 0x32 ∷ 0x3B ∷ []

abbrev pub mode_params : List ℕ
mode_params = 0x00 ∷ 0x07 ∷ 0x05 ∷ []

abbrev pub local_params : List ℕ
local_params = 0x17 ∷ 0x18 ∷ 0x14 ∷ 0x1B ∷ 0x30 ∷ 0x31 ∷ []

abbrev pub other_params : List ℕ
other_params = 0x00 ∷ 0x03 ∷ 0x01 ∷ 0x12 ∷ 0x13 ∷ 0x14 ∷ []

-- The test before `goto queue_clear`.
unfoldable pub is_cleared : ℕ → ℕ → ℕ → List ℕ → Bool
is_cleared main_obj obj param exempt = not (main_obj == obj) && not (is_among param exempt)

abbrev pub cleared : Event → List Call
cleared e = debug_msg (queue_clear e.kind e.param) ∷ []

-- Whether the event is written to the log.
unfoldable pub is_logged : Event → Bool
is_logged e =
    not (e.kind == 4)
    && (not (e.kind == 2) && not (e.param == 0x16))
    && (not (e.kind == 2) && not (e.param == 0x31))

unfoldable pub on_control : ℕ → ℕ → Event → List Call
on_control main_obj obj e =
    if is_cleared main_obj obj e.param control_params
    then cleared e
    else if e.param == 0x13
    then debug_msg (gui_control e.param) ∷ give_semaphore ∷ []
    else debug_msg (gui_control e.param) ∷ gui_massive_event_loop e.param e.obj e.arg ∷ []

unfoldable pub on_mode : ℕ → ℕ → ℕ → Event → List Call
on_mode main_obj timer_obj obj e =
    if is_cleared main_obj obj e.param mode_params
    then cleared e
    else debug_msg (mode_message e.param)
      ∷ ((if e.param == 0
            then gui_local_post 0x12 0 0
              ∷ (if timer_obj == 0 then [] else gui_timer_something timer_obj 4 ∷ [])
            else [])
          ++ (gui_change_mode e.param ∷ []))

unfoldable pub on_local : ℕ → ℕ → Event → List Call
on_local main_obj obj e =
    if is_cleared main_obj obj e.param local_params
    then cleared e
    else gui_local_post e.param e.obj e.arg ∷ []

unfoldable pub on_other : ℕ → ℕ → Event → List Call
on_other main_obj obj e =
    if e.param == 0x11
    then debug_msg cancel_all ∷ []
    else if is_cleared main_obj obj e.param other_params
    then cleared e
    else debug_msg (other_event e.param) ∷ gui_other_post e.param e.obj e.arg ∷ []

-- The `switch`.
unfoldable pub on_event : Round → ℕ → Event → List Call
unfolding on_control on_mode on_local on_other
on_event r obj e =
    if e.kind == 0
    then on_control r.main_obj obj e
    else if e.kind == 1
    then on_mode r.main_obj r.timer_obj obj e
    else if e.kind == 2
    then on_local r.main_obj obj e
    else if e.kind == 3
    then on_other r.main_obj obj e
    else if e.kind == 4
    then gui_post_10000085 e.param e.obj e.arg ∷ []
    else if e.kind == 5
    then gui_init_event e.obj ∷ []
    else if e.kind == 6
    then debug_msg (shoot_type_message e.param) ∷ gui_change_shoot_type_post e.param ∷ []
    else if e.kind == 7
    then debug_msg (lcd_state_message e.param) ∷ gui_change_lcd_state_post e.param ∷ []
    else []

-- The object that a cancellation names.
unfoldable pub next_obj : ℕ → Event → ℕ
next_obj obj e = if (e.kind == 3) && (e.param == 0x11) then e.obj else obj

-- One round, from the receiving of the event on.
unfoldable pub gui_round : Round → Gui → Gui × List Call
unfolding on_event next_obj is_logged
gui_round r g = elim r.event [
  | none ↦ (record { obj = g.obj; counter = u32 (g.counter + 2 ^ 32 - 1) }, [])
  | some e ↦ (
    record { obj = next_obj g.obj e; counter = u32 (g.counter + 2 ^ 32 - 1) },
    (if is_logged e then debug_msg (event_message e) ∷ [] else []) ++ on_event r g.obj e,
  )
]

-- The `while` loop.
unfoldable pub gui_rounds : List Round → Gui → Gui × List Call
unfolding gui_round
gui_rounds [] g = (g, [])
gui_rounds (r ∷ rounds) g =
    let (after, calls) = gui_round r g in
    let (last, later) = gui_rounds rounds after in
    if r.shutdown_requested then (g, []) else (last, calls ++ later)

-- The task, which begins with no object.
unfoldable pub my_gui_main_task : ℕ → List Round → Gui × List Call
unfolding gui_rounds
my_gui_main_task counter rounds =
    let (g, calls) = gui_rounds rounds (record { obj = 0; counter = counter }) in
    (g, gui_init_end ∷ calls)
