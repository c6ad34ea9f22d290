-- ===== src/Menu/Handler.antt =====
-- The event handler of the menu, and the task that opens and closes it.
pub mod Timeout
use mathlib.Core.Option
use magic_lantern.Common.{
  ℕ, zero, suc, ◌+◌, ◌-◌, ◌%◌, ◌^◌, ◌≤◌, ◌<◌, ◌≡◌, refl, Bool, true, false, not, ◌&&◌, ◌||◌, Option,
  none, some, List, [], ◌∷◌, ◌++◌, arith, ◌==◌, if◌then◌else◌, Bool-cases, inl, inr, ◌⊎◌,
}
use magic_lantern.Common.Int.{ℤ, pos, negsuc}
use magic_lantern.Common.Word.{u32}
use magic_lantern.Menu.{Memory, find_selected, menu_move, menu_entry_move, menu_entry_select}

-- The static variables beside the menus; `gui_menu_task` is whether there is one.
pub record Screen : Type 0 where
  pub menu_damage : ℕ
  pub menu_hidden : ℕ
  pub menu_timeout : ℕ
  pub menu_timeout_time : ℕ
  pub gui_menu_task : Bool
  pub memory : Memory

-- What is asked of the display, the GUI tasks and the entries.
pub data Effect : Type 0 where
  task_destroy : Effect
  task_create : Effect
  bmp_fill_clear : Effect
  bmp_fill_bg : Effect
  menus_display : Effect
  call : ℕ → ℕ → Effect
  dispatch : ℕ → Effect

pub gui_stop_menu : Screen → Screen × List Effect
gui_stop_menu s =
    let t = record s { menu_hidden = 0; menu_damage = 0 } in
    if s.gui_menu_task
    then (record t { gui_menu_task = false }, task_destroy ∷ bmp_fill_clear ∷ [])
    else (t, [])

pub gui_hide_menu : ℕ → Screen → Screen × List Effect
gui_hide_menu redisplay_time s =
    (record s { menu_hidden = redisplay_time; menu_damage = 1 }, bmp_fill_clear ∷ [])

-- The events of the `switch`, by what it does with them.
pub data Action : Type 0 where
  ignore : Action
  control : Action
  stop_pass : Action
  stop_keep : Action
  pass : Action
  move_entry : ℤ → Action
  move_menu : ℤ → Action
  choose : Action
  redraw : Action

-- The value of an event in gui.h, as the action of `menu_handler`.
pub action_of : ℕ → Action
action_of event =
    if event == 0x10000069 || event == 0x1000006D || event == 0x10000054 || event == 0x10000085
    then ignore
    else if event == 0x802 || event == 0x828
    then ignore
    else if event == 0x800
    then control
    else if event == 0x804 || event == 0x80F || event == 0x10000039
    then stop_pass
    else if event == 0x805
    then stop_keep
    else if event == 0x10000094
    then pass
    else if event == 0x822 || event == 0x82C
    then move_entry (negsuc 0)
    else if event == 0x824 || event == 0x82B
    then move_entry (pos 1)
    else if event == 0x826 || event == 0x82F
    then move_menu (pos 1)
    else if event == 0x820 || event == 0x82E
    then move_menu (negsuc 0)
    else if event == 0x812
    then choose
    else if event == 1
    then redraw
    else ignore

-- The end of `menu_handler`: the timeout starts again, and the menu is drawn unless it is hidden or gone.
pub refresh : Screen → Screen × List Effect
refresh s =
    let t = record s { menu_timeout = s.menu_timeout_time } in
    if not (s.menu_hidden == 0) || not s.gui_menu_task then (t, []) else (
      record t { menu_damage = 0 },
      if s.menu_damage == 0 then menus_display ∷ [] else bmp_fill_bg ∷ menus_display ∷ [],
    )

-- The result of the handler: the screen, the effects, and whether the event is passed on.
abbrev pub Handled : Type 0
Handled = Screen × List Effect × ℕ

-- A handler that goes on to the refresh, after the effects `before`.
pub after_refresh : List Effect → Screen → Handled
unfolding refresh
after_refresh before s = let (t, es) = refresh s in (t, before ++ es, 0)

-- `callback` is what the functions of the entries do. `taken` is whether the semaphore is taken in time.
module _ (callback : ℕ → ℕ → Screen → Screen × List Effect) (fuel : ℕ) (taken : Bool) where
  -- The `switch`, with the selected menu (0 if there is none). `none`: the fuel ran out.
  unfoldable pub handle : Action → ℕ → Screen → Option Handled
  unfolding gui_stop_menu after_refresh
  handle ignore menu s = some (s, [], 0)
  handle control menu s = some (after_refresh [] (record s { menu_damage = 1 }))
  handle stop_pass menu s = let (t, es) = gui_stop_menu s in some (t, es, 1)
  handle stop_keep menu s = let (t, es) = gui_stop_menu s in some (t, es, 0)
  handle pass menu s = some (s, [], 1)
  handle (move_entry d) menu s =
      Option.map (λ m. after_refresh [] (record s { memory = m; menu_damage = 1 }))
        (menu_entry_move fuel taken menu d s.memory)
  handle (move_menu d) menu s =
      Option.map (λ m. after_refresh [] (record s { memory = m; menu_damage = 1 }))
        (menu_move fuel taken menu d s.memory)
  handle choose menu s =
      Option.map
        (λ called. elim called [
          | none ↦ after_refresh [] s
          | some (f, arg) ↦ let (t, es) = callback f arg s in after_refresh (call f arg ∷ es) t
        ])
        (menu_entry_select fuel menu s.memory)
  handle redraw menu s = some (after_refresh [] s)

  unfoldable pub menu_handler : ℕ → Screen → Option Handled
  unfolding handle action_of
  menu_handler event s =
      Option.bind
        (find_selected fuel (λ p. (s.memory.menu_at p).next) (λ p. (s.memory.menu_at p).selected)
          s.memory.menus)
        (λ menu. handle (action_of event) menu s)

-- How `take_semaphore( gui_sem, 500 )` ends.
pub data Wake : Type 0 where
  timed_out : Wake
  given : Wake

-- One round of `menu_task`.
unfoldable pub menu_task_round : Wake → Screen → Screen × List Effect
unfolding gui_stop_menu
menu_task_round timed_out s =
    let timeout = u32 (s.menu_timeout + 4294967295) in
    let t = record s { menu_timeout = timeout } in
    let hidden = u32 (s.menu_hidden + 4294967295) in
    if not s.gui_menu_task
    then (s, [])
    else if timeout == 0
    then gui_stop_menu t
    else if s.menu_hidden == 0
    then (t, dispatch 1 ∷ [])
    else (record t { menu_hidden = hidden }, if hidden == 0 then dispatch 0x800 ∷ [] else [])
menu_task_round given s =
    if s.gui_menu_task
    then gui_stop_menu s
    else (record s { menu_damage = 1; menu_hidden = 0; gui_menu_task = true }, task_create ∷ [])
