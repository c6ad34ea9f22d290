-- ===== src/Menu/Handler/Timeout.antt =====
-- The timeout of the menu, with and without the redraw that the task sends to it.
use mathlib.Core.Option
use magic_lantern.Common.{
  ℕ, zero, suc, ◌+◌, ◌-◌, ◌^◌, ◌≤◌, ◌<◌, ◌≡◌, refl, ap, Bool, true, false, Option, some, List, [],
  ◌∷◌, arith, ◌==◌,
}
use magic_lantern.Common.Word.{u32}
use magic_lantern.Menu.{find_selected}
use magic_lantern.Menu.Handler.{
  Screen, Effect, dispatch, timed_out, menu_task_round, menu_handler, refresh, after_refresh,
  handle, action_of, Handled,
}

-- Some rounds in which the semaphore is not given, and no event reaches the handler.
unfoldable pub idle_rounds : ℕ → Screen → Screen
idle_rounds zero s = s
idle_rounds (suc n) s = idle_rounds n (menu_task_round timed_out s).0

round_counts :
    (n : ℕ) (s : Screen)
    → s.gui_menu_task ≡ true
    → s.menu_timeout ≡ suc (suc n)
    → suc (suc n) < 2 ^ 32
    → ((menu_task_round timed_out s).0.gui_menu_task ≡ true)
      × ((menu_task_round timed_out s).0.menu_timeout ≡ suc n)
unfolding menu_task_round
round_counts n s g t h = ground (arith, g, t)

round_closes :
    (s : Screen)
    → s.gui_menu_task ≡ true
    → s.menu_timeout ≡ 1
    → (menu_task_round timed_out s).0.gui_menu_task ≡ false
unfolding menu_task_round
round_closes s g t = ground (arith, g, t)

-- With no event in between, an open menu closes when its timeout has been counted down to 0, not earlier
-- and hidden or not.
idle_rounds-closes :
    (n : ℕ) (s : Screen)
    → s.gui_menu_task ≡ true
    → s.menu_timeout ≡ suc n
    → suc n < 2 ^ 32
    → ((idle_rounds n s).gui_menu_task ≡ true) × ((idle_rounds (suc n) s).gui_menu_task ≡ false)
unfolding idle_rounds
idle_rounds-closes zero s g t h = (g, round_closes s g t)
idle_rounds-closes (suc n) s g t h =
    let (open', less) = round_counts n s g t h in
    idle_rounds-closes n (menu_task_round timed_out s).0 open' less (omega arith)

round_redraws :
    (s : Screen)
    → s.gui_menu_task ≡ true
    → s.menu_hidden ≡ 0
    → 2 ≤ s.menu_timeout
    → s.menu_timeout < 2 ^ 32
    → menu_task_round timed_out s
      ≡ (record s { menu_timeout = s.menu_timeout - 1 }, dispatch 1 ∷ [])
unfolding menu_task_round
round_redraws s g h low high =
    let less : u32 (s.menu_timeout + 4294967295) ≡ s.menu_timeout - 1 = omega arith in
    let more : (s.menu_timeout - 1 == 0) ≡ false = ground arith in rw (g, h, less, more) refl

-- The handler on the events that a round dispatches.
module _ (callback : ℕ → ℕ → Screen → Screen × List Effect) (fuel : ℕ) (taken : Bool) where
  unfoldable pub deliver : List Effect → Screen → Option Screen
  deliver [] s = some s
  deliver (dispatch event ∷ es) s =
      Option.bind (menu_handler callback fuel taken event s) (λ (r : Handled). deliver es r.0)
  deliver (_ ∷ es) s = deliver es s

  -- Rounds in which the semaphore is not given, each with its events handled before the next.
  unfoldable pub ticks : ℕ → Screen → Option Screen
  ticks zero s = some s
  ticks (suc n) s =
      let (t, es) = menu_task_round timed_out s in Option.bind (deliver es t) (λ u. ticks n u)

  redrawn-event :
      (s : Screen) {menu : ℕ}
      → find_selected fuel
          (λ p. (s.memory.menu_at p).next)
          (λ p. (s.memory.menu_at p).selected)
          s.memory.menus
        ≡ some menu
      → menu_handler callback fuel taken 1 s ≡ some (after_refresh [] s)
  unfolding menu_handler handle action_of Option.bind
  redrawn-event s f = rw f refl

  redrawn :
      (s : Screen) {menu : ℕ}
      → s.gui_menu_task ≡ true
      → s.menu_hidden ≡ 0
      → 2 ≤ s.menu_timeout
      → s.menu_timeout < 2 ^ 32
      → find_selected fuel
          (λ p. (s.memory.menu_at p).next)
          (λ p. (s.memory.menu_at p).selected)
          s.memory.menus
        ≡ some menu
      → (let (t, es) = menu_task_round timed_out s in deliver es t)
        ≡ some (record s { menu_timeout = s.menu_timeout_time; menu_damage = 0 })
  unfolding deliver after_refresh refresh Option.bind
  redrawn s g h low high f =
      rw
        (
          round_redraws s g h low high,
          redrawn-event (record s { menu_timeout = s.menu_timeout - 1 }) f,
          h,
          g,
        )
        refl

  -- With the redraw that the task sends, the timeout never closes an open menu that is not hidden.
  pub ticks-open :
      (n : ℕ) (s : Screen) {menu : ℕ}
      → s.gui_menu_task ≡ true
      → s.menu_hidden ≡ 0
      → 2 ≤ s.menu_timeout
      → s.menu_timeout < 2 ^ 32
      → 2 ≤ s.menu_timeout_time
      → s.menu_timeout_time < 2 ^ 32
      → find_selected fuel
          (λ p. (s.memory.menu_at p).next)
          (λ p. (s.memory.menu_at p).selected)
          s.memory.menus
        ≡ some menu
      → Option.map (λ t. t.gui_menu_task) (ticks n s) ≡ some true
  unfolding ticks Option.bind
  ticks-open zero s g h low high low' high' f = ap some g
  ticks-open (suc n) s g h low high low' high' f = rw (redrawn s g h low high f) (
      ticks-open n (record s { menu_timeout = s.menu_timeout_time; menu_damage = 0 }) g h low' high'
        low' high' f)
