-- ===== src/Menu/Tests.antt =====
-- The menus at concrete inputs: three menus, the first with two entries.
use mathlib.Core.Option
use magic_lantern.Common.{
  inl, ℕ, ◌≡◌, ◌≢◌, refl, true, some, List, [], ◌∷◌, arith, ◌==◌, if◌then◌else◌,
}
use magic_lantern.Common.Int.{negsuc}
use magic_lantern.Common.Text.{Text}
use magic_lantern.Menu.Display.{Fonts, print_name, menu_display, below_name, menus_display}
use magic_lantern.Menu.{
  Menu, Entry, Memory, menu_entry_move, menu_find_by_name, find_selected, menu_add,
}
use magic_lantern.Menu.Moves.{IsMenus, IsEntries, menu_entry_move_lem}
use magic_lantern.Menu.Added.{menu_add-IsEntries}
use magic_lantern.Menu.Named.{menu_find_by_name_made}
use magic_lantern.Menu.Handler.{Screen, Effect}
use magic_lantern.Menu.Handler.Timeout.{ticks, ticks-open}

abbrev menu_of : ℕ → ℕ → Text → ℕ → ℕ → Menu
menu_of next prev name children selected = record {
  next = next;
  prev = prev;
  name = name;
  children = children;
  selected = selected;
}

abbrev entry_of : ℕ → ℕ → ℕ → ℕ → Entry
entry_of next prev selected select = record {
  next = next;
  prev = prev;
  selected = selected;
  priv = 7;
  select = select;
  display = 0;
}

-- The names are "A", "B" and "C", at 10, 20 and 30; the entries of "A" are at 1 and 2.
abbrev memory : Memory
memory = record {
  menus = 10;
  menu_at = λ p.
      if p == 10
      then menu_of 20 0 (65 ∷ []) 1 0
      else if p == 20
      then menu_of 30 10 (66 ∷ []) 0 0
      else menu_of 0 20 (67 ∷ []) 0 1;
  entry_at = λ p. if p == 1 then entry_of 2 0 1 99 else entry_of 0 1 0 0;
}

memory-IsMenus : IsMenus memory (10 ∷ 20 ∷ 30 ∷ []) 30
memory-IsMenus = record {
  chain = (refl, ground arith, refl, (refl, ground arith, refl, (refl, ground arith, refl, refl)));
  only = (refl, (refl, (refl, tt)));
}

memory-IsEntries : IsEntries memory 10 (1 ∷ 2 ∷ []) 1
memory-IsEntries = record {
  chain = (refl, ground arith, refl, (refl, ground arith, refl, refl));
  only = (refl, (refl, tt));
}

menu_entry_move_example :
    (t : Memory) × (menu_entry_move 2 true 10 (negsuc 0) memory ≡ some t)
    × IsEntries t 10 (1 ∷ 2 ∷ []) 2
    × (t.menu_at ≡ memory.menu_at)
    × ((c : ℕ)
        → ((t.entry_at c).priv ≡ (memory.entry_at c).priv)
          × ((t.entry_at c).select ≡ (memory.entry_at c).select))
menu_entry_move_example =
    menu_entry_move_lem 2 10 (negsuc 0) [] 1 (2 ∷ []) memory (ground arith) memory-IsEntries
      (omega arith)

menu_find_by_name_made_example :
    (t : Memory) × (menu_find_by_name 3 40 (68 ∷ []) memory ≡ some (40, t))
    × IsMenus t (10 ∷ 20 ∷ 30 ∷ 40 ∷ []) 30
    × ((t.menu_at 40).name ≡ 68 ∷ [])
    × ((t.menu_at 40).children ≡ 0)
    × ((c : ℕ)
        → c ≢ 40
        → ((t.menu_at c).name ≡ (memory.menu_at c).name)
          × ((t.menu_at c).children ≡ (memory.menu_at c).children))
menu_find_by_name_made_example =
    menu_find_by_name_made 3 40 (68 ∷ []) 10 (20 ∷ 30 ∷ []) 30 memory memory-IsMenus
      (ground arith, (ground arith, (ground arith, tt)))
      ((ground arith, (ground arith, tt)), ((ground arith, tt), (tt, tt)))
      (ground arith, (ground arith, (ground arith, (ground arith, tt)))) (ground arith)
      (omega arith)

menu_add-IsEntries_example :
    (t : Memory) × (menu_add 3 0 (65 ∷ []) 5 2 memory ≡ some t)
    × IsEntries t 10 (1 ∷ 2 ∷ 5 ∷ 6 ∷ []) 1
menu_add-IsEntries_example =
    menu_add-IsEntries 3 0 (65 ∷ []) 5 2 [] 10 (20 ∷ 30 ∷ []) 1 (2 ∷ []) 1 memory memory-IsMenus tt
      refl (omega arith) memory-IsEntries (omega arith) ((ground arith, tt), (tt, tt))
      (inl (omega arith), (inl (omega arith), (inl (omega arith), tt))) (ground arith)

-- An open menu that is shown, with 6 in `menu_timeout_time`.
abbrev screen : Screen
screen = record {
  menu_damage = 0;
  menu_hidden = 0;
  menu_timeout = 6;
  menu_timeout_time = 6;
  gui_menu_task = true;
  memory = memory;
}

abbrev callback : ℕ → ℕ → Screen → Screen × List Effect
callback f arg s = (s, [])

ticks-open_example :
    Option.map (λ (t : Screen). t.gui_menu_task) (ticks callback 4 true 100 screen) ≡ some true
unfolding find_selected
ticks-open_example =
    ticks-open callback 4 true 100 screen {menu = 30} refl refl (omega arith) (omega arith)
      (omega arith) (omega arith) refl

-- The third menu is selected and has no entries.
abbrev fonts : Fonts
fonts = record { entry_height = 24; name_height = 30; name_width = 12 }

menus_shown :
    menus_display 4 3 fonts memory 10 100 100 50
    ≡ some (
        print_name (65 ∷ []) 100 50 0x03
        ∷ print_name (66 ∷ []) 172 50 0x03
        ∷ print_name (67 ∷ []) 244 50 0x7F
        ∷ [])
unfolding menus_display below_name menu_display Option.bind
menus_shown = refl
