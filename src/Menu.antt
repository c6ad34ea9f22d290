-- ===== src/Menu.antt =====
-- menu.c: the menus and their entries, two kinds of doubly linked lists in memory, and the moves of the
-- selection in them. A pointer is a number, and NULL is 0.
pub mod Links
pub mod Moves
pub mod Named
pub mod Added
pub mod Handler
pub mod Display
mod Tests
use magic_lantern.Common.{
  ℕ, zero, suc, ◌+◌, ◌-◌, Bool, true, false, not, Option, none, some, List, [], ◌∷◌, ◌==◌,
  if◌then◌else◌,
}
use mathlib.Core.Option
use magic_lantern.Common.Memory.{update}
use magic_lantern.Common.Int.{ℤ, pos, ltb_ℤ}
use magic_lantern.Common.Text.{Text, streq}

-- `struct menu`
pub record Menu : Type 0 where
  pub next : ℕ
  pub prev : ℕ
  pub name : Text
  pub children : ℕ
  pub selected : ℕ

-- `struct menu_entry`; `select` and `display` are function pointers.
pub record Entry : Type 0 where
  pub next : ℕ
  pub prev : ℕ
  pub selected : ℕ
  pub priv : ℕ
  pub select : ℕ
  pub display : ℕ

-- The memory that the menus live in, and the static variable `menus`.
pub record Memory : Type 0 where
  pub menus : ℕ
  pub menu_at : ℕ → Menu
  pub entry_at : ℕ → Entry

-- `while( p->next ) p = p->next;`, for either pointer field. `none`: the fuel ran out.
unfoldable pub walk : ℕ → (ℕ → ℕ) → ℕ → Option ℕ
walk zero link p = none
walk (suc fuel) link p = let rest = walk fuel link (link p) in if link p == 0 then some p else rest

-- The item that a move from `p` selects: the neighbour, or the item at the other end.
unfoldable pub target : ℕ → (ℕ → ℕ) → (ℕ → ℕ) → ℤ → ℕ → Option ℕ
target fuel next prev direction p =
    if ltb_ℤ direction (pos 0)
    then if prev p == 0 then walk fuel next p else some (prev p)
    else if next p == 0
    then walk fuel prev p
    else some (next p)

-- `for( ; p ; p = p->next ) if( p->selected ) break;`: 0 if there is none.
unfoldable pub find_selected : ℕ → (ℕ → ℕ) → (ℕ → ℕ) → ℕ → Option ℕ
find_selected zero next selected p = none
find_selected (suc fuel) next selected p =
    let rest = find_selected fuel next selected (next p) in
    if p == 0 then some 0 else if selected p == 0 then rest else some p

abbrev pub select_menu : ℕ → ℕ → Memory → Memory
select_menu p v s = record s {
  menu_at = update s.menu_at p (record (s.menu_at p) { selected = v });
}

abbrev pub select_entry : ℕ → ℕ → Memory → Memory
select_entry p v s = record s {
  entry_at = update s.entry_at p (record (s.entry_at p) { selected = v });
}

-- `menu_move`; `taken` is whether the semaphore is taken in time. `menu_damage` is set in any case,
-- by the caller here (module Handler).
unfoldable pub menu_move : ℕ → Bool → ℕ → ℤ → Memory → Option Memory
menu_move fuel taken menu direction s =
    if menu == 0
    then some s
    else if not taken
    then some s
    else Option.map (λ q. select_menu q 1 (select_menu menu 0 s))
        (target fuel (λ p. (s.menu_at p).next) (λ p. (s.menu_at p).prev) direction menu)

unfoldable pub menu_entry_move : ℕ → Bool → ℕ → ℤ → Memory → Option Memory
menu_entry_move fuel taken menu direction s =
    if menu == 0
    then some s
    else if not taken
    then some s
    else Option.bind
        (find_selected fuel (λ p. (s.entry_at p).next) (λ p. (s.entry_at p).selected)
          (s.menu_at menu).children)
        (λ entry.
          if entry == 0
          then some s
          else Option.map (λ q. select_entry q 1 (select_entry entry 0 s))
              (target fuel (λ p. (s.entry_at p).next) (λ p. (s.entry_at p).prev) direction entry))

-- `menu_entry_select`: the function that is called, and its argument.
unfoldable pub menu_entry_select : ℕ → ℕ → Memory → Option (Option (ℕ × ℕ))
menu_entry_select fuel menu s =
    if menu == 0
    then some none
    else Option.map
        (λ entry.
          if entry == 0
          then none
          else if (s.entry_at entry).select == 0
          then none
          else some ((s.entry_at entry).select, (s.entry_at entry).priv))
        (find_selected fuel (λ p. (s.entry_at p).next) (λ p. (s.entry_at p).selected)
          (s.menu_at menu).children)

-- Where the search by name ends: at the menu, or at the last one (0 if there is none).
pub data Found : Type 0 where
  here : ℕ → Found
  after : ℕ → Found

unfoldable pub search_name : ℕ → (ℕ → Menu) → Text → ℕ → Option Found
search_name zero menu_at name p = none
search_name (suc fuel) menu_at name p =
    let rest = search_name fuel menu_at name (menu_at p).next in
    if p == 0
    then some (after 0)
    else if streq (menu_at p).name name
    then some (here p)
    else if (menu_at p).next == 0
    then some (after p)
    else rest

-- A new menu at the end of the list; `last` is the last one, or 0.
unfoldable pub append_menu : ℕ → ℕ → Text → Memory → Memory
append_menu new last name s =
    let made : Menu = record {
      next = 0;
      prev = last;
      name = name;
      children = 0;
      selected = if last == 0 then 1 else 0;
    } in
    let t = record s { menu_at = update s.menu_at new made } in
    if last == 0
    then record t { menus = new }
    else record t { menu_at = update t.menu_at last (record (t.menu_at last) { next = new }) }

-- `menu_find_by_name`; `block` is what `malloc` gives (0 if nothing). The menu, or 0.
unfoldable pub menu_find_by_name : ℕ → ℕ → Text → Memory → Option (ℕ × Memory)
menu_find_by_name fuel block name s =
    Option.map
      (λ found. elim found [
        | here p ↦ (p, s)
        | after last ↦ if block == 0 then (0, s) else (block, append_menu block last name s)
      ])
      (search_name fuel s.menu_at name s.menus)

-- The loop of `menu_add` that puts `count` entries from `new` on after `head`, the last one.
unfoldable pub append_entries : ℕ → ℕ → ℕ → Memory → Memory
append_entries zero new head s = s
append_entries (suc count) new head s =
    let made = record (s.entry_at new) {
      selected = 0;
      next = (s.entry_at head).next;
      prev = head;
    } in
    let t = record s { entry_at = update s.entry_at new made } in
    append_entries count (new + 1) new
      (record t { entry_at = update t.entry_at head (record (t.entry_at head) { next = new }) })

-- The first entry of a menu, which is selected.
unfoldable pub first_entry : ℕ → ℕ → Memory → Memory
first_entry menu new s = record s {
  menu_at = update s.menu_at menu (record (s.menu_at menu) { children = new });
  entry_at = update s.entry_at new (record (s.entry_at new) { next = 0; prev = 0; selected = 1 });
}

-- The walk to the end of the entries from `head`, and the loop.
unfoldable pub add_after : ℕ → ℕ → ℕ → ℕ → Memory → Option Memory
add_after fuel head new count s =
    Option.map (λ last. append_entries count new last s) (walk fuel (λ p. (s.entry_at p).next) head)

unfoldable pub add_entries : ℕ → ℕ → ℕ → ℕ → Memory → Option Memory
add_entries fuel menu new count s =
    if menu == 0
    then some s
    else if (s.menu_at menu).children == 0
    then add_after fuel new (new + 1) (count - 1) (first_entry menu new s)
    else add_after fuel (s.menu_at menu).children new count s

-- `menu_add`, for a `count` of at least 1; the entries stand one after another in memory.
unfoldable pub menu_add : ℕ → ℕ → Text → ℕ → ℕ → Memory → Option Memory
menu_add fuel block name new count s =
    Option.bind (menu_find_by_name fuel block name s)
      (λ (r : ℕ × Memory). add_entries fuel r.0 new count r.1)
