-- ===== src/Menu/Display.antt =====
-- What `menus_display` of menu.c draws: the names of the menus in a row, and the entries of the selected one below.
use mathlib.Core.Option
use magic_lantern.Common.{
  ℕ, zero, suc, ◌+◌, ◌*◌, ◌<◌, ◌≡◌, refl, ap, ◌∙◌, Option, none, some, List, [], ◌∷◌, ◌++◌, arith,
  Bool-cases, inl, inr, ◌==◌, if◌then◌else◌, length,
}
use magic_lantern.Common.Text.{Text, All}
use magic_lantern.Menu.{Entry, Memory}
use magic_lantern.Menu.Links.{Links, eq_zero_false}

-- A call: the name of a menu with its background, or the function of an entry with its arguments.
pub data Call : Type 0 where
  print_name : Text → ℕ → ℕ → ℕ → Call
  display : ℕ → ℕ → ℕ → ℕ → ℕ → Call

-- The sizes that the fonts give: the height of an entry, and the height and the width of the font of the names.
pub record Fonts : Type 0 where
  pub entry_height : ℕ
  pub name_height : ℕ
  pub name_width : ℕ

-- `menu_display`, with fuel for the entries; `none`: the fuel ran out.
unfoldable pub menu_display : ℕ → Fonts → (ℕ → Entry) → ℕ → ℕ → ℕ → Option (List Call)
menu_display zero f entry_at menu x y = none
menu_display (suc fuel) f entry_at menu x y =
    let e = entry_at menu in
    let rest = menu_display fuel f entry_at e.next x (y + f.entry_height) in
    if menu == 0
    then some []
    else Option.map (λ l. display e.display e.priv x y e.selected ∷ l) rest

-- The entries below the name, if the menu is selected.
unfoldable pub below_name : ℕ → Fonts → Memory → ℕ → ℕ → ℕ → Option (List Call)
unfolding menu_display
below_name fuel f s menu orig_x y =
    let m = s.menu_at menu in
    if m.selected == 0
    then some []
    else menu_display fuel f s.entry_at m.children orig_x (y + f.name_height + 4)

-- The loop of `menus_display`, with fuel for the menus and for the entries of each. The background is 0x7F for a selected
-- menu, and COLOR_BG for the others.
unfoldable pub menus_display : ℕ → ℕ → Fonts → Memory → ℕ → ℕ → ℕ → ℕ → Option (List Call)
unfolding below_name
menus_display zero entry_fuel f s menu orig_x x y = none
menus_display (suc fuel) entry_fuel f s menu orig_x x y =
    let m = s.menu_at menu in
    let rest = menus_display fuel entry_fuel f s m.next orig_x (x + f.name_width * 6) y in
    let below = below_name entry_fuel f s menu orig_x y in
    if menu == 0
    then some []
    else Option.bind below (λ l.
      Option.map (λ r. print_name m.name x y (if m.selected == 0 then 0x03 else 0x7F) ∷ (l ++ r))
        rest)

-- The entries of a list in a column, from the `k`-th line on.
unfoldable pub column : Fonts → (ℕ → Entry) → ℕ → ℕ → ℕ → List ℕ → List Call
column f entry_at x y k [] = []
column f entry_at x y k (p ∷ ps) =
    let e = entry_at p in
    display e.display e.priv x (y + k * f.entry_height) e.selected
    ∷ column f entry_at x y (suc k) ps

-- The menus of a list in a row, from the `k`-th place on, with the entries `kids` of the selected ones.
unfoldable pub row : Fonts → Memory → (ℕ → List ℕ) → ℕ → ℕ → ℕ → List ℕ → List Call
unfolding column
row f s kids x y k [] = []
row f s kids x y k (p ∷ ps) =
    let m = s.menu_at p in
    print_name m.name (x + k * (f.name_width * 6)) y (if m.selected == 0 then 0x03 else 0x7F)
    ∷ ((if m.selected == 0 then [] else column f s.entry_at x (y + f.name_height + 4) 0 (kids p))
        ++ row f s kids x y (suc k) ps)

menu_display-column :
    (fuel : ℕ) (f : Fonts) (entry_at : ℕ → Entry) (p x y k : ℕ) (ps : List ℕ)
    → length ps < fuel
    → Links (λ q. (entry_at q).next) p ps
    → menu_display fuel f entry_at p x (y + k * f.entry_height) ≡ some (column f entry_at x y k ps)
unfolding menu_display column
menu_display-column zero f entry_at p x y k ps h links = absurd (omega (arith, h))
menu_display-column (suc fuel) f entry_at p x y k [] h end = rw end refl
menu_display-column (suc fuel) f entry_at p x y k (a ∷ ps) h (here, live, links) =
    let there = eq_zero_false a live in
    let next_line : y + k * f.entry_height + f.entry_height ≡ y + suc k * f.entry_height =
      omega arith in
    let ih =
      menu_display-column fuel f entry_at (entry_at a).next x y (suc k) ps (omega (arith, h))
        links in
    rw (here, there, next_line, ih) refl

below_name-column :
    (fuel : ℕ) (f : Fonts) (s : Memory) (p x y : ℕ) (ps : List ℕ)
    → length ps < fuel
    → Links (λ q. (s.entry_at q).next) (s.menu_at p).children ps
    → below_name fuel f s p x y
      ≡ some (
          if (s.menu_at p).selected == 0
          then []
          else column f s.entry_at x (y + f.name_height + 4) 0 ps)
unfolding below_name
below_name-column fuel f s p x y ps h links = elim (Bool-cases ((s.menu_at p).selected == 0)) [
  | inl e ↦ rw e refl
  | inr e ↦
      let top : y + f.name_height + 4 ≡ y + f.name_height + 4 + 0 * f.entry_height = omega arith in
      rw e (
        ap (λ t. menu_display fuel f s.entry_at (s.menu_at p).children x t) top
        ∙ menu_display-column fuel f s.entry_at (s.menu_at p).children x (y + f.name_height + 4) 0
            ps h links)
]

-- With fuel for the menus and for the entries of each, the names stand side by side, six letters each, and the entries of
-- a selected menu under one another below the left end of the row, in the order of the lists.
pub menus_display-row :
    (fuel entry_fuel : ℕ) (f : Fonts) (s : Memory) (kids : ℕ → List ℕ) (p x y k : ℕ) (ps : List ℕ)
    → length ps < fuel
    → Links (λ q. (s.menu_at q).next) p ps
    → All
        (λ q.
          (length (kids q) < entry_fuel)
          × Links (λ e. (s.entry_at e).next) (s.menu_at q).children (kids q))
        ps
    → menus_display fuel entry_fuel f s p x (x + k * (f.name_width * 6)) y
      ≡ some (row f s kids x y k ps)
unfolding menus_display row Option.bind
menus_display-row zero entry_fuel f s kids p x y k ps h links entries = absurd (omega (arith, h))
menus_display-row (suc fuel) entry_fuel f s kids p x y k [] h end entries = rw end refl
menus_display-row (suc fuel) entry_fuel f s kids p x y k (a ∷ ps) h (here, live, links)
      ((enough, own), entries) =
    let there = eq_zero_false a live in
    let next_place : x + k * (f.name_width * 6) + f.name_width * 6
        ≡ x + suc k * (f.name_width * 6) =
      omega arith in
    let below = below_name-column entry_fuel f s a x y (kids a) enough own in
    let ih =
      menus_display-row fuel entry_fuel f s kids (s.menu_at a).next x y (suc k) ps
        (omega (arith, h)) links entries in
    rw (here, there, next_place, below, ih) refl
