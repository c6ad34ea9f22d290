-- ===== src/Menu/Moves.antt =====
-- The moves of the selection, among the menus and among the entries of a menu.
use mathlib.Core.Path.{fun_ext}
use mathlib.Core.Option
use magic_lantern.Common.{
  ℕ, ◌≤◌, ◌≡◌, ◌≢◌, refl, sym, subst, true, none, some, List, [], ◌∷◌, ◌++◌, arith, ◌==◌,
  if◌then◌else◌, length, length-append, Bool-cases, inl, inr,
}
use magic_lantern.Common.Int.{ℤ, pos, ltb_ℤ}
use magic_lantern.Menu.{
  Memory, target, select_menu, select_entry, menu_move, menu_entry_move, menu_entry_select,
}
use magic_lantern.Menu.Links.{
  Chain, Chain-Links, right_of, left_of, target_right, target_left, OnlySelected, find_selected_lem,
  eq_zero_false,
}

-- The menus in memory are `ps`, in order, and just `a` is selected.
pub record IsMenus (s : Memory) (ps : List ℕ) (a : ℕ) : Type 0 where
  pub chain : Chain (λ p. (s.menu_at p).next) (λ p. (s.menu_at p).prev) 0 s.menus ps
  pub only : OnlySelected (λ p. (s.menu_at p).selected) a ps

-- The entries of the menu are `es`, in order, and just `e` is selected.
pub record IsEntries (s : Memory) (menu : ℕ) (es : List ℕ) (e : ℕ) : Type 0 where
  pub chain :
      Chain (λ p. (s.entry_at p).next) (λ p. (s.entry_at p).prev) 0 (s.menu_at menu).children es
  pub only : OnlySelected (λ p. (s.entry_at p).selected) e es

-- The item that a move selects: the one beside, and round at the ends.
abbrev pub moved : ℤ → List ℕ → ℕ → List ℕ → ℕ
moved direction xs a ys = if ltb_ℤ direction (pos 0) then left_of xs a ys else right_of xs a ys

target-moved :
    (fuel : ℕ) (next prev : ℕ → ℕ) (direction : ℤ) (p : ℕ) (xs : List ℕ) (a : ℕ) (ys : List ℕ)
    → Chain next prev 0 p (xs ++ (a ∷ ys))
    → length (xs ++ (a ∷ ys)) ≤ fuel
    → target fuel next prev direction a ≡ some (moved direction xs a ys)
target-moved fuel next prev direction p xs a ys h f = elim (Bool-cases (ltb_ℤ direction (pos 0))) [
  | inl e ↦ rw e (
      target_left fuel next prev direction p xs a ys e h (omega (arith, length-append xs (a ∷ ys))))
  | inr e ↦ rw e (
      target_right fuel next prev direction p xs a ys e h
        (omega (arith, length-append xs (a ∷ ys))))
]

pub Chain-ne_zero :
    (next prev : ℕ → ℕ) (before p : ℕ) (xs : List ℕ) (a : ℕ) (ys : List ℕ)
    → Chain next prev before p (xs ++ (a ∷ ys))
    → a ≢ 0
Chain-ne_zero next prev before p [] a ys h = h.1
Chain-ne_zero next prev before p (x ∷ xs) a ys h = Chain-ne_zero next prev x (next x) xs a ys h.3

-- A chain depends on the two pointer fields alone.
pub Chain-ext :
    (next prev next' prev' : ℕ → ℕ) (p : ℕ) (ps : List ℕ)
    → ((c : ℕ) → next' c ≡ next c)
    → ((c : ℕ) → prev' c ≡ prev c)
    → Chain next prev 0 p ps
    → Chain next' prev' 0 p ps
Chain-ext next prev next' prev' p ps hn hp h =
    subst (λ n. Chain n prev' 0 p ps) (sym (fun_ext hn))
      (subst (λ q. Chain next q 0 p ps) (sym (fun_ext hp)) h)

-- Selecting `b` in place of `a`.
OnlySelected-move :
    (sel sel' : ℕ → ℕ) (a b : ℕ) (ps : List ℕ)
    → ((c : ℕ) → sel' c ≡ (if c == b then 1 else if c == a then 0 else sel c))
    → OnlySelected sel a ps
    → OnlySelected sel' b ps
OnlySelected-move sel sel' a b [] h o = tt
OnlySelected-move sel sel' a b (c ∷ ps) h o =
    (ground (arith, h c, o.0), OnlySelected-move sel sel' a b ps h o.1)

abbrev remenu : ℕ → ℕ → Memory → Memory
remenu a b s = select_menu b 1 (select_menu a 0 s)

remenu_fields :
    (a b : ℕ) (s : Memory) (c : ℕ)
    → (((remenu a b s).menu_at c).next ≡ (s.menu_at c).next)
      × (((remenu a b s).menu_at c).prev ≡ (s.menu_at c).prev)
      × (((remenu a b s).menu_at c).selected
          ≡ (if c == b then 1 else if c == a then 0 else (s.menu_at c).selected))
      × (((remenu a b s).menu_at c).name ≡ (s.menu_at c).name)
      × (((remenu a b s).menu_at c).children ≡ (s.menu_at c).children)
remenu_fields a b s c = ground arith

abbrev reentry : ℕ → ℕ → Memory → Memory
reentry a b s = select_entry b 1 (select_entry a 0 s)

reentry_fields :
    (a b : ℕ) (s : Memory) (c : ℕ)
    → (((reentry a b s).entry_at c).next ≡ (s.entry_at c).next)
      × (((reentry a b s).entry_at c).prev ≡ (s.entry_at c).prev)
      × (((reentry a b s).entry_at c).selected
          ≡ (if c == b then 1 else if c == a then 0 else (s.entry_at c).selected))
      × (((reentry a b s).entry_at c).priv ≡ (s.entry_at c).priv)
      × (((reentry a b s).entry_at c).select ≡ (s.entry_at c).select)
reentry_fields a b s c = ground arith

-- With the selected menu `a` between `xs` and `ys`, a move selects the menu beside it in that direction,
-- round at the ends, and nothing else: the list, the names, the children and the entries stay.
menu_move_lem :
    (fuel : ℕ) (direction : ℤ) (xs : List ℕ) (a : ℕ) (ys : List ℕ) (s : Memory)
    → IsMenus s (xs ++ (a ∷ ys)) a
    → length (xs ++ (a ∷ ys)) ≤ fuel
    → (t : Memory) × (menu_move fuel true a direction s ≡ some t)
      × IsMenus t (xs ++ (a ∷ ys)) (moved direction xs a ys)
      × (t.entry_at ≡ s.entry_at)
      × ((c : ℕ)
          → ((t.menu_at c).name ≡ (s.menu_at c).name)
            × ((t.menu_at c).children ≡ (s.menu_at c).children))
unfolding menu_move
menu_move_lem fuel direction xs a ys s v f =
    let b = moved direction xs a ys in
    let fields = remenu_fields a b s in
    (
      remenu a b s,
      rw
          (
            eq_zero_false a (Chain-ne_zero _ _ 0 s.menus xs a ys v.chain),
            target-moved fuel _ _ direction s.menus xs a ys v.chain f,
          )
          refl,
      record {
        chain =
            Chain-ext _ _ _ _ s.menus (xs ++ (a ∷ ys)) (λ c. (fields c).0) (λ c. (fields c).1)
              v.chain;
        only = OnlySelected-move _ _ a b (xs ++ (a ∷ ys)) (λ c. (fields c).2) v.only;
      },
      refl,
      λ c. ((fields c).3, (fields c).4),
    )

-- With the selected entry `e` between `xs` and `ys` in a menu, a move selects the entry beside it, round at
-- the ends, and nothing else: the list, the menus and what the entries call stay.
pub menu_entry_move_lem :
    (fuel : ℕ) (menu : ℕ) (direction : ℤ) (xs : List ℕ) (e : ℕ) (ys : List ℕ) (s : Memory)
    → menu ≢ 0
    → IsEntries s menu (xs ++ (e ∷ ys)) e
    → length (xs ++ (e ∷ ys)) ≤ fuel
    → (t : Memory) × (menu_entry_move fuel true menu direction s ≡ some t)
      × IsEntries t menu (xs ++ (e ∷ ys)) (moved direction xs e ys)
      × (t.menu_at ≡ s.menu_at)
      × ((c : ℕ)
          → ((t.entry_at c).priv ≡ (s.entry_at c).priv)
            × ((t.entry_at c).select ≡ (s.entry_at c).select))
unfolding menu_entry_move Option.bind
menu_entry_move_lem fuel menu direction xs e ys s m v f =
    let b = moved direction xs e ys in
    let p = (s.menu_at menu).children in
    let fields = reentry_fields e b s in
    (
      reentry e b s,
      rw
          (
            eq_zero_false menu m,
            find_selected_lem fuel _ _ p xs e ys (Chain-Links _ _ 0 p (xs ++ (e ∷ ys)) v.chain)
                v.only (omega (arith, length-append xs (e ∷ ys))),
          )
          (rw
            (
              eq_zero_false e (Chain-ne_zero _ _ 0 p xs e ys v.chain),
              target-moved fuel _ _ direction p xs e ys v.chain f,
            )
            refl),
      record {
        chain =
            Chain-ext _ _ _ _ p (xs ++ (e ∷ ys)) (λ c. (fields c).0) (λ c. (fields c).1) v.chain;
        only = OnlySelected-move _ _ e b (xs ++ (e ∷ ys)) (λ c. (fields c).2) v.only;
      },
      refl,
      λ c. ((fields c).3, (fields c).4),
    )

-- "Set" calls the function of the selected entry with its argument, or nothing if it has no function.
menu_entry_select_lem :
    (fuel : ℕ) (menu : ℕ) (xs : List ℕ) (e : ℕ) (ys : List ℕ) (s : Memory)
    → menu ≢ 0
    → IsEntries s menu (xs ++ (e ∷ ys)) e
    → length (xs ++ (e ∷ ys)) ≤ fuel
    → menu_entry_select fuel menu s
      ≡ some (
          if (s.entry_at e).select == 0
          then none
          else some ((s.entry_at e).select, (s.entry_at e).priv))
unfolding menu_entry_select
menu_entry_select_lem fuel menu xs e ys s m v f =
    let p = (s.menu_at menu).children in
    rw
      (
        eq_zero_false menu m,
        find_selected_lem fuel _ _ p xs e ys (Chain-Links _ _ 0 p (xs ++ (e ∷ ys)) v.chain) v.only
            (omega (arith, length-append xs (e ∷ ys))),
      )
      (rw (eq_zero_false e (Chain-ne_zero _ _ 0 p xs e ys v.chain)) refl)
