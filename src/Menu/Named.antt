-- ===== src/Menu/Named.antt =====
-- The menu of a name: found, or made at the end of the list.

use magic_lantern.Common.{
  ℕ, zero, suc, ◌≤◌, ◌<◌, ◌≡◌, ◌≢◌, refl, sym, subst, ◌∙◌, true, some, List, [], ◌∷◌, ◌++◌, arith,
  ◌==◌, if◌then◌else◌, length, length-append,
}
use magic_lantern.Common.Text.{Text, All, streq_refl, streq_of_ne}
use magic_lantern.Menu.{Menu, Memory, here, after, search_name, append_menu, menu_find_by_name}
use magic_lantern.Menu.Links.{Links, Chain, Chain-Links, last, OnlySelected, eq_zero_false}
use magic_lantern.Menu.Moves.{IsMenus}

-- No item stands twice.
abbrev pub Different : List ℕ → Type 0
Different [] = Unit
Different (a ∷ cs) = All (λ c. a ≢ c) cs × Different cs

abbrev pub Unnamed : (ℕ → Menu) → Text → List ℕ → Type 0
Unnamed menu_at name = All (λ c. (menu_at c).name ≢ name)

search_name_here :
    (fuel : ℕ) (menu_at : ℕ → Menu) (name : Text) (p : ℕ) (xs : List ℕ) (a : ℕ) (ys : List ℕ)
    → Links (λ c. (menu_at c).next) p (xs ++ (a ∷ ys))
    → Unnamed menu_at name xs
    → (menu_at a).name ≡ name
    → length xs < fuel
    → search_name fuel menu_at name p ≡ some (here a)
unfolding search_name
search_name_here zero menu_at name p xs a ys h u e f = absurd (omega arith)
search_name_here (suc fuel) menu_at name p [] a ys h u e f =
    rw h.0 (rw (eq_zero_false a h.1, e, streq_refl name) refl)
search_name_here (suc fuel) menu_at name p (x ∷ []) a ys h u e f =
    let ih = search_name_here fuel menu_at name (menu_at x).next [] a ys h.2 tt e (omega arith) in
    let more = eq_zero_false (menu_at x).next (λ z. h.2.1 (sym h.2.0 ∙ z)) in
    rw h.0 (rw (eq_zero_false x h.1, streq_of_ne _ name u.0, more) ih)
search_name_here (suc fuel) menu_at name p (x ∷ y ∷ xs) a ys h u e f =
    let ih =
      search_name_here fuel menu_at name (menu_at x).next (y ∷ xs) a ys h.2 u.1 e (omega arith) in
    let more = eq_zero_false (menu_at x).next (λ z. h.2.1 (sym h.2.0 ∙ z)) in
    rw h.0 (rw (eq_zero_false x h.1, streq_of_ne _ name u.0, more) ih)

search_name_after :
    (fuel : ℕ) (menu_at : ℕ → Menu) (name : Text) (p a : ℕ) (cs : List ℕ)
    → Links (λ c. (menu_at c).next) p (a ∷ cs)
    → Unnamed menu_at name (a ∷ cs)
    → length cs < fuel
    → search_name fuel menu_at name p ≡ some (after (last a cs))
unfolding search_name
search_name_after zero menu_at name p a cs h u f = absurd (omega arith)
search_name_after (suc fuel) menu_at name p a [] h u f =
    let end : ((menu_at a).next == 0) ≡ true = ground (arith, h.2) in
    rw h.0 (rw (eq_zero_false a h.1, streq_of_ne _ name u.0, end) refl)
search_name_after (suc fuel) menu_at name p a (c ∷ cs) h u f =
    let ih = search_name_after fuel menu_at name (menu_at a).next c cs h.2 u.1 (omega arith) in
    let more = eq_zero_false (menu_at a).next (λ z. h.2.1 (sym h.2.0 ∙ z)) in
    rw h.0 (rw (eq_zero_false a h.1, streq_of_ne _ name u.0, more) ih)

-- The first menu of the name is found, and nothing changes.
pub menu_find_by_name_found :
    (fuel block : ℕ) (name : Text) (xs : List ℕ) (a : ℕ) (ys : List ℕ) (s : Memory) {b : ℕ}
    → IsMenus s (xs ++ (a ∷ ys)) b
    → Unnamed s.menu_at name xs
    → (s.menu_at a).name ≡ name
    → length (xs ++ (a ∷ ys)) ≤ fuel
    → menu_find_by_name fuel block name s ≡ some (a, s)
unfolding menu_find_by_name
menu_find_by_name_found fuel block name xs a ys s v u e f =
    let found =
      search_name_here fuel s.menu_at name s.menus xs a ys
        (Chain-Links _ _ 0 s.menus (xs ++ (a ∷ ys)) v.chain) u e
        (omega (arith, length-append xs (a ∷ ys))) in
    rw found refl

All-last : (P : ℕ → Type 0) (b : ℕ) (cs : List ℕ) → All P (b ∷ cs) → P (last b cs)
All-last P b [] h = h.0
All-last P b (c ∷ cs) h = All-last P c cs h.1

-- A chain with one more item at its end.
pub Chain-snoc :
    (next prev next' prev' : ℕ → ℕ) (new l before p a : ℕ) (cs : List ℕ)
    → new ≢ 0
    → l ≡ last a cs
    → ((c : ℕ) → c ≢ l → c ≢ new → next' c ≡ next c)
    → ((c : ℕ) → c ≢ new → prev' c ≡ prev c)
    → next' l ≡ new
    → next' new ≡ 0
    → prev' new ≡ l
    → Different (a ∷ cs)
    → All (λ c. c ≢ new) (a ∷ cs)
    → Chain next prev before p (a ∷ cs)
    → Chain next' prev' before p ((a ∷ cs) ++ (new ∷ []))
Chain-snoc next prev next' prev' new l before p a [] n e hn hp ln nn pn d u h =
    (h.0, h.1, hp a u.0 ∙ h.2, (rw e at ln, n, rw e at pn, nn))
Chain-snoc next prev next' prev' new l before p a (c ∷ cs) n e hn hp ln nn pn d u h =
    let apart : a ≢ l = λ z. All-last (λ x. a ≢ x) c cs d.0 (z ∙ e) in
    (
      h.0,
      h.1,
      hp a u.0 ∙ h.2,
      subst (λ q. Chain next' prev' a q ((c ∷ cs) ++ (new ∷ []))) (sym (hn a apart u.0))
          (Chain-snoc next prev next' prev' new l a (next a) c cs n e hn hp ln nn pn d.1 u.1 h.3),
    )

module _ (new l : ℕ) (name : Text) (s : Memory) (nz : l ≢ 0) (apart : l ≢ new) where
  append_fields :
      (c : ℕ)
      → (c ≢ l → c ≢ new → ((append_menu new l name s).menu_at c).next ≡ (s.menu_at c).next)
        × (c ≢ new → ((append_menu new l name s).menu_at c).prev ≡ (s.menu_at c).prev)
        × (c ≢ new → ((append_menu new l name s).menu_at c).selected ≡ (s.menu_at c).selected)
        × (c ≢ new → ((append_menu new l name s).menu_at c).name ≡ (s.menu_at c).name)
        × (c ≢ new → ((append_menu new l name s).menu_at c).children ≡ (s.menu_at c).children)
  unfolding append_menu
  append_fields c = ground arith

  append_links :
      (((append_menu new l name s).menu_at l).next ≡ new)
      × ((append_menu new l name s).menus ≡ s.menus)
      × ((append_menu new l name s).entry_at ≡ s.entry_at)
  unfolding append_menu
  append_links = ground (arith, nz, apart)

  append_new :
      let m = (append_menu new l name s).menu_at new in
      (m.next ≡ 0) × (m.prev ≡ l) × (m.selected ≡ 0) × (m.name ≡ name) × (m.children ≡ 0)
  unfolding append_menu
  append_new = ground (arith, nz, apart)

All-append-one : (P : ℕ → Type 0) (cs : List ℕ) (b : ℕ) → All P cs → P b → All P (cs ++ (b ∷ []))
All-append-one P [] b h k = (k, tt)
All-append-one P (c ∷ cs) b h k = (h.0, All-append-one P cs b h.1 k)

OnlySelected-keep :
    (sel sel' : ℕ → ℕ) (new b : ℕ) (cs : List ℕ)
    → ((c : ℕ) → c ≢ new → sel' c ≡ sel c)
    → All (λ c. c ≢ new) cs
    → OnlySelected sel b cs
    → OnlySelected sel' b cs
OnlySelected-keep sel sel' new b [] h u o = tt
OnlySelected-keep sel sel' new b (c ∷ cs) h u o =
    (h c u.0 ∙ o.0, OnlySelected-keep sel sel' new b cs h u.1 o.1)

-- A menu of a new name is made at the end of a list of menus that is not empty, from a block that is in no use; it has no
-- entries and is not selected. The other menus keep their order, names and entries, and the selected one
-- stays selected.
pub menu_find_by_name_made :
    (fuel block : ℕ) (name : Text) (a : ℕ) (cs : List ℕ) (b : ℕ) (s : Memory)
    → IsMenus s (a ∷ cs) b
    → Unnamed s.menu_at name (a ∷ cs)
    → Different (a ∷ cs)
    → All (λ c. c ≢ block) (b ∷ a ∷ cs)
    → block ≢ 0
    → length (a ∷ cs) ≤ fuel
    → (t : Memory) × (menu_find_by_name fuel block name s ≡ some (block, t))
      × IsMenus t ((a ∷ cs) ++ (block ∷ [])) b
      × ((t.menu_at block).name ≡ name)
      × ((t.menu_at block).children ≡ 0)
      × ((c : ℕ)
          → c ≢ block
          → ((t.menu_at c).name ≡ (s.menu_at c).name)
            × ((t.menu_at c).children ≡ (s.menu_at c).children))
unfolding menu_find_by_name
menu_find_by_name_made fuel block name a cs b s v u d fresh n f =
    let l = last a cs in
    let links = Chain-Links _ _ 0 s.menus (a ∷ cs) v.chain in
    let found = search_name_after fuel s.menu_at name s.menus a cs links u (omega arith) in
    let nz : l ≢ 0 = All-last (λ c. c ≢ 0) a cs (nonzero _ s.menus (a ∷ cs) links) in
    let apart : l ≢ block = All-last (λ c. c ≢ block) a cs fresh.1 in
    let fields = append_fields block l name s nz apart in
    let made = append_new block l name s nz apart in
    let joined = append_links block l name s nz apart in
    (
      append_menu block l name s,
      rw (found, eq_zero_false block n) refl,
      record {
        chain =
            subst
              (λ p.
                Chain (λ c. ((append_menu block l name s).menu_at c).next)
                  (λ c. ((append_menu block l name s).menu_at c).prev) 0 p
                  ((a ∷ cs) ++ (block ∷ [])))
              (sym joined.1)
              (Chain-snoc _ _ _ _ block l 0 s.menus a cs n refl (λ c. (fields c).0)
                (λ c. (fields c).1) joined.0 made.0 made.1 d fresh.1 v.chain);
        only =
            All-append-one _ (a ∷ cs) block
              (OnlySelected-keep _ _ block b (a ∷ cs) (λ c. (fields c).2) fresh.1 v.only)
              (made.2 ∙ other b block fresh.0);
      },
      made.3,
      made.4,
      λ c ne. ((fields c).3 ne, (fields c).4 ne),
    )
  where
    nonzero : (link : ℕ → ℕ) (p : ℕ) (ps : List ℕ) → Links link p ps → All (λ c. c ≢ 0) ps
    nonzero link p [] h = tt
    nonzero link p (c ∷ ps) h = (h.1, nonzero link (link c) ps h.2)

    other : (x y : ℕ) → x ≢ y → ◌≡◌ {A = ℕ} 0 (if y == x then 1 else 0)
    other x y h = ground (arith, h)

-- The first menu of all is selected.
menu_find_by_name_first :
    (fuel block : ℕ) (name : Text) (s : Memory)
    → s.menus ≡ 0
    → block ≢ 0
    → 0 < fuel
    → (t : Memory) × (menu_find_by_name fuel block name s ≡ some (block, t))
      × IsMenus t (block ∷ []) block
      × ((t.menu_at block).name ≡ name)
unfolding menu_find_by_name append_menu search_name
menu_find_by_name_first zero block name s z n f = absurd (omega arith)
menu_find_by_name_first (suc fuel) block name s z n f =
    let t = append_menu block 0 name s in
    let empty : (s.menus == 0) ≡ true = ground (arith, z) in
    let self : (block == block) ≡ true = ground arith in
    (
      t,
      rw (empty, eq_zero_false block n) refl,
      record { chain = (refl, n, rw self refl, rw self refl); only = (rw self refl, tt) },
      rw self refl,
    )
