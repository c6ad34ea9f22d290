-- ===== src/Menu/Added.antt =====
-- The entries that `menu_add` puts at the end of a menu.
use mathlib.Core.Option
use magic_lantern.Common.{
  ℕ, zero, suc, ◌+◌, ◌≤◌, ◌<◌, ◌≡◌, ◌≢◌, refl, sym, subst, ◌∙◌, ◌⊎◌, inl, inr, some, List, [], ◌∷◌,
  ◌++◌, arith, append-nil, append_assoc, length,
}
use magic_lantern.Common.Text.{Text, All}
use magic_lantern.Common.Memory.{update}
use magic_lantern.Menu.{Memory, append_entries, add_after, add_entries, menu_add}
use magic_lantern.Menu.Links.{Chain, Chain-Links, last, OnlySelected, walk-last, eq_zero_false}
use magic_lantern.Menu.Moves.{IsMenus, IsEntries, Chain-ne_zero}
use magic_lantern.Menu.Named.{Different, Unnamed, Chain-snoc, menu_find_by_name_found}

-- The addresses of `count` entries from `new` on, in units of an entry.
abbrev pub range : ℕ → ℕ → List ℕ
range new zero = []
range new (suc count) = new ∷ range (new + 1) count

abbrev pub Outside : ℕ → ℕ → ℕ → Type 0
Outside new count c = (c < new) ⊎ (new + count ≤ c)

-- One round of the loop.
abbrev append_one : ℕ → ℕ → Memory → Memory
append_one new head s =
    let made = record (s.entry_at new) {
      selected = 0;
      next = (s.entry_at head).next;
      prev = head;
    } in
    let t = record s { entry_at = update s.entry_at new made } in
    record t { entry_at = update t.entry_at head (record (t.entry_at head) { next = new }) }

append_one_fields :
    (new head : ℕ) (s : Memory)
    → head ≢ new
    → (c : ℕ)
    → (c ≢ head → c ≢ new → ((append_one new head s).entry_at c).next ≡ (s.entry_at c).next)
      × (c ≢ new → ((append_one new head s).entry_at c).prev ≡ (s.entry_at c).prev)
      × (c ≢ new → ((append_one new head s).entry_at c).selected ≡ (s.entry_at c).selected)
append_one_fields new head s apart c = ground (arith, apart)

append_one_new :
    (new head : ℕ) (s : Memory)
    → head ≢ new
    → (((append_one new head s).entry_at head).next ≡ new)
      × (((append_one new head s).entry_at new).next ≡ (s.entry_at head).next)
      × (((append_one new head s).entry_at new).prev ≡ head)
      × (((append_one new head s).entry_at new).selected ≡ 0)
append_one_new new head s apart = ground (arith, apart)

Chain-last :
    (next prev : ℕ → ℕ) (before p a : ℕ) (cs : List ℕ)
    → Chain next prev before p (a ∷ cs)
    → next (last a cs) ≡ 0
Chain-last next prev before p a [] h = h.3
Chain-last next prev before p a (c ∷ cs) h = Chain-last next prev a (next a) c cs h.3

last-append : (a : ℕ) (cs : List ℕ) (b : ℕ) → last a (cs ++ (b ∷ [])) ≡ b
last-append a [] b = refl
last-append a (c ∷ cs) b = last-append c cs b

All-map : (P Q : ℕ → Type 0) (cs : List ℕ) → ((c : ℕ) → P c → Q c) → All P cs → All Q cs
All-map P Q [] f h = tt
All-map P Q (c ∷ cs) f h = (f c h.0, All-map P Q cs f h.1)

All-snoc : (P : ℕ → Type 0) (cs : List ℕ) (b : ℕ) → All P cs → P b → All P (cs ++ (b ∷ []))
All-snoc P [] b h k = (k, tt)
All-snoc P (c ∷ cs) b h k = (h.0, All-snoc P cs b h.1 k)

Different-snoc :
    (cs : List ℕ) (b : ℕ) → Different cs → All (λ c. c ≢ b) cs → Different (cs ++ (b ∷ []))
Different-snoc [] b d u = (tt, tt)
Different-snoc (c ∷ cs) b d u = (All-snoc (λ x. c ≢ x) cs b d.0 u.0, Different-snoc cs b d.1 u.1)

All-last : (P : ℕ → Type 0) (a : ℕ) (cs : List ℕ) → All P (a ∷ cs) → P (last a cs)
All-last P a [] h = h.0
All-last P a (c ∷ cs) h = All-last P c cs h.1

OnlySelected-snoc :
    (sel sel' : ℕ → ℕ) (new e : ℕ) (cs : List ℕ)
    → ((c : ℕ) → c ≢ new → sel' c ≡ sel c)
    → sel' new ≡ 0
    → e ≢ new
    → All (λ c. c ≢ new) cs
    → OnlySelected sel e cs
    → OnlySelected sel' e (cs ++ (new ∷ []))
OnlySelected-snoc sel sel' new e [] h z n u o = (z ∙ ground (arith, n), tt)
OnlySelected-snoc sel sel' new e (c ∷ cs) h z n u o =
    (h c u.0 ∙ o.0, OnlySelected-snoc sel sel' new e cs h z n u.1 o.1)

append_one-IsEntries :
    (menu new a : ℕ) (cs : List ℕ) (e : ℕ) (s : Memory)
    → IsEntries s menu (a ∷ cs) e
    → Different (a ∷ cs)
    → All (λ c. c ≢ new) (e ∷ a ∷ cs)
    → new ≢ 0
    → IsEntries (append_one new (last a cs) s) menu ((a ∷ cs) ++ (new ∷ [])) e
append_one-IsEntries menu new a cs e s v d u n =
    let l = last a cs in
    let apart : l ≢ new = All-last (λ c. c ≢ new) a cs u.1 in
    let fields = append_one_fields new l s apart in
    let made = append_one_new new l s apart in
    record {
      chain =
          Chain-snoc _ _ _ _ new l 0 (s.menu_at menu).children a cs n refl (λ c. (fields c).0)
            (λ c. (fields c).1) made.0
            (made.1 ∙ Chain-last _ _ 0 (s.menu_at menu).children a cs v.chain) made.2 d u.1 v.chain;
      only = OnlySelected-snoc _ _ new e (a ∷ cs) (λ c. (fields c).2) made.3 u.0 u.1 v.only;
    }

pub append_entries-IsEntries :
    (count menu new a : ℕ) (cs : List ℕ) (e : ℕ) (s : Memory)
    → IsEntries s menu (a ∷ cs) e
    → Different (a ∷ cs)
    → All (Outside new count) (e ∷ a ∷ cs)
    → new ≢ 0
    → IsEntries (append_entries count new (last a cs) s) menu ((a ∷ cs) ++ range new count) e
unfolding append_entries
append_entries-IsEntries zero menu new a cs e s v d u n =
    subst (λ xs. IsEntries s menu xs e) (sym (append-nil (a ∷ cs))) v
append_entries-IsEntries (suc count) menu new a cs e s v d u n =
    let apart =
      All-map (Outside new (suc count)) (λ c. c ≢ new) (e ∷ a ∷ cs) (λ c o. not_new c o) u in
    let later =
      All-map (Outside new (suc count)) (Outside (new + 1) count) (e ∷ a ∷ cs) (λ c o. beyond c o)
        u in
    let t = append_one new (last a cs) s in
    let ih =
      append_entries-IsEntries count menu (new + 1) a (cs ++ (new ∷ [])) e t
        (append_one-IsEntries menu new a cs e s v d apart n) (Different-snoc (a ∷ cs) new d apart.1)
        (All-snoc (Outside (new + 1) count) (e ∷ a ∷ cs) new later (inl (omega arith)))
        (ground arith) in
    subst
      (λ l.
        IsEntries (append_entries count (new + 1) l t) menu ((a ∷ cs) ++ range new (suc count)) e)
      (last-append a cs new)
      (subst
        (λ xs. IsEntries (append_entries count (new + 1) (last a (cs ++ (new ∷ []))) t) menu xs e)
        (append_assoc (a ∷ cs) (new ∷ []) (range (new + 1) count)) ih)
  where
    not_new : (c : ℕ) → Outside new (suc count) c → c ≢ new
    not_new c (inl o) = ground arith
    not_new c (inr o) = ground arith

    beyond : (c : ℕ) → Outside new (suc count) c → Outside (new + 1) count c
    beyond c (inl o) = inl (omega arith)
    beyond c (inr o) = inr (omega arith)

-- Entries that are added to a menu with entries, from places in no use, come last in it, in their order; the
-- entry that is selected stays so, and the list stays doubly linked.
pub menu_add-IsEntries :
    (fuel block : ℕ) (name : Text) (new count : ℕ) (xs : List ℕ) (m : ℕ) (ys : List ℕ) {b : ℕ}
    (a : ℕ) (cs : List ℕ) (e : ℕ) (s : Memory)
    → IsMenus s (xs ++ (m ∷ ys)) b
    → Unnamed s.menu_at name xs
    → (s.menu_at m).name ≡ name
    → length (xs ++ (m ∷ ys)) ≤ fuel
    → IsEntries s m (a ∷ cs) e
    → length (a ∷ cs) ≤ fuel
    → Different (a ∷ cs)
    → All (Outside new count) (e ∷ a ∷ cs)
    → new ≢ 0
    → (t : Memory) × (menu_add fuel block name new count s ≡ some t)
      × IsEntries t m ((a ∷ cs) ++ range new count) e
unfolding menu_add Option.bind add_entries add_after
menu_add-IsEntries fuel block name new count xs m ys a cs e s menus unnamed named f v g d u n =
    let walked =
      walk-last fuel (λ p. (s.entry_at p).next) a cs (omega arith)
        (Chain-Links _ _ a (s.entry_at a).next cs v.chain.3) in
    (
      append_entries count new (last a cs) s,
      rw
          (
            menu_find_by_name_found fuel block name xs m ys s menus unnamed named f,
            eq_zero_false m (Chain-ne_zero _ _ 0 s.menus xs m ys menus.chain),
            v.chain.0,
            eq_zero_false a v.chain.1,
            walked,
          )
          refl,
      append_entries-IsEntries count m new a cs e s v d u n,
    )
