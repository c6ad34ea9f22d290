-- ===== src/Menu/Links.antt =====
-- Doubly linked lists, and the loops that walk them.
use magic_lantern.Common.{
  ℕ, zero, suc, ◌+◌, ◌<◌, ◌≡◌, ◌≢◌, refl, sym, subst, ap, ◌∙◌, true, false, some, List, [], ◌∷◌,
  ◌++◌, arith, ◌==◌, if◌then◌else◌, length,
}
use magic_lantern.Common.Int.{ℤ, pos, ltb_ℤ}
use magic_lantern.Common.Text.{All}
use magic_lantern.Menu.{walk, target, find_selected}

-- From pointer `p` along `link` stand the items of the list, and then NULL.
abbrev pub Links : (ℕ → ℕ) → ℕ → List ℕ → Type 0
Links link p [] = p ≡ 0
Links link p (a ∷ cs) = (p ≡ a) × (a ≢ 0) × Links link (link a) cs

-- A doubly linked list from pointer `p`, behind the item `before` (or NULL).
abbrev pub Chain : (ℕ → ℕ) → (ℕ → ℕ) → ℕ → ℕ → List ℕ → Type 0
Chain next prev before p [] = p ≡ 0
Chain next prev before p (a ∷ cs) =
    (p ≡ a) × (a ≢ 0) × (prev a ≡ before) × Chain next prev a (next a) cs

abbrev pub last : ℕ → List ℕ → ℕ
last a [] = a
last a (b ∷ bs) = last b bs

abbrev pub head_or : ℕ → List ℕ → ℕ
head_or d [] = d
head_or d (a ∷ cs) = a

-- The items of `xs`, the last first, before those of `zs`.
abbrev pub rev_onto : List ℕ → List ℕ → List ℕ
rev_onto [] zs = zs
rev_onto (x ∷ xs) zs = rev_onto xs (x ∷ zs)

last-rev_onto :
    (xs : List ℕ) (z : ℕ) (zs : List ℕ) (d : ℕ) → last d (rev_onto xs (z ∷ zs)) ≡ last z zs
last-rev_onto [] z zs d = refl
last-rev_onto (x ∷ xs) z zs d = last-rev_onto xs x (z ∷ zs) d

length-rev_onto : (xs zs : List ℕ) → length (rev_onto xs zs) ≡ length xs + length zs
length-rev_onto [] zs = omega arith
length-rev_onto (x ∷ xs) zs = omega (arith, length-rev_onto xs (x ∷ zs))

pub Chain-Links :
    (next prev : ℕ → ℕ) (before p : ℕ) (cs : List ℕ) → Chain next prev before p cs → Links next p cs
Chain-Links next prev before p [] h = h
Chain-Links next prev before p (a ∷ cs) h = (h.0, h.1, Chain-Links next prev a (next a) cs h.3)

-- Both ways from an item of a chain.
pub Chain-around :
    (next prev : ℕ → ℕ) (before p : ℕ) (xs : List ℕ) (a : ℕ) (ys zs : List ℕ)
    → Chain next prev before p (xs ++ (a ∷ ys))
    → Links prev before zs
    → Links prev (prev a) (rev_onto xs zs) × Links next (next a) ys
Chain-around next prev before p [] a ys zs h k =
    (subst (λ q. Links prev q zs) (sym h.2) k, Chain-Links next prev a (next a) ys h.3)
Chain-around next prev before p (x ∷ xs) a ys zs h k =
    Chain-around next prev x (next x) xs a ys (x ∷ zs) h.3
      (refl, h.1, subst (λ q. Links prev q zs) (sym h.2) k)

pub walk-last :
    (fuel : ℕ) (link : ℕ → ℕ) (a : ℕ) (ys : List ℕ)
    → length ys < fuel
    → Links link (link a) ys
    → walk fuel link a ≡ some (last a ys)
unfolding walk
walk-last zero link a ys f h = absurd (omega arith)
walk-last (suc fuel) link a [] f h = ground (arith, h)
walk-last (suc fuel) link a (y ∷ ys) f h =
    let more : (link a == 0) ≡ false = ground (arith, h.0, h.1) in
    rw (more, h.0) (walk-last fuel link y ys (omega arith) h.2)

-- The items that a move from `a` selects in `xs ++ a ∷ ys`.
abbrev pub right_of : List ℕ → ℕ → List ℕ → ℕ
right_of xs a [] = head_or a xs
right_of xs a (y ∷ ys) = y

abbrev pub left_of : List ℕ → ℕ → List ℕ → ℕ
left_of [] a ys = last a ys
left_of (x ∷ xs) a ys = last x xs

Links-rev_onto :
    (link : ℕ → ℕ) (p : ℕ) (xs : List ℕ) (x : ℕ) (zs : List ℕ)
    → Links link p (rev_onto xs (x ∷ zs))
    → (p ≡ last x xs) × (p ≢ 0)
Links-rev_onto link p [] x zs h = (h.0, λ e. h.1 (sym h.0 ∙ e))
Links-rev_onto link p (y ∷ xs) x zs h = Links-rev_onto link p xs y (x ∷ zs) h

pub eq_zero_false : (n : ℕ) → n ≢ 0 → (n == 0) ≡ false
eq_zero_false n h = ground (arith, h)

first_back : (xs : List ℕ) (a : ℕ) → last a (rev_onto xs []) ≡ head_or a xs
first_back [] a = refl
first_back (x ∷ xs) a = last-rev_onto xs x [] a

pub target_right :
    (fuel : ℕ) (next prev : ℕ → ℕ) (direction : ℤ) (p : ℕ) (xs : List ℕ) (a : ℕ) (ys : List ℕ)
    → ltb_ℤ direction (pos 0) ≡ false
    → Chain next prev 0 p (xs ++ (a ∷ ys))
    → length xs < fuel
    → target fuel next prev direction a ≡ some (right_of xs a ys)
unfolding target
target_right fuel next prev direction p xs a [] d h f =
    let (back, ahead) = Chain-around next prev 0 p xs a [] [] h refl in
    let end : (next a == 0) ≡ true = ground (arith, ahead) in
    rw (d, end)
      (walk-last fuel prev a (rev_onto xs []) (omega (arith, length-rev_onto xs [])) back
        ∙ ap some (first_back xs a))
target_right fuel next prev direction p xs a (y ∷ ys) d h f =
    let (back, ahead) = Chain-around next prev 0 p xs a (y ∷ ys) [] h refl in
    let more : (next a == 0) ≡ false = eq_zero_false (next a) (λ e. ahead.1 (sym ahead.0 ∙ e)) in
    rw (d, more) (ap some ahead.0)

pub target_left :
    (fuel : ℕ) (next prev : ℕ → ℕ) (direction : ℤ) (p : ℕ) (xs : List ℕ) (a : ℕ) (ys : List ℕ)
    → ltb_ℤ direction (pos 0) ≡ true
    → Chain next prev 0 p (xs ++ (a ∷ ys))
    → length ys < fuel
    → target fuel next prev direction a ≡ some (left_of xs a ys)
unfolding target
target_left fuel next prev direction p [] a ys d h f =
    let (back, ahead) = Chain-around next prev 0 p [] a ys [] h refl in
    let end : (prev a == 0) ≡ true = ground (arith, back) in
    rw (d, end) (walk-last fuel next a ys f ahead)
target_left fuel next prev direction p (x ∷ xs) a ys d h f =
    let (back, ahead) = Chain-around next prev 0 p (x ∷ xs) a ys [] h refl in
    let (eq, ne) = Links-rev_onto prev (prev a) xs x [] back in
    rw (d, eq_zero_false (prev a) ne) (ap some eq)

-- Of these items just `a` is selected.
abbrev pub OnlySelected : (ℕ → ℕ) → ℕ → List ℕ → Type 0
OnlySelected selected a = All (λ c. selected c ≡ (if c == a then 1 else 0))

pub find_selected_lem :
    (fuel : ℕ) (next selected : ℕ → ℕ) (p : ℕ) (xs : List ℕ) (a : ℕ) (ys : List ℕ)
    → Links next p (xs ++ (a ∷ ys))
    → OnlySelected selected a (xs ++ (a ∷ ys))
    → length xs < fuel
    → find_selected fuel next selected p ≡ some a
unfolding find_selected
find_selected_lem zero next selected p xs a ys h o f = absurd (omega arith)
find_selected_lem (suc fuel) next selected p [] a ys h o f = ground (arith, h.0, h.1, o.0)
find_selected_lem (suc fuel) next selected p (x ∷ xs) a ys h o f =
    let ih = find_selected_lem fuel next selected (next x) xs a ys h.2 o.1 (omega arith) in
    rw h.0 (ground (arith, ih, h.1, o.0))
