-- ===== src/Bitmap/Layout.antt =====
-- Where the text of `bmp_puts` is drawn.
use magic_lantern.Common.{
  ℕ, ◌+◌, ◌*◌, ◌%◌, ◌≡◌, ◌≢◌, refl, ap, ◌∙◌, false, ◌||◌, Option, List, [], ◌∷◌, arith, ◌==◌, map,
}
use magic_lantern.Bitmap.{
  Cursor, Item, newline, missing, glyph, item_of, moved_on, drawn_at, put_chars, bmp_puts,
}

-- The layout on the page, with no memory: where each character that the font has stands, and the end.
abbrev pub point_after : ℕ → ℕ → Item → ℕ × ℕ → ℕ × ℕ
point_after space_height initial_x newline (x, y) = (initial_x, y + space_height)
point_after space_height initial_x missing (x, y) = (x, y)
point_after space_height initial_x (glyph w) (x, y) = (x + w, y)

abbrev pub shown_at : Item → ℕ × ℕ → ℕ → List (ℕ × ℕ × ℕ) → List (ℕ × ℕ × ℕ)
shown_at newline at c more = more
shown_at missing at c more = more
shown_at (glyph w) (x, y) c more = (x, y, c) ∷ more

unfoldable pub layout : (ℕ → Option ℕ) → ℕ → ℕ → ℕ × ℕ → List ℕ → (ℕ × ℕ) × List (ℕ × ℕ × ℕ)
layout width_of space_height initial_x at [] = (at, [])
layout width_of space_height initial_x at (c ∷ s) =
    let (end, more) =
      layout width_of space_height initial_x
        (point_after space_height initial_x (item_of width_of c) at) s in
    (end, shown_at (item_of width_of c) at c more)

-- The place of a point of the page.
abbrev pub placed : ℕ → ℕ → ℕ × ℕ × ℕ → ℕ × ℕ
placed vram pitch (x, y, c) = (vram + y * pitch + x, c)

-- The pointers of the cursor stand where its coordinates say.
record IsPlaced (vram pitch initial_x : ℕ) (k : Cursor) : Type 0 where
  row : k.row ≡ vram + k.y * pitch + k.x
  first_row : k.first_row ≡ vram + k.y * pitch + initial_x

moved_on-IsPlaced :
    (vram pitch initial_x h : ℕ) (i : Item) (k : Cursor)
    → IsPlaced vram pitch initial_x k
    → IsPlaced vram pitch initial_x (moved_on h pitch initial_x i k)
moved_on-IsPlaced vram pitch initial_x h newline k p = record {
  row = omega (arith, p.first_row);
  first_row = omega (arith, p.first_row);
}
moved_on-IsPlaced vram pitch initial_x h missing k p = p
moved_on-IsPlaced vram pitch initial_x h (glyph w) k p = record {
  row = omega (arith, p.row);
  first_row = p.first_row;
}

moved_on-point_after :
    (pitch initial_x h : ℕ) (i : Item) (k : Cursor)
    → ((moved_on h pitch initial_x i k).x, (moved_on h pitch initial_x i k).y)
      ≡ point_after h initial_x i (k.x, k.y)
moved_on-point_after pitch initial_x h newline k = refl
moved_on-point_after pitch initial_x h missing k = refl
moved_on-point_after pitch initial_x h (glyph w) k = refl

drawn_at-shown_at :
    (vram pitch : ℕ) (i : Item) (x y row c : ℕ) (more : List (ℕ × ℕ × ℕ))
    → row ≡ vram + y * pitch + x
    → drawn_at i row c (map (placed vram pitch) more)
      ≡ map (placed vram pitch) (shown_at i (x, y) c more)
drawn_at-shown_at vram pitch newline x y row c more h = refl
drawn_at-shown_at vram pitch missing x y row c more h = refl
drawn_at-shown_at vram pitch (glyph w) x y row c more h =
    ap (λ r. (r, c) ∷ map (placed vram pitch) more) h

put_chars-layout :
    (width_of : ℕ → Option ℕ) (h vram pitch initial_x : ℕ) (s : List ℕ) (k : Cursor)
    → IsPlaced vram pitch initial_x k
    → let (end, glyphs) = put_chars width_of h pitch initial_x s k in
      let (last, page) = layout width_of h initial_x (k.x, k.y) s in
      ((end.x, end.y) ≡ last) × (glyphs ≡ map (placed vram pitch) page)
unfolding put_chars layout
put_chars-layout width_of h vram pitch initial_x [] k p = (refl, refl)
put_chars-layout width_of h vram pitch initial_x (c ∷ s) k p =
    let i = item_of width_of c in
    let ih =
      put_chars-layout width_of h vram pitch initial_x s (moved_on h pitch initial_x i k)
        (moved_on-IsPlaced vram pitch initial_x h i k p) in
    let at = moved_on-point_after pitch initial_x h i k in
    (
      ih.0 ∙ ap (λ q. (layout width_of h initial_x q s).0) at,
      ap (drawn_at i k.row c)
            (ih.1 ∙ ap (λ q. map (placed vram pitch) (layout width_of h initial_x q s).1) at)
          ∙ drawn_at-shown_at vram pitch i k.x k.y k.row c _ p.row,
    )

-- On a display with an even address, the text is drawn where the layout puts it, and the coordinates end where
-- it ends.
pub bmp_puts-layout :
    (width_of : ℕ → Option ℕ) (space_height vram pitch x y : ℕ) (s : List ℕ)
    → vram ≢ 0
    → vram % 2 ≡ 0
    → let (last, page) = layout width_of space_height x (x, y) s in
      bmp_puts width_of space_height vram pitch x y s ≡ (last, map (placed vram pitch) page)
unfolding bmp_puts
bmp_puts-layout width_of space_height vram pitch x y s nz even =
    let row = vram + y * pitch + x in
    let drawn =
      put_chars-layout width_of space_height vram pitch x s
        (record { first_row = row; row = row; x = x; y = y })
        (record { row = refl; first_row = refl }) in
    let there : ((vram == 0) || (vram % 2 == 1)) ≡ false = ground (arith, nz, even) in
    rw there (λ i. (drawn.0 i, drawn.1 i))
