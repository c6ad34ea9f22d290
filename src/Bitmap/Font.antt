-- ===== src/Bitmap/Font.antt =====
-- The lookup of a character of bmp.c, by its fast way and its slow one.
use magic_lantern.Common.{
  ℕ, zero, suc, ◌+◌, ◌-◌, ◌/◌, ◌^◌, ◌≤◌, ◌<◌, ◌≡◌, ◌≢◌, refl, ap, ◌∙◌, true, false, Bool-cases, inl,
  inr, ◌&&◌, none, some, arith, ltb, leb, ◌==◌, if◌then◌else◌,
}
use magic_lantern.Bitmap.{CanonFont, charmap, offsets, search_char, canon_char_lookup}

search_char_found :
    (left : ℕ) (font : CanonFont) (c i j : ℕ)
    → i ≤ j
    → j < i + left
    → charmap font j ≡ c
    → ((k : ℕ) → k < j → charmap font k ≢ c)
    → search_char left font c i ≡ offsets font j
unfolding search_char
search_char_found zero font c i j h k e first = absurd (omega arith)
search_char_found (suc left) font c i j h k e first = elim (Bool-cases (charmap font i == c)) [
  | inl m ↦
      let here : charmap font i ≡ c = ground (arith, m) in
      let at : i ≡ j = elim (Bool-cases (ltb i j)) [
        | inl l ↦ absurd (first i (ground (arith, l)) here)
        | inr l ↦ ground (arith, l, h)
      ] in
      rw m (ap (offsets font) at)
  | inr m ↦
      let apart : i ≢ j = λ q. charmap_ne (ap (charmap font) q ∙ e) m in
      rw m
        (search_char_found left font c (i + 1) j (ground (arith, apart, h)) (omega arith) e first)
]
  where
    charmap_ne : charmap font i ≡ c → (charmap font i == c) ≡ false → ⊥
    charmap_ne q m = ground (arith, q, m)

search_char_missing :
    (left : ℕ) (font : CanonFont) (c i : ℕ)
    → ((k : ℕ) → k < i + left → charmap font k ≢ c)
    → search_char left font c i ≡ 2 ^ 32 - 1
unfolding search_char
search_char_missing zero font c i h = refl
search_char_missing (suc left) font c i h =
    let other : (charmap font i == c) ≡ false = let ne = h i (omega arith) in ground (arith, ne) in
    rw other (search_char_missing left font c (i + 1) (λ k l. h k (omega arith)))

module _ (font : CanonFont) (c : ℕ) (magic : font.magic ≡ 0x544E46)
    (ascii : 0x60 ≤ font.charmap_size / 4) where
  -- In a font of the right magic with at least 96 characters, a character that stands once in its map is found at
  -- its offset, by the fast way or by the slow one, and NULL is returned if the offset is beyond the bitmaps of the
  -- font.
  canon_char_lookup_lem :
      (j : ℕ)
      → j < font.charmap_size / 4
      → charmap font j ≡ c
      → ((k : ℕ) → k < font.charmap_size / 4 → charmap font k ≡ c → k ≡ j)
      → canon_char_lookup font c
        ≡ (if ltb font.bitmap_size (offsets font j) then none else some (offsets font j))
  unfolding canon_char_lookup
  canon_char_lookup_lem j h e once =
      let right : (font.magic == 0x544E46) ≡ true = ground (arith, magic) in
      let slow =
        search_char_found (font.charmap_size / 4) font c 0 j (omega arith) (omega arith) e
          (λ k l q. absurd (ground (arith, l, once k (omega (arith, l, h)) q))) in
      elim (Bool-cases (leb 0x20 c && leb c 0x7F && (charmap font (c - 0x20) == c))) [
        | inl f ↦
            let at : c - 0x20 ≡ j =
              once (c - 0x20) (ground (arith, f, ascii)) (ground (arith, f)) in
            rw (right, f, at) refl
        | inr f ↦ rw (right, f, slow) refl
      ]

  pub canon_char_lookup_missing :
      font.bitmap_size < 2 ^ 32 - 1
      → ((k : ℕ) → k < font.charmap_size / 4 → charmap font k ≢ c)
      → canon_char_lookup font c ≡ none
  unfolding canon_char_lookup
  canon_char_lookup_missing size h =
      let right : (font.magic == 0x544E46) ≡ true = ground (arith, magic) in
      let slow =
        search_char_missing (font.charmap_size / 4) font c 0 (λ k l. h k (omega (arith, l))) in
      let beyond : ltb font.bitmap_size (2 ^ 32 - 1) ≡ true = ground (arith, size) in
      elim (Bool-cases (leb 0x20 c && leb c 0x7F && (charmap font (c - 0x20) == c))) [
        | inl f ↦ absurd (h (c - 0x20) (ground (arith, f, ascii)) (ground (arith, f)))
        | inr f ↦ rw (right, f, slow, beyond) refl
      ]
