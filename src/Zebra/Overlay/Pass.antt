-- ===== src/Zebra/Overlay/Pass.antt =====
-- What a pass of `draw_zebra` leaves on the screen.
use native.Mathlib.Nat.{mul-le-mul_right}
use magic_lantern.Common.{
  ℕ, zero, suc, ◌+◌, ◌-◌, ◌*◌, ◌/◌, ◌≤◌, ◌<◌, ◌≡◌, ◌≢◌, refl, sym, subst, ap, ◌∙◌, ◌⊎◌, inl, inr,
  true, false, Bool-cases, Option, none, some, arith, ltb, ◌==◌,
}
use magic_lantern.Zebra.Overlay.{
  Settings, Frame, Screen, shown, overlay_word, overlay_line, overlay_lines, draw_overlays,
  is_reserved,
}

-- What stands at a place after a word is shown there.
abbrev pub left_by : Option ℕ → ℕ → ℕ
left_by none v = v
left_by (some w) v = w

shown_at : (o : Option ℕ) (memory : ℕ → ℕ) (a : ℕ) → shown o memory a a ≡ left_by o (memory a)
shown_at none memory a = refl
shown_at (some w) memory a = ground arith

shown_elsewhere : (o : Option ℕ) (memory : ℕ → ℕ) (a b : ℕ) → b ≢ a → shown o memory a b ≡ memory b
shown_elsewhere none memory a b h = refl
shown_elsewhere (some w) memory a b h = ground (arith, h)

module _ (word : ℕ → Option ℕ) (b_row : ℕ) (s : Screen) where
  line_left : (n : ℕ) → (overlay_line n word b_row s).left ≡ s.left - n
  unfolding overlay_line
  line_left zero = omega arith
  line_left (suc n) = let ih = line_left n in ground (arith, ih)

  -- A round leaves all places but its own.
  line_round :
      (n a : ℕ)
      → a ≢ b_row + 1 + n
      → (overlay_line (suc n) word b_row s).memory a ≡ (overlay_line n word b_row s).memory a
  unfolding overlay_line
  line_round n a h = elim (Bool-cases ((overlay_line n word b_row s).left == 0)) [
    | inl e ↦ rw e refl
    | inr e ↦ rw e (shown_elsewhere (word (2 + n * 2)) _ (b_row + 1 + n) a h)
  ]

  line_own :
      (n : ℕ)
      → n < s.left
      → (overlay_line (suc n) word b_row s).memory (b_row + 1 + n)
        ≡ left_by (word (2 + n * 2)) ((overlay_line n word b_row s).memory (b_row + 1 + n))
  unfolding overlay_line
  line_own n h =
      let more : ((overlay_line n word b_row s).left == 0) ≡ false =
        ground (arith, h, line_left n) in
      rw more (shown_at (word (2 + n * 2)) _ (b_row + 1 + n))

  line_none :
      (n : ℕ)
      → word (2 + n * 2) ≡ none
      → (overlay_line (suc n) word b_row s).memory (b_row + 1 + n)
        ≡ (overlay_line n word b_row s).memory (b_row + 1 + n)
  unfolding overlay_line
  line_none n h = elim (Bool-cases ((overlay_line n word b_row s).left == 0)) [
    | inl e ↦ rw e refl
    | inr e ↦ rw (e, h) refl
  ]

  line_outside :
      (n a : ℕ)
      → (a < b_row + 1) ⊎ (b_row + 1 + n ≤ a)
      → (overlay_line n word b_row s).memory a ≡ s.memory a
  unfolding overlay_line
  line_outside zero a h = refl
  line_outside (suc n) a (inl h) = line_round n a (ground (arith, h)) ∙ line_outside n a (inl h)
  line_outside (suc n) a (inr h) =
      line_round n a (ground (arith, h)) ∙ line_outside n a (inr (omega (arith, h)))

  -- A place of the line, if the rounds last to the end of the line.
  line_inside :
      (n i : ℕ)
      → i < n
      → n ≤ s.left
      → (overlay_line n word b_row s).memory (b_row + 1 + i)
        ≡ left_by (word (2 + i * 2)) (s.memory (b_row + 1 + i))
  line_inside zero i h enough = absurd (omega (arith, h))
  line_inside (suc n) i h enough = elim (Bool-cases (i == n)) [
    | inl e ↦
        let last : n ≡ i = ground (arith, e) in
        let own = line_own n enough in
        subst
          (λ z.
            (overlay_line (suc n) word b_row s).memory (b_row + 1 + z)
            ≡ left_by (word (2 + z * 2)) (s.memory (b_row + 1 + z)))
          last
          (own
            ∙ ap (left_by (word (2 + n * 2))) (line_outside n (b_row + 1 + n) (inr (omega arith))))
    | inr e ↦
        line_round n (b_row + 1 + i) (ground (arith, e))
        ∙ line_inside n i (ground (arith, h, e)) (omega (arith, enough))
  ]

  -- A place with no word keeps its content, however many rounds there are.
  line_reserved :
      (n i : ℕ)
      → word (2 + i * 2) ≡ none
      → (overlay_line n word b_row s).memory (b_row + 1 + i) ≡ s.memory (b_row + 1 + i)
  unfolding overlay_line
  line_reserved zero i h = refl
  line_reserved (suc n) i h = elim (Bool-cases (i == n)) [
    | inl e ↦
        let last : i ≡ n = ground (arith, e) in
        let own = line_none n (subst (λ z. word (2 + z * 2) ≡ none) last h) in
        subst
          (λ z.
            (overlay_line (suc n) word b_row s).memory (b_row + 1 + z) ≡ s.memory (b_row + 1 + z))
          (sym last) (own ∙ line_outside n (b_row + 1 + n) (inr (omega arith)))
    | inr e ↦ line_round n (b_row + 1 + i) (ground (arith, e)) ∙ line_reserved n i h
  ]

module _ (word : ℕ → ℕ → Option ℕ) (n pitch base : ℕ) (s : Screen) (fits : 1 + n ≤ pitch) (i : ℕ)
    (in_line : i < n) where
  abbrev lines : ℕ → Screen
  lines done = overlay_lines done word n pitch base s

  abbrev place : ℕ → ℕ
  place j = base + (33 + j) * pitch + 1 + i

  -- A line of another number is not touched.
  lines_round :
      (j done : ℕ) → j ≢ done → (lines (suc done)).memory (place j) ≡ (lines done).memory (place j)
  unfolding overlay_lines
  lines_round j done h =
      line_outside (λ x. word x (33 + done)) (base + (33 + done) * pitch) (lines done) n (place j)
        (elim (Bool-cases (ltb j done)) [
          | inl e ↦
              let less : suc (33 + j) ≤ 33 + done = ground (arith, e) in
              let above : suc (33 + j) * pitch ≤ (33 + done) * pitch =
                mul-le-mul_right pitch less in
              inl (omega (arith, above, in_line, fits))
          | inr e ↦
              let more : suc (33 + done) ≤ 33 + j = ground (arith, e, h) in
              let above : suc (33 + done) * pitch ≤ (33 + j) * pitch =
                mul-le-mul_right pitch more in
              inr (omega (arith, above, fits))
        ])

  lines_before : (j done : ℕ) → done ≤ j → (lines done).memory (place j) ≡ s.memory (place j)
  unfolding overlay_lines
  lines_before j zero h = refl
  lines_before j (suc done) h =
      lines_round j done (ground (arith, h)) ∙ lines_before j done (omega (arith, h))

  lines_later : (j k : ℕ) → (lines (suc j + k)).memory (place j) ≡ (lines (suc j)).memory (place j)
  lines_later j zero =
      let here : suc j + 0 ≡ suc j = omega arith in ap (λ z. (lines z).memory (place j)) here
  lines_later j (suc k) =
      let next : suc j + suc k ≡ suc (suc j + k) = omega arith in
      ap (λ z. (lines z).memory (place j)) next
      ∙ lines_round j (suc j + k) (omega arith)
      ∙ lines_later j k

  lines_left : (done : ℕ) → (lines done).left ≡ s.left - done * n
  unfolding overlay_lines
  lines_left zero = omega arith
  lines_left (suc done) =
      let ih = lines_left done in
      line_left (λ x. word x (33 + done)) (base + (33 + done) * pitch) (lines done) n
      ∙ ap (λ z. z - n) ih
      ∙ omega arith

  lines_point :
      (j rows : ℕ)
      → j < rows
      → rows * n ≤ s.left
      → (lines rows).memory (place j) ≡ left_by (word (2 + i * 2) (33 + j)) (s.memory (place j))
  unfolding overlay_lines
  lines_point j rows h enough =
      let all : suc j + (rows - suc j) ≡ rows = omega (arith, h) in
      let some_left : suc j * n ≤ rows * n = mul-le-mul_right n h in
      let left = lines_left j in
      let round : n ≤ (lines j).left = ground (arith, left, some_left, enough) in
      subst
        (λ z. (lines z).memory (place j) ≡ left_by (word (2 + i * 2) (33 + j)) (s.memory (place j)))
        all
        (lines_later j (rows - suc j)
          ∙ line_inside (λ x. word x (33 + j)) (base + (33 + j) * pitch) (lines j) n i in_line round
          ∙ ap (left_by (word (2 + i * 2) (33 + j))) (lines_before j j (omega arith)))

  lines_reserved :
      (j rows : ℕ)
      → word (2 + i * 2) (33 + j) ≡ none
      → (lines rows).memory (place j) ≡ s.memory (place j)
  unfolding overlay_lines
  lines_reserved j zero h = refl
  lines_reserved j (suc rows) h = elim (Bool-cases (j == rows)) [
    | inl e ↦
        let last : j ≡ rows = ground (arith, e) in
        subst (λ z. (lines (suc z)).memory (place j) ≡ s.memory (place j)) last
          (line_reserved (λ x. word x (33 + j)) (base + (33 + j) * pitch) (lines j) n i h
            ∙ lines_before j j (omega arith))
    | inr e ↦ lines_round j rows (ground (arith, e)) ∙ lines_reserved j rows h
  ]

-- A pass with enough rounds, over a width that fits the lines of the bitmap: every place of the lines 33 to 389, from
-- the second on and as far as the width goes, holds the overlay word of its pair of pixels, and what it held before in
-- a region that is skipped. The overlay word is that of the first of the crop marks, the edges and the zebras that draws
-- there, which is the order of the code and not of its doc comment.
pub draw_overlays-overlay_word :
    (c : Settings) (f : Frame) (width pitch bvram : ℕ) (s : Screen) (i y : ℕ)
    → 1 + (width - 3) / 2 ≤ pitch
    → i < (width - 3) / 2
    → 33 ≤ y
    → y < 390
    → 357 * ((width - 3) / 2) ≤ s.left
    → (draw_overlays c f width pitch bvram s).memory (bvram + y * pitch + 1 + i)
      ≡ left_by (overlay_word c f (2 + i * 2) y) (s.memory (bvram + y * pitch + 1 + i))
unfolding draw_overlays
draw_overlays-overlay_word c f width pitch bvram s i y fits in_line low high enough =
    let line : 33 + (y - 33) ≡ y = omega (arith, low) in
    subst
      (λ z.
        (overlay_lines 357 (overlay_word c f) ((width - 3) / 2) pitch bvram s).memory
          (bvram + z * pitch + 1 + i)
        ≡ left_by (overlay_word c f (2 + i * 2) z) (s.memory (bvram + z * pitch + 1 + i)))
      line
      (lines_point (overlay_word c f) ((width - 3) / 2) pitch bvram s fits i in_line (y - 33) 357
        (omega (arith, high)) enough)

-- A place in the region of the histogram, the waveform or the timecode keeps its content, wherever the pass is broken
-- off.
pub draw_overlays-is_reserved :
    (c : Settings) (f : Frame) (width pitch bvram : ℕ) (s : Screen) (i y : ℕ)
    → 1 + (width - 3) / 2 ≤ pitch
    → i < (width - 3) / 2
    → 33 ≤ y
    → is_reserved c (2 + i * 2) y ≡ true
    → (draw_overlays c f width pitch bvram s).memory (bvram + y * pitch + 1 + i)
      ≡ s.memory (bvram + y * pitch + 1 + i)
unfolding draw_overlays overlay_word
draw_overlays-is_reserved c f width pitch bvram s i y fits in_line low reserved =
    let line : 33 + (y - 33) ≡ y = omega (arith, low) in
    let skipped : overlay_word c f (2 + i * 2) (33 + (y - 33)) ≡ none = rw (line, reserved) refl in
    subst
      (λ z.
        (overlay_lines 357 (overlay_word c f) ((width - 3) / 2) pitch bvram s).memory
          (bvram + z * pitch + 1 + i)
        ≡ s.memory (bvram + z * pitch + 1 + i))
      line
      (lines_reserved (overlay_word c f) ((width - 3) / 2) pitch bvram s fits i in_line (y - 33) 357
        skipped)
