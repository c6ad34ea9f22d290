-- ===== src/Common/Memory.antt =====
-- Memory as a function from addresses, and the loops that fill it.
use Prim.Native.Nat.{ℕ, zero, suc, ◌+◌, ◌*◌, ◌≤◌, ◌<◌}
use mathlib.Core.Path.{◌≡◌, refl, sym, ap, subst, ◌∙◌}
use mathlib.Core.Logic.{◌⊎◌, inl, inr}
use mathlib.Core.Bool.{false}
use native.Mathlib.Nat.{mul-le-mul_right}
use native.Mathlib.Omega.{arith}
use magic_lantern.Common.Tests.{◌==◌, if◌then◌else◌, Bool-cases}

-- The words `buf` to `buf + n` and the new ones do not meet.
abbrev pub AreApart : ℕ → ℕ → ℕ → Type 0
AreApart n buf new_buf = (buf + n ≤ new_buf) ⊎ (new_buf + n ≤ buf)

module _ {ℓ} {A : Type ℓ} where
  -- A write to one place.
  abbrev pub update : (ℕ → A) → ℕ → A → ℕ → A
  update f a v b = if b == a then v else f b

  -- `for( x=0 ; x<n ; x++ ) row[x] = cell(x);`
  unfoldable pub fill : ℕ → ℕ → (ℕ → A) → (ℕ → A) → ℕ → A
  fill zero row cell memory = memory
  fill (suc n) row cell memory = update (fill n row cell memory) (row + n) (cell n)

  -- `for( y=0 ; y<rows ; y++, row += pitch )` over such loops of `n` words; the cells may depend on the row.
  unfoldable pub fill_rows : ℕ → ℕ → ℕ → ℕ → (ℕ → ℕ → A) → (ℕ → A) → ℕ → A
  fill_rows zero pitch n row cell memory = memory
  fill_rows (suc y) pitch n row cell memory =
      fill n (row + y * pitch) (cell y) (fill_rows y pitch n row cell memory)

  pub fill_inside :
      (n row : ℕ) (cell memory : ℕ → A) (x : ℕ) → x < n → fill n row cell memory (row + x) ≡ cell x
  unfolding fill
  fill_inside zero row cell memory x h = absurd (omega arith)
  fill_inside (suc n) row cell memory x h = elim (Bool-cases (row + x == row + n)) [
    | inl e ↦ let last : x ≡ n = ground (arith, e) in rw e (ap cell (sym last))
    | inr e ↦ rw e (fill_inside n row cell memory x (ground (arith, e)))
  ]

  pub fill_outside :
      (n row : ℕ) (cell memory : ℕ → A) (a : ℕ)
      → (a < row) ⊎ (row + n ≤ a)
      → fill n row cell memory a ≡ memory a
  unfolding fill
  fill_outside zero row cell memory a h = refl
  fill_outside (suc n) row cell memory a h =
      let apart : (a == row + n) ≡ false = not_last n row a h in
      rw apart (fill_outside n row cell memory a (shorter n row a h))
    where
      not_last : (n row a : ℕ) → (a < row) ⊎ (row + suc n ≤ a) → (a == row + n) ≡ false
      not_last n row a (inl l) = ground arith
      not_last n row a (inr l) = ground arith

      shorter : (n row a : ℕ) → (a < row) ⊎ (row + suc n ≤ a) → (a < row) ⊎ (row + n ≤ a)
      shorter n row a (inl l) = inl l
      shorter n row a (inr l) = inr (omega arith)

  pub fill_rows_outside :
      (rows pitch n row : ℕ) (cell : ℕ → ℕ → A) (memory : ℕ → A) (a : ℕ)
      → ((y : ℕ) → y < rows → (a < row + y * pitch) ⊎ (row + y * pitch + n ≤ a))
      → fill_rows rows pitch n row cell memory a ≡ memory a
  unfolding fill_rows
  fill_rows_outside zero pitch n row cell memory a h = refl
  fill_rows_outside (suc y) pitch n row cell memory a h =
      fill_outside n (row + y * pitch) (cell y) (fill_rows y pitch n row cell memory) a
        (h y (omega arith))
      ∙ fill_rows_outside y pitch n row cell memory a (λ z l. h z (omega arith))

  pub fill_rows_inside :
      (rows pitch n row : ℕ) (cell : ℕ → ℕ → A) (memory : ℕ → A) (y x : ℕ)
      → y < rows
      → x < n
      → n ≤ pitch
      → fill_rows rows pitch n row cell memory (row + y * pitch + x) ≡ cell y x
  unfolding fill_rows
  fill_rows_inside zero pitch n row cell memory y x h k p = absurd (omega arith)
  fill_rows_inside (suc r) pitch n row cell memory y x h k p = elim (Bool-cases (y == r)) [
    | inl e ↦
        let last : y ≡ r = ground (arith, e) in
        subst
          (λ z.
            fill n (row + r * pitch) (cell r) (fill_rows r pitch n row cell memory)
              (row + z * pitch + x)
            ≡ cell z x)
          (sym last)
          (fill_inside n (row + r * pitch) (cell r) (fill_rows r pitch n row cell memory) x k)
    | inr e ↦
        let less : suc y ≤ r = ground (arith, e) in
        let above : suc y * pitch ≤ r * pitch = mul-le-mul_right pitch less in
        fill_outside n (row + r * pitch) (cell r) (fill_rows r pitch n row cell memory)
          (row + y * pitch + x) (inl (omega (arith, above)))
        ∙ fill_rows_inside r pitch n row cell memory y x less k p
  ]

  -- `for( i=0 ; i<n ; i++ ) new_buf[i] = buf[i];`, after `done` of the words.
  unfoldable pub copy_words : ℕ → ℕ → ℕ → (ℕ → A) → ℕ → A
  copy_words zero buf new_buf memory = memory
  copy_words (suc done) buf new_buf memory =
      let m = copy_words done buf new_buf memory in update m (new_buf + done) (m (buf + done))

  pub copy_words_outside :
      (n buf new_buf : ℕ) (memory : ℕ → A) (k : ℕ)
      → (k < new_buf) ⊎ (new_buf + n ≤ k)
      → copy_words n buf new_buf memory k ≡ memory k
  unfolding copy_words
  copy_words_outside zero buf new_buf memory k h = refl
  copy_words_outside (suc n) buf new_buf memory k (inl h) =
      let ih = copy_words_outside n buf new_buf memory k (inl h) in ground (arith, h, ih)
  copy_words_outside (suc n) buf new_buf memory k (inr h) =
      let ih = copy_words_outside n buf new_buf memory k (inr (omega (arith, h))) in
      ground (arith, h, ih)

  pub copy_words_inside :
      (n buf new_buf : ℕ) (memory : ℕ → A) (i : ℕ)
      → AreApart n buf new_buf
      → i < n
      → copy_words n buf new_buf memory (new_buf + i) ≡ memory (buf + i)
  unfolding copy_words
  copy_words_inside zero buf new_buf memory i apart h = absurd (omega (arith, h))
  copy_words_inside (suc n) buf new_buf memory i apart h = elim (Bool-cases (i == n)) [
    | inl e ↦
        last i n (ground (arith, e))
          (copy_words_outside n buf new_buf memory (buf + n) (beside apart))
    | inr e ↦
        let ih = copy_words_inside n buf new_buf memory i (fewer apart) (ground (arith, h, e)) in
        ground (arith, e, ih)
  ]
    where
      beside : AreApart (suc n) buf new_buf → (buf + n < new_buf) ⊎ (new_buf + n ≤ buf + n)
      beside (inl a) = inl (omega (arith, a))
      beside (inr a) = inr (omega (arith, a))

      fewer : AreApart (suc n) buf new_buf → AreApart n buf new_buf
      fewer (inl a) = inl (omega (arith, a))
      fewer (inr a) = inr (omega (arith, a))

      last :
          (i n : ℕ)
          → i ≡ n
          → copy_words n buf new_buf memory (buf + n) ≡ memory (buf + n)
          → update
              (copy_words n buf new_buf memory)
              (new_buf + n)
              (copy_words n buf new_buf memory (buf + n))
              (new_buf + i)
            ≡ memory (buf + i)
      last i n e m = ground (arith, e, m)
