-- ===== src/Bitmap/Hexdump.antt =====
-- `bmp_hexdump` of bmp.c, as the lines that it prints.
use magic_lantern.Common.{
  ℕ, zero, suc, ◌+◌, ◌-◌, ◌*◌, ◌/◌, ◌^◌, ◌≤◌, ◌<◌, ◌≡◌, refl, sym, ap, ◌∙◌, true, false, Option,
  none, some, List, [], ◌∷◌, arith, ltb, ◌==◌, if◌then◌else◌,
}
use mathlib.Core.Option
use magic_lantern.Common.Word.{u32}

-- A line: its place on the display, the address `d`, and the four words; the memory is a function from addresses.
pub record HexLine : Type 0 where
  pub y : ℕ
  pub address : ℕ
  pub words : List ℕ

unfoldable pub hex_line : (ℕ → ℕ) → ℕ → ℕ → ℕ → HexLine
hex_line memory y d len = record {
  y = y;
  address = d;
  words =
      (if ltb 0 len then memory d else 0)
      ∷ (if ltb 4 len then memory (d + 4) else 0)
      ∷ (if ltb 8 len then memory (d + 8) else 0)
      ∷ (if ltb 12 len then memory (d + 12) else 0)
      ∷ [];
}

-- The loop; `height` is that of the font. `none`: the fuel ran out.
unfoldable pub hex_lines : ℕ → (ℕ → ℕ) → ℕ → ℕ → ℕ → ℕ → Option (List HexLine)
unfolding hex_line
hex_lines zero memory height y d len = none
hex_lines (suc fuel) memory height y d len =
    let left = u32 (len + 2 ^ 32 - 16) in
    let rest = hex_lines fuel memory height (y + height) (d + 16) left in
    let more = Option.map (λ l. hex_line memory y d len ∷ l) rest in
    if left == 0 then some (hex_line memory y d len ∷ []) else more

unfoldable pub bmp_hexdump : ℕ → (ℕ → ℕ) → ℕ → ℕ → ℕ → ℕ → Option (List HexLine)
unfolding hex_lines
bmp_hexdump fuel memory height y buf len =
    if len == 0 then some [] else hex_lines fuel memory height y buf (u32 (len + 15) / 16 * 16)

-- The lines that are meant: `n` of them, from the `k`-th on, each with four words.
unfoldable pub dump_from : (ℕ → ℕ) → ℕ → ℕ → ℕ → ℕ → ℕ → List HexLine
dump_from memory height y buf k zero = []
dump_from memory height y buf k (suc n) =
    let d = buf + k * 16 in
    record {
      y = y + k * height;
      address = d;
      words = memory d ∷ memory (d + 4) ∷ memory (d + 8) ∷ memory (d + 12) ∷ [];
    }
    ∷ dump_from memory height y buf (suc k) n

hex_lines-dump_from :
    (fuel : ℕ) (memory : ℕ → ℕ) (height y buf k n : ℕ)
    → n < fuel
    → suc n * 16 < 2 ^ 32
    → hex_lines fuel memory height (y + k * height) (buf + k * 16) (suc n * 16)
      ≡ some (dump_from memory height y buf k (suc n))
unfolding hex_lines hex_line dump_from
hex_lines-dump_from zero memory height y buf k n h small = absurd (omega (arith, h))
hex_lines-dump_from (suc fuel) memory height y buf k zero h small = refl
hex_lines-dump_from (suc fuel) memory height y buf k (suc n) h small =
    let left : u32 (suc (suc n) * 16 + 2 ^ 32 - 16) ≡ suc n * 16 = omega (arith, small) in
    let more : (suc n * 16 == 0) ≡ false = ground arith in
    let line : y + k * height + height ≡ y + suc k * height = omega arith in
    let next : buf + k * 16 + 16 ≡ buf + suc k * 16 = omega arith in
    let ih =
      hex_lines-dump_from fuel memory height y buf (suc k) n (omega (arith, h))
        (omega (arith, small)) in
    let w0 : ltb 0 (suc (suc n) * 16) ≡ true = ground arith in
    let w1 : ltb 4 (suc (suc n) * 16) ≡ true = ground arith in
    let w2 : ltb 8 (suc (suc n) * 16) ≡ true = ground arith in
    let w3 : ltb 12 (suc (suc n) * 16) ≡ true = ground arith in
    rw (left, more, line, next, w0, w1, w2, w3, ih) refl

-- A dump of at most 2 ^ 32 - 16 bytes ends: with fuel for its lines it prints (len + 15) / 16 of them, each below the one
-- before, which show the words from `buf` on in their order, the last line to its end.
pub bmp_hexdump-dump_from :
    (fuel : ℕ) (memory : ℕ → ℕ) (height y buf len : ℕ)
    → (len + 15) / 16 ≤ fuel
    → len + 16 ≤ 2 ^ 32
    → bmp_hexdump fuel memory height y buf len
      ≡ some (dump_from memory height y buf 0 ((len + 15) / 16))
unfolding bmp_hexdump dump_from
bmp_hexdump-dump_from fuel memory height y buf zero h small = refl
bmp_hexdump-dump_from fuel memory height y buf (suc m) h small =
    let n = m / 16 in
    let lines : (suc m + 15) / 16 ≡ suc n = omega arith in
    let bytes : u32 (suc m + 15) / 16 * 16 ≡ suc n * 16 = omega (arith, small) in
    let y0 : y ≡ y + 0 * height = omega arith in
    let d0 : buf ≡ buf + 0 * 16 = omega arith in
    let live : (suc m == 0) ≡ false = ground arith in
    rw live (
      ap (hex_lines fuel memory height y buf) bytes
      ∙ ap (λ z. hex_lines fuel memory height z buf (suc n * 16)) y0
      ∙ ap (λ z. hex_lines fuel memory height (y + 0 * height) z (suc n * 16)) d0
      ∙ hex_lines-dump_from fuel memory height y buf 0 n (omega (arith, h)) (omega (arith, small))
      ∙ ap (λ k. some (dump_from memory height y buf 0 k)) (sym lines))
