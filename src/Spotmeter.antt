-- ===== src/Spotmeter.antt =====
-- One measurement of the spot meter (spotmeter.c). The frame buffer is read by pixels, as they are in `vram->vram`.
pub mod Mean
mod Tests
use magic_lantern.Common.{
  ℕ, zero, suc, ◌+◌, ◌-◌, ◌*◌, ◌/◌, ◌%◌, ◌^◌, Option, none, some, List, [], ◌∷◌, ◌==◌,
  if◌then◌else◌,
}
use magic_lantern.Common.Word.{u32}
use magic_lantern.Bitmap.{Display, bmp_fill}

pub record VramInfo : Type 0 where
  pub vram : ℕ → ℕ
  pub width : ℕ
  pub pitch : ℕ
  pub height : ℕ

-- `sum += ...` and the index are `unsigned`. The loop over `x`, after `done` rounds, from the place `at` on.
unfoldable pub sum_line : ℕ → ℕ → (ℕ → ℕ) → ℕ → ℕ
sum_line zero at vram sum = sum
sum_line (suc done) at vram sum = u32 (sum_line done at vram sum + vram (u32 (at + done)))

-- The loop over `y`, each line with `n` pixels.
unfoldable pub sum_lines : ℕ → ℕ → ℕ → ℕ → (ℕ → ℕ) → ℕ
unfolding sum_line
sum_lines zero n pitch at vram = 0
sum_lines (suc done) n pitch at vram =
    sum_line n (at + done * pitch) vram (sum_lines done n pitch at vram)

-- `a/2 - dx` and `a/2 + dx` of `unsigned` numbers.
abbrev pub from_middle : ℕ → ℕ → ℕ
from_middle a dx = u32 (a / 2 + 2 ^ 32 - dx)

abbrev pub to_middle : ℕ → ℕ → ℕ
to_middle a dx = u32 (a / 2 + dx)

-- The two bars above and below the square.
unfoldable pub draw_bars : Display → VramInfo → ℕ → (ℕ → ℕ) → ℕ → ℕ
draw_bars d v dx memory =
    let x = from_middle v.width dx in
    let above = bmp_fill d 0xA x (from_middle v.height dx) (u32 (2 * dx + 1)) 4 memory in
    bmp_fill d 0xA x (to_middle v.height dx) (u32 (2 * dx + 1)) 4 above

-- The rounds of `for( y = first ; y <= last ; y++ )`: none if `first` has wrapped round. `last` is below 2 ^ 32 - 1.
abbrev pub rounds_of : ℕ → ℕ → ℕ
rounds_of first last = last + 1 - first

-- `scaled`
unfoldable pub spotmeter_measure : VramInfo → ℕ → ℕ
unfolding sum_lines
spotmeter_measure v dx =
    let x = from_middle v.width dx in
    let y = from_middle v.height dx in
    let sum =
      sum_lines (rounds_of y (to_middle v.height dx)) (rounds_of x (to_middle v.width dx)) v.pitch
        (x + y * v.pitch) v.vram in
    let sum = sum / u32 ((2 * dx + 1) * (2 * dx + 1)) in u32 (100 * sum) / 65536

-- What a round of the task does: its waits, and what it prints.
pub data Call : Type 0 where
  msleep : ℕ → Call
  bmp_printf : ℕ → ℕ → ℕ → Call

-- One round: nothing is measured without the setting, or without a frame (`none` is NULL).
unfoldable pub spotmeter_round : ℕ → ℕ → Option VramInfo → Display → (ℕ → ℕ) → (ℕ → ℕ) × List Call
unfolding draw_bars spotmeter_measure
spotmeter_round spotmeter_draw dx vram d memory =
    if spotmeter_draw == 0 then (memory, msleep 1000 ∷ []) else (elim vram [
      | none ↦ (memory, msleep 100 ∷ [])
      | some v ↦
          (draw_bars d v dx memory, msleep 100 ∷ bmp_printf 300 400 (spotmeter_measure v dx) ∷ [])
    ])
