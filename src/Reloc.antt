-- ===== src/Reloc.antt =====
-- reloc.c, as built for the camera: a function of the firmware is copied to a new place, and its branches and
-- loads relative to the program counter are adapted. Masks and shifts of the source are quotients and
-- remainders by powers of two here. Memory is a function from the addresses of words.
pub mod Branch
pub mod Frame
mod Tests
use magic_lantern.Common.{
  ℕ, zero, suc, ◌+◌, ◌-◌, ◌*◌, ◌/◌, ◌%◌, ◌^◌, ◌≤◌, ◌<◌, Bool, true, false, not, ◌&&◌, ◌||◌, Option,
  none, some, ltb, leb, ◌==◌, if◌then◌else◌,
}
use mathlib.Core.Option
use magic_lantern.Common.Int.{ℤ, pos, negsuc, ltb_ℤ, leb_ℤ}
use magic_lantern.Common.Word.{u32, of_int, to_int}

-- The bounds of the function, and `mem`, where the firmware is read.
pub record Function : Type 0 where
  pub func_offset : ℕ
  pub func_end : ℕ
  pub mem : ℕ

abbrev pub is_inside : Function → ℕ → Bool
is_inside f dest = leb f.func_offset dest && ltb dest f.func_end

-- `branch == BRANCH_LINK || branch == BRANCH_INSTR`
abbrev pub is_branch : ℕ → Bool
is_branch instr = (instr / 2 ^ 24 % 16 == 11) || (instr / 2 ^ 24 % 16 == 10)

-- `(instr & ADD_MASK) == ADD_INSTR`: bits 21 to 24, 26 and 27.
abbrev pub is_add : ℕ → Bool
is_add instr = (instr / 2 ^ 26 % 4 == 0) && (instr / 2 ^ 21 % 16 == 4)

-- `load == LOAD_INSTR`
abbrev pub is_load : ℕ → Bool
is_load instr = instr / 2 ^ 26 % 4 == 1

-- The offset of a branch has 24 bits and a sign.
abbrev pub branch_dest : ℕ → ℕ → ℕ
branch_dest pc instr =
    let offset = instr % 2 ^ 24 in
    let offset = if ltb offset 0x00800000 then offset else offset + 0xFF000000 in
    u32 (pc + u32 (offset * 4) + 8)

-- `new_jump >>= 2` on an `int32_t` rounds down.
abbrev pub shift_right_2 : ℤ → ℤ
shift_right_2 (pos n) = pos (n / 4)
shift_right_2 (negsuc n) = negsuc (n / 4)

abbrev pub new_jump : ℕ → ℕ → ℤ
new_jump dest new_pc = shift_right_2 (to_int (u32 (dest + 2 ^ 32 - new_pc + (2 ^ 32 - 8))))

-- The branch for the new place, or `none` if it is copied as it is.
unfoldable pub fix_branch : Function → ℕ → ℕ → ℕ → Option ℕ
fix_branch f pc new_pc instr =
    let dest = branch_dest pc instr in
    let jump = new_jump dest new_pc in
    if is_inside f dest
    then none
    else if leb_ℤ (pos 0x00800000) jump || leb_ℤ jump (negsuc 0x007FFFFF)
    then none
    else some (instr / 2 ^ 24 * 2 ^ 24 + of_int jump % 2 ^ 24)

-- `*(uint32_t*) a = v;`
abbrev pub store : (ℕ → ℕ) → ℕ → ℕ → ℕ → ℕ
store memory a v b = if b == a then v else memory b

-- Where a load relative to the program counter reads.
abbrev pub load_dest : ℕ → ℕ → ℕ
load_dest pc instr =
    let offset = instr % 2 ^ 12 in
    if instr / 2 ^ 23 % 2 == 0 then u32 (pc + (2 ^ 32 - offset) + 8) else u32 (pc + offset + 8)

-- The load at the new place, of a datum at `fixups`.
abbrev pub fix_load : ℕ → ℕ → ℕ → ℕ
fix_load fixups new_pc instr =
    let new_offset = u32 (fixups + 2 ^ 32 - new_pc + (2 ^ 32 - 8)) in
    if ltb new_offset (2 ^ 31)
    then instr / 2 ^ 12 * 2 ^ 12 + new_offset % 2 ^ 12
    else instr / 2 ^ 24 * 2 ^ 24 + instr / 2 ^ 12 % 2 ^ 11 * 2 ^ 12 + (2 ^ 32 - new_offset) % 2 ^ 12

-- The memory, with the place of the next datum.
pub record Copy : Type 0 where
  pub memory : ℕ → ℕ
  pub fixups : ℕ

-- One round of the loop. An `add` is copied, whatever it adds to.
unfoldable pub reloc_one : Function → ℕ → ℕ → Copy → Copy
unfolding fix_branch
reloc_one f pc new_pc s =
    let instr = s.memory (u32 (f.mem + pc)) in
    let copied = record s { memory = store s.memory new_pc instr } in
    let dest = load_dest pc instr in
    if is_branch instr
    then (elim (fix_branch f pc new_pc instr) [
      | none ↦ copied
      | some new_instr ↦ record copied { memory = store copied.memory new_pc new_instr }
    ])
    else if is_add instr
    then copied
    else if not (is_load instr)
    then copied
    else if not (instr / 2 ^ 16 % 16 == 15)
    then copied
    else if is_inside f dest
    then copied
    else record {
      memory =
          store (store copied.memory s.fixups (copied.memory (u32 (f.mem + dest)))) new_pc
            (fix_load s.fixups new_pc instr);
      fixups = u32 (s.fixups + 4);
    }

-- The loop over `pc`; `none` if the fuel ran out.
unfoldable pub reloc_loop : ℕ → Function → ℕ → ℕ → Copy → Option Copy
reloc_loop zero f pc new_pc s = none
reloc_loop (suc n) f pc new_pc s =
    if ltb f.func_end pc
    then some s
    else reloc_loop n f (u32 (pc + 4)) (u32 (new_pc + 4)) (reloc_one f pc new_pc s)

-- `reloc`: the memory, and the entry. There is fuel for a round for each `pc<=func_end` and the last test, which is enough
-- unless `pc` wraps round to 0; then the code does not end in these rounds, and mostly not at all.
unfoldable pub reloc : Function → ℕ → (ℕ → ℕ) → Option ((ℕ → ℕ) × ℕ)
reloc f new_pc memory =
    let fuel = (f.func_end + 4 - f.func_offset) / 4 + 1 in
    let entry = u32 (new_pc + 16) in
    Option.map (λ s. (s.memory, entry))
      (reloc_loop fuel f f.func_offset entry (record { memory = memory; fixups = new_pc }))
