-- ===== src/Reloc/Tests.antt =====
-- A branch and a load, copied from 0x1000 to 0x9000.
use magic_lantern.Common.{
  ℕ, ◌/◌, ◌+◌, ◌^◌, ◌≡◌, refl, Option, none, some, ◌⊎◌, ◌<◌, ◌≤◌, arith, ◌==◌, if◌then◌else◌,
}
use magic_lantern.Reloc.{Function, branch_dest, fix_branch, reloc, reloc_loop, reloc_one}
use magic_lantern.Reloc.Branch.{fix_branch-branch_dest}
use magic_lantern.Reloc.Frame.{reloc-keeps}

abbrev function : Function
function = record { func_offset = 0x1000; func_end = 0x1004; mem = 0 }

-- `bl 0x4008`, and a load of the word at 0x2000.
abbrev code_at : ℕ → ℕ
code_at a =
    if a == 0x1000
    then 0xEB000C00
    else if a == 0x1004
    then 0xE59F0000 + 0xFF4
    else if a == 0x2000
    then 7
    else 0

fix_branch_bl : fix_branch function 0x1000 0x9010 0xEB000C00 ≡ some 0xEBFFEBFC
unfolding fix_branch
fix_branch_bl = refl

abbrev word_of : ℕ → Option ((ℕ → ℕ) × ℕ) → ℕ
word_of a none = 0
word_of a (some (memory, entry)) = memory a

-- The datum of the load goes to the fixups.
reloc_fixups : word_of 0x9000 (reloc function 0x9000 code_at) ≡ 7
unfolding reloc reloc_loop reloc_one
reloc_fixups = refl

reloc_copied : word_of 0x9010 (reloc function 0x9000 code_at) ≡ 0xEBFFEBFC
unfolding reloc reloc_loop reloc_one
reloc_copied = refl

fix_branch-branch_dest_example :
    (branch_dest 0x9010 0xEBFFEBFC ≡ branch_dest 0x1000 0xEB000C00)
    × (0xEBFFEBFC / 2 ^ 24 ≡ 0xEB000C00 / 2 ^ 24)
fix_branch-branch_dest_example =
    fix_branch-branch_dest function 0x1000 0x9010 0xEB000C00 0xEBFFEBFC refl refl (omega arith)
      fix_branch_bl

reloc-keeps_example :
    (copied : ℕ → ℕ) × (reloc function 0x9000 code_at ≡ some (copied, 0x9010))
    × ((a : ℕ) → (a < 0x9000) ⊎ (0x9018 ≤ a) → copied a ≡ code_at a)
reloc-keeps_example = reloc-keeps function 0x9000 code_at (omega arith) (omega arith) (omega arith)
