-- ===== src/Init/Restart.antt =====
-- `copy_and_restart` of init.c, up to the jump into the copy. The memory is seen by words: `memory (a / 4)` is the word at
-- the address `a`. The addresses that the linker and the firmware's symbols give are arguments.
pub mod Image
use magic_lantern.Common.{ℕ, ◌+◌, ◌-◌, ◌*◌, ◌/◌, ◌%◌, ◌^◌}
use magic_lantern.Common.Memory.{update, fill, copy_words}
use magic_lantern.Common.Word.{u32}

pub record Symbols : Type 0 where
  pub bss_start : ℕ
  pub bss_end : ℕ
  -- `RELOCADDR`
  pub reloc_addr : ℕ
  pub bzero32 : ℕ
  pub create_init_task : ℕ
  pub init_task_addr : ℕ

abbrev pub rom_base_addr : ℕ
rom_base_addr = 0xFF810000

abbrev pub reloc_size : ℕ
reloc_size = 0x10000

abbrev pub ret_instr : ℕ
ret_instr = 0xe12fff1e

unfoldable pub bl_instr : ℕ → ℕ → ℕ
bl_instr pc dest = 0xEB000000 + u32 (dest + 2 ^ 32 - pc + (2 ^ 32 - 8)) / 4 % 2 ^ 24

-- `&INSTR( addr )`
abbrev pub instr_address : Symbols → ℕ → ℕ
instr_address s addr = addr - rom_base_addr + s.reloc_addr

-- `INSTR( addr ) = value;`
abbrev pub set_instr : Symbols → ℕ → ℕ → (ℕ → ℕ) → ℕ → ℕ
set_instr s addr value memory = update memory (instr_address s addr / 4) value

abbrev pub fixup_branch : Symbols → ℕ → ℕ → (ℕ → ℕ) → ℕ → ℕ
fixup_branch s rom_addr dest_addr memory =
    set_instr s rom_addr (bl_instr (instr_address s rom_addr) dest_addr) memory

unfoldable pub zero_bss : Symbols → (ℕ → ℕ) → ℕ → ℕ
zero_bss s memory = fill ((s.bss_end - s.bss_start + 3) / 4) (s.bss_start / 4) (λ i. 0) memory

-- `blob_memcpy` of arm-mcr.h.
unfoldable pub blob_memcpy : ℕ → ℕ → ℕ → (ℕ → ℕ) → ℕ → ℕ
blob_memcpy dest src end memory = copy_words ((end - src) / 4) (src / 4) (dest / 4) memory

-- The patches, the last one first.
unfoldable pub patch_image : Symbols → (ℕ → ℕ) → ℕ → ℕ
patch_image s memory = set_instr s 0xFF810948 s.init_task_addr (
    fixup_branch s 0xFF81092C s.create_init_task (
      fixup_branch s 0xFF8108A4 s.bzero32
        (set_instr s 0xFF81093C s.bss_end (set_instr s 0xFF812AE8 ret_instr memory))))

unfoldable pub copy_and_restart : Symbols → (ℕ → ℕ) → ℕ → ℕ
unfolding zero_bss blob_memcpy patch_image
copy_and_restart s memory =
    patch_image s
      (blob_memcpy s.reloc_addr rom_base_addr (rom_base_addr + reloc_size) (zero_bss s memory))
