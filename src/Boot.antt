-- ===== src/Boot.antt =====
-- bootflags.c: the toggles of the boot menu, as the calls they make, and the boot block of the card.
pub mod Block
mod Tests
use magic_lantern.Common.{ℕ, ◌+◌, Bool, true, false, List, [], ◌∷◌, length, ◌==◌, if◌then◌else◌}
use magic_lantern.Common.Memory.{update}

pub data Call : Type 0 where
  enable_boot_disk : Call
  disable_boot_disk : Call
  prohibit_auto_poweroff : Call
  allow_auto_poweroff : Call

unfoldable pub bootflag_toggle : ℕ → Call
bootflag_toggle bootdisk = if bootdisk == 0 then enable_boot_disk else disable_boot_disk

unfoldable pub powersave_toggle : ℕ → ℕ × Call
powersave_toggle disable_powersave =
    if disable_powersave == 0 then (1, prohibit_auto_poweroff) else (0, allow_auto_poweroff)

-- `my_memcpy`: the bytes from `dest` on.
unfoldable pub my_memcpy : ℕ → List ℕ → (ℕ → ℕ) → ℕ → ℕ
my_memcpy dest [] memory = memory
my_memcpy dest (c ∷ src) memory = my_memcpy (dest + 1) src (update memory dest c)

abbrev pub eos_develop : List ℕ
eos_develop = b'E' ∷ b'O' ∷ b'S' ∷ b'_' ∷ b'D' ∷ b'E' ∷ b'V' ∷ b'E' ∷ b'L' ∷ b'O' ∷ b'P' ∷ []

abbrev pub bootdisk_magic : List ℕ
bootdisk_magic = b'B' ∷ b'O' ∷ b'O' ∷ b'T' ∷ b'D' ∷ b'I' ∷ b'S' ∷ b'K' ∷ []

-- What `bootflag_write_bootblock` does to the block that it reads, before it writes it back.
unfoldable pub mark_block : (ℕ → ℕ) → ℕ → ℕ
mark_block block = my_memcpy 0x5C bootdisk_magic (my_memcpy 0x47 eos_develop block)
