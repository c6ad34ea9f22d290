-- ===== src/Boot/Tests.antt =====
-- The boot block of a card that is all zeros.
use magic_lantern.Common.{◌≡◌, refl}
use magic_lantern.Boot.{mark_block, my_memcpy, bootflag_toggle, disable_boot_disk}

mark_block_byte : mark_block (λ a. 0) 0x48 ≡ b'O'
unfolding mark_block my_memcpy
mark_block_byte = refl

bootflag_toggle_on : bootflag_toggle 1 ≡ disable_boot_disk
unfolding bootflag_toggle
bootflag_toggle_on = refl
