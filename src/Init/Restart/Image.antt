-- ===== src/Init/Restart/Image.antt =====
-- What the image of the firmware is after the patches, and what is around it.
use magic_lantern.Common.{
  ℕ, ◌+◌, ◌-◌, ◌*◌, ◌/◌, ◌%◌, ◌^◌, ◌≤◌, ◌<◌, ◌≡◌, refl, ap, ◌∙◌, ◌⊎◌, inl, inr, Bool, true, false,
  ◌||◌, arith, ◌==◌, if◌then◌else◌, Bool-cases,
}
use magic_lantern.Common.Memory.{fill_outside, copy_words_inside, copy_words_outside}
use magic_lantern.Common.Word.{u32}
use magic_lantern.Reloc.{branch_dest}
use magic_lantern.Init.Restart.{
  Symbols, rom_base_addr, reloc_size, ret_instr, bl_instr, instr_address, set_instr, fixup_branch,
  zero_bss, blob_memcpy, patch_image, copy_and_restart,
}

-- The BL of the patch reaches what it is for.
branch_dest-bl_instr :
    (pc dest : ℕ)
    → pc < 2 ^ 32
    → dest < 2 ^ 32
    → pc % 4 ≡ 0
    → dest % 4 ≡ 0
    → (u32 (dest + 2 ^ 32 - pc + (2 ^ 32 - 8)) < 2 ^ 25)
      ⊎ (2 ^ 32 - 2 ^ 25 ≤ u32 (dest + 2 ^ 32 - pc + (2 ^ 32 - 8)))
    → branch_dest pc (bl_instr pc dest) ≡ dest
unfolding bl_instr
branch_dest-bl_instr pc dest p d pa da (inl near) = ground (arith, p, d, pa, da, near)
branch_dest-bl_instr pc dest p d pa da (inr near) = ground (arith, p, d, pa, da, near)

-- The places of the patches, as words of the image.
unfoldable pub is_patched : ℕ → Bool
is_patched k =
    (k == 0x8A4 / 4)
    || (k == 0x92C / 4)
    || (k == 0x93C / 4)
    || (k == 0x948 / 4)
    || (k == 0x2AE8 / 4)

-- A patch, for the word `k` of the image.
set_instr_lem :
    (s : Symbols) (offset value : ℕ) (memory : ℕ → ℕ) (k : ℕ)
    → s.reloc_addr % 4 ≡ 0
    → set_instr s (rom_base_addr + 4 * offset) value memory (s.reloc_addr / 4 + k)
      ≡ (if k == offset then value else memory (s.reloc_addr / 4 + k))
set_instr_lem s offset value memory k aligned =
    let place : instr_address s (rom_base_addr + 4 * offset) / 4 ≡ s.reloc_addr / 4 + offset =
      omega (arith, aligned) in
    rw place (elim (Bool-cases (k == offset)) [
      | inl e ↦
          let here : (s.reloc_addr / 4 + k == s.reloc_addr / 4 + offset) ≡ true =
            ground (arith, e) in
          rw (e, here) refl
      | inr e ↦
          let apart : (s.reloc_addr / 4 + k == s.reloc_addr / 4 + offset) ≡ false =
            ground (arith, e) in
          rw (e, apart) refl
    ])

-- All patches, for a word of the image.
patch_image_lem :
    (s : Symbols) (memory : ℕ → ℕ) (k : ℕ)
    → s.reloc_addr % 4 ≡ 0
    → patch_image s memory (s.reloc_addr / 4 + k) ≡ (
        if k == 0x948 / 4
        then s.init_task_addr
        else if k == 0x92C / 4
        then bl_instr (0x92C + s.reloc_addr) s.create_init_task
        else if k == 0x8A4 / 4
        then bl_instr (0x8A4 + s.reloc_addr) s.bzero32
        else if k == 0x93C / 4
        then s.bss_end
        else if k == 0x2AE8 / 4
        then ret_instr
        else memory (s.reloc_addr / 4 + k))
unfolding patch_image
patch_image_lem s memory k aligned =
    let m1 = set_instr s 0xFF812AE8 ret_instr memory in
    let m2 = set_instr s 0xFF81093C s.bss_end m1 in
    let m3 = fixup_branch s 0xFF8108A4 s.bzero32 m2 in
    let m4 = fixup_branch s 0xFF81092C s.create_init_task m3 in
    let e1 = set_instr_lem s (0x2AE8 / 4) ret_instr memory k aligned in
    let e2 = set_instr_lem s (0x93C / 4) s.bss_end m1 k aligned in
    let e3 = set_instr_lem s (0x8A4 / 4) (bl_instr (0x8A4 + s.reloc_addr) s.bzero32) m2 k aligned in
    let e4 =
      set_instr_lem s (0x92C / 4) (bl_instr (0x92C + s.reloc_addr) s.create_init_task) m3 k
        aligned in
    let e5 = set_instr_lem s (0x948 / 4) s.init_task_addr m4 k aligned in
    under s.init_task_addr (k == 0x948 / 4) e5 (
      under (bl_instr (0x92C + s.reloc_addr) s.create_init_task) (k == 0x92C / 4) e4 (
        under (bl_instr (0x8A4 + s.reloc_addr) s.bzero32) (k == 0x8A4 / 4) e3
          (under s.bss_end (k == 0x93C / 4) e2 e1)))
  where
    under :
        {before after w : ℕ} (v : ℕ) (b : Bool)
        → w ≡ (if b then v else before)
        → before ≡ after
        → w ≡ (if b then v else after)
    under v b e f = e ∙ ap (λ x. if b then v else x) f

-- The words outside of the image.
patch_image_outside :
    (s : Symbols) (memory : ℕ → ℕ) (a : ℕ)
    → s.reloc_addr % 4 ≡ 0
    → (a < s.reloc_addr / 4) ⊎ (s.reloc_addr / 4 + reloc_size / 4 ≤ a)
    → patch_image s memory a ≡ memory a
unfolding patch_image
patch_image_outside s memory a aligned (inl h) = ground (arith, aligned, h)
patch_image_outside s memory a aligned (inr h) = ground (arith, aligned, h)

-- The linker's script and the Makefile put the bss and the image in the RAM, and the firmware is above both.
abbrev pub IsLinked : Symbols → Type 0
IsLinked s =
    (s.bss_start % 4 ≡ 0)
    × (s.bss_end % 4 ≡ 0)
    × (s.reloc_addr % 4 ≡ 0)
    × (s.bss_start ≤ s.bss_end)
    × (s.bss_end ≤ rom_base_addr)
    × (s.reloc_addr + reloc_size ≤ rom_base_addr)

-- The way from a place to another is short enough for a BL.
abbrev pub IsNear : ℕ → ℕ → Type 0
IsNear pc dest =
    (u32 (dest + 2 ^ 32 - pc + (2 ^ 32 - 8)) < 2 ^ 25)
    ⊎ (2 ^ 32 - 2 ^ 25 ≤ u32 (dest + 2 ^ 32 - pc + (2 ^ 32 - 8)))

-- What the copy puts at a word of the image: the firmware is above the bss and not zeroed.
copied_lem :
    (s : Symbols) (memory : ℕ → ℕ) (k : ℕ)
    → IsLinked s
    → k < reloc_size / 4
    → blob_memcpy s.reloc_addr rom_base_addr
        (rom_base_addr + reloc_size)
        (zero_bss s memory)
        (s.reloc_addr / 4 + k)
      ≡ memory (rom_base_addr / 4 + k)
unfolding blob_memcpy zero_bss
copied_lem s memory k (start, end, aligned, order, below, low) h =
    copy_words_inside (reloc_size / 4) (rom_base_addr / 4) (s.reloc_addr / 4) (zero_bss s memory) k
      (inr (omega (arith, low, aligned))) h
    ∙ fill_outside ((s.bss_end - s.bss_start + 3) / 4) (s.bss_start / 4) (λ i. 0) memory
        (rom_base_addr / 4 + k) (inr (omega (arith, start, end, order, below)))

image_outside :
    (s : Symbols) (memory : ℕ → ℕ) (a : ℕ)
    → (a < s.reloc_addr / 4) ⊎ (s.reloc_addr / 4 + reloc_size / 4 ≤ a)
    → blob_memcpy s.reloc_addr rom_base_addr (rom_base_addr + reloc_size) memory a ≡ memory a
unfolding blob_memcpy
image_outside s memory a h =
    copy_words_outside (reloc_size / 4) (rom_base_addr / 4) (s.reloc_addr / 4) memory a h

bss_outside :
    (s : Symbols) (memory : ℕ → ℕ) (a : ℕ)
    → s.bss_start % 4 ≡ 0
    → s.bss_end % 4 ≡ 0
    → s.bss_start ≤ s.bss_end
    → (a < s.bss_start / 4) ⊎ (s.bss_end / 4 ≤ a)
    → zero_bss s memory a ≡ memory a
unfolding zero_bss
bss_outside s memory a start end order h =
    fill_outside ((s.bss_end - s.bss_start + 3) / 4) (s.bss_start / 4) (λ i. 0) memory a (beside h)
  where
    beside :
        (a < s.bss_start / 4) ⊎ (s.bss_end / 4 ≤ a)
        → (a < s.bss_start / 4) ⊎ (s.bss_start / 4 + (s.bss_end - s.bss_start + 3) / 4 ≤ a)
    beside (inl l) = inl l
    beside (inr l) = inr (omega (arith, start, end, order, l))

-- For addresses as the linker gives them: each word of the image is the firmware's, but for the five that are patched;
-- the two patched calls, where they are near enough, reach bzero32 and create_init_task; and outside of the image and of
-- the bss the memory is as it was.
pub copy_and_restart-image :
    (s : Symbols) (memory : ℕ → ℕ)
    → IsLinked s
    → s.bzero32 < 2 ^ 32
    → s.bzero32 % 4 ≡ 0
    → s.create_init_task < 2 ^ 32
    → s.create_init_task % 4 ≡ 0
    → IsNear (0x8A4 + s.reloc_addr) s.bzero32
    → IsNear (0x92C + s.reloc_addr) s.create_init_task
    → let after = copy_and_restart s memory in
      ((k : ℕ)
        → k < reloc_size / 4
        → is_patched k ≡ false
        → after (s.reloc_addr / 4 + k) ≡ memory (rom_base_addr / 4 + k))
      × (branch_dest (0x8A4 + s.reloc_addr) (after (s.reloc_addr / 4 + 0x8A4 / 4)) ≡ s.bzero32)
      × (branch_dest (0x92C + s.reloc_addr) (after (s.reloc_addr / 4 + 0x92C / 4))
          ≡ s.create_init_task)
      × ((a : ℕ)
          → (a < s.reloc_addr / 4) ⊎ (s.reloc_addr / 4 + reloc_size / 4 ≤ a)
          → (a < s.bss_start / 4) ⊎ (s.bss_end / 4 ≤ a)
          → after a ≡ memory a)
unfolding copy_and_restart is_patched
copy_and_restart-image s memory linked b_small b_aligned c_small c_aligned b_near c_near =
    let (start, end, aligned, order, below, low) = linked in
    let zeroed = zero_bss s memory in
    let image = blob_memcpy s.reloc_addr rom_base_addr (rom_base_addr + reloc_size) zeroed in
    (
      (λ k h other.
          let patched = patch_image_lem s image k aligned in
          let copied = copied_lem s memory k linked h in ground (arith, patched, copied, other)),
      ap (branch_dest (0x8A4 + s.reloc_addr)) (patch_image_lem s image (0x8A4 / 4) aligned)
          ∙ branch_dest-bl_instr (0x8A4 + s.reloc_addr) s.bzero32 (omega (arith, low)) b_small
              (omega (arith, aligned)) b_aligned b_near,
      ap (branch_dest (0x92C + s.reloc_addr)) (patch_image_lem s image (0x92C / 4) aligned)
          ∙ branch_dest-bl_instr (0x92C + s.reloc_addr) s.create_init_task (omega (arith, low))
              c_small (omega (arith, aligned)) c_aligned c_near,
      (λ a outside besides.
          patch_image_outside s image a aligned outside
          ∙ image_outside s zeroed a outside
          ∙ bss_outside s memory a start end order besides),
    )
