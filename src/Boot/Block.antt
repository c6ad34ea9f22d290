-- ===== src/Boot/Block.antt =====
-- The boot block after the two strings are put in it.
use magic_lantern.Common.{
  ℕ, zero, suc, ◌+◌, ◌≤◌, ◌<◌, ◌≡◌, refl, ◌∙◌, ◌⊎◌, inl, inr, List, [], ◌∷◌, some, length,
  get_elem?, arith,
}
use magic_lantern.Common.Memory.{update}
use magic_lantern.Boot.{my_memcpy, mark_block, eos_develop, bootdisk_magic}

my_memcpy_outside :
    (src : List ℕ) (dest : ℕ) (memory : ℕ → ℕ) (a : ℕ)
    → (a < dest) ⊎ (dest + length src ≤ a)
    → my_memcpy dest src memory a ≡ memory a
unfolding my_memcpy
my_memcpy_outside [] dest memory a h = refl
my_memcpy_outside (c ∷ src) dest memory a (inl h) =
    my_memcpy_outside src (dest + 1) (update memory dest c) a (inl (omega (arith, h)))
    ∙ ground (arith, h)
my_memcpy_outside (c ∷ src) dest memory a (inr h) =
    my_memcpy_outside src (dest + 1) (update memory dest c) a (inr (omega (arith, h)))
    ∙ ground (arith, h)

my_memcpy_inside :
    (src : List ℕ) (dest : ℕ) (memory : ℕ → ℕ) (i v : ℕ)
    → get_elem? src i ≡ some v
    → my_memcpy dest src memory (dest + i) ≡ v
unfolding my_memcpy
my_memcpy_inside [] dest memory i v h = ground (arith, h)
my_memcpy_inside (c ∷ src) dest memory zero v h =
    my_memcpy_outside src (dest + 1) (update memory dest c) (dest + 0) (inl (omega arith))
    ∙ ground (arith, h)
my_memcpy_inside (c ∷ src) dest memory (suc i) v h =
    let on : dest + suc i ≡ dest + 1 + i = omega arith in
    rw on (my_memcpy_inside src (dest + 1) (update memory dest c) i v h)

in_range : (xs : List ℕ) (i v : ℕ) → get_elem? xs i ≡ some v → i < length xs
in_range [] i v h = ground (arith, h)
in_range (x ∷ xs) zero v h = omega arith
in_range (x ∷ xs) (suc i) v h = omega (arith, in_range xs i v h)

-- The marked block holds the two strings, each whole at its place, and all other bytes as they were read.
mark_block_lem :
    (block : ℕ → ℕ)
    → ((i v : ℕ) → get_elem? eos_develop i ≡ some v → mark_block block (0x47 + i) ≡ v)
      × ((i v : ℕ) → get_elem? bootdisk_magic i ≡ some v → mark_block block (0x5C + i) ≡ v)
      × ((a : ℕ)
          → (a < 0x47) ⊎ ((0x52 ≤ a) × (a < 0x5C)) ⊎ (0x64 ≤ a)
          → mark_block block a ≡ block a)
unfolding mark_block
mark_block_lem block = (first, second, others)
  where
    under : (i v : ℕ) → get_elem? eos_develop i ≡ some v → i < 11
    under i v h = in_range eos_develop i v h

    first : (i v : ℕ) → get_elem? eos_develop i ≡ some v → mark_block block (0x47 + i) ≡ v
    first i v h =
        my_memcpy_outside bootdisk_magic 0x5C (my_memcpy 0x47 eos_develop block) (0x47 + i)
          (inl (omega (arith, under i v h)))
        ∙ my_memcpy_inside eos_develop 0x47 block i v h

    second : (i v : ℕ) → get_elem? bootdisk_magic i ≡ some v → mark_block block (0x5C + i) ≡ v
    second i v h = my_memcpy_inside bootdisk_magic 0x5C (my_memcpy 0x47 eos_develop block) i v h

    others :
        (a : ℕ) → (a < 0x47) ⊎ ((0x52 ≤ a) × (a < 0x5C)) ⊎ (0x64 ≤ a) → mark_block block a ≡ block a
    others a h =
        my_memcpy_outside bootdisk_magic 0x5C (my_memcpy 0x47 eos_develop block) a
          (ground (arith, h))
        ∙ my_memcpy_outside eos_develop 0x47 block a (ground (arith, h))
