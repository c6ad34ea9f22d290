-- ===== src/Bitmap/Load.antt =====
-- `bmp_load` of bmp.c, and what it does with its two buffers.
use magic_lantern.Common.{
  ℕ, zero, suc, ◌+◌, ◌≡◌, ◌≢◌, Bool, false, not, ◌&&◌, Option, none, some, List, [], ◌∷◌, arith,
  ltb, ◌==◌, if◌then◌else◌,
}

-- How the calls of the firmware end: the size of the file, the two buffers (0 if there is none), how many bytes
-- are read (`none` if the file cannot be opened), and two words of the header.
pub record Outcome : Type 0 where
  pub file_size : Option ℕ
  pub dma : ℕ
  pub read : Option ℕ
  pub signature : ℕ
  pub image : ℕ
  pub fast : ℕ

pub data Call : Type 0 where
  alloc_dma_memory : Call
  free_dma_memory : Call
  malloc : Call

-- `read_file`, for a size; `none` is -1, which no size is.
unfoldable pub read_file : Option ℕ → ℕ → Option ℕ
read_file none size = none
read_file (some rc) size = if rc == size then some size else none

-- `bmp_load`, after the buffer is allocated.
unfoldable pub bmp_load_into : Outcome → ℕ → (Option ℕ) × List Call
unfolding read_file
bmp_load_into o size =
    if o.dma == 0 then (none, alloc_dma_memory ∷ []) else elim (read_file o.read size) [
      | none ↦ (none, alloc_dma_memory ∷ free_dma_memory ∷ [])
      | some rc ↦
          if not (o.signature == 0x4D42)
          then (none, alloc_dma_memory ∷ free_dma_memory ∷ [])
          else if ltb size o.image
          then (none, alloc_dma_memory ∷ free_dma_memory ∷ [])
          else if o.fast == 0
          then (none, alloc_dma_memory ∷ malloc ∷ free_dma_memory ∷ [])
          else (some (o.fast + o.image), alloc_dma_memory ∷ malloc ∷ free_dma_memory ∷ [])
    ]

-- `bmp_load`: where the image is (`none` is NULL), and the calls for the buffers.
unfoldable pub bmp_load : Outcome → (Option ℕ) × List Call
unfolding bmp_load_into
bmp_load o = elim o.file_size [ none ↦ (none, []) | some size ↦ bmp_load_into o size ]

-- The DMA buffers that are held at the end, of `held` at first; each is freed once, and only if it is held.
abbrev pub dma_held : ℕ → List Call → Option ℕ
dma_held held [] = some held
dma_held held (alloc_dma_memory ∷ calls) = dma_held (held + 1) calls
dma_held zero (free_dma_memory ∷ calls) = none
dma_held (suc held) (free_dma_memory ∷ calls) = dma_held held calls
dma_held held (malloc ∷ calls) = dma_held held calls

-- What a picture needs to be loaded: a file that is read whole, of the right signature, with the image in it, and
-- the two buffers.
abbrev pub is_good : Outcome → ℕ → Bool
is_good o size =
    not (o.dma == 0)
    && elim o.read [ none ↦ false | some rc ↦ rc == size ]
    && (o.signature == 0x4D42)
    && not (ltb size o.image)
    && not (o.fast == 0)

-- For a file of a known size, the picture is loaded exactly when all it needs is there, and if there is a DMA buffer,
-- it is freed once before the return, whatever goes wrong.
pub bmp_load_lem :
    (o : Outcome) (size : ℕ)
    → o.file_size ≡ some size
    → ((bmp_load o).0 ≡ (if is_good o size then some (o.fast + o.image) else none))
      × (o.dma ≢ 0 → dma_held 0 (bmp_load o).1 ≡ some 0)
unfolding bmp_load
bmp_load_lem o size e = ground (arith, e)
