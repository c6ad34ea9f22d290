-- ===== src/Firmware.antt =====
-- decrypt-block.c and dissect_fw.c: the cipher of a firmware file, and the filter that takes it off a stream.
pub mod Tables
pub mod Offsets
pub mod Stream
pub mod Dissect
pub mod Pack
mod Tests
use Prim.Native.Nat.{bit_xor}
use magic_lantern.Common.{
  ℕ, zero, suc, ◌+◌, ◌-◌, ◌*◌, ◌/◌, ◌%◌, ◌^◌, List, [], ◌∷◌, ◌++◌, length, Option, none, some, leb,
  if◌then◌else◌,
}
use magic_lantern.Common.Word.{u32}
use magic_lantern.Firmware.Tables.{crypt1, crypt2}

-- A read of a table. What lies behind its end is 0 here, and is never read.
abbrev pub entry : List ℕ → ℕ → ℕ
entry [] i = 0
entry (x ∷ xs) zero = x
entry (x ∷ xs) (suc i) = entry xs i

-- `getoffsets` of decrypt-block.c, on a machine of 32 bits. `base<<23>>23` keeps nine bits; `highbits&0xFFFFFE00` clears
-- nine.
unfoldable pub getoffsets : ℕ → ℕ × ℕ
getoffsets base =
    let highbits = base * 0xFF803FE1 / 2 ^ 32 in
    (base % 512, u32 (base + 2 ^ 33 - (highbits / 512 + highbits / 512 * 512)))

-- `getoffsets` of dissect_fw.c, which keeps eight bits.
unfoldable pub dissect_getoffsets : ℕ → ℕ × ℕ
dissect_getoffsets base =
    let highbits = base * 0xFF803FE1 / 2 ^ 32 in
    (base % 256, u32 (base + 2 ^ 33 - (highbits / 512 + highbits / 512 * 512)))

-- What a byte is changed by.
unfoldable pub key : ℕ → ℕ → ℕ
key offset1 offset2 = bit_xor (bit_xor (entry crypt1 offset1) (entry crypt2 offset2)) 0x37

-- `if( ++offset >= size ) offset = 0`
abbrev pub next_offset : ℕ → ℕ → ℕ
next_offset size offset = if leb size (offset + 1) then 0 else offset + 1

-- The loop of `decrypt_block`.
unfoldable pub decrypt_from : ℕ → ℕ → List ℕ → List ℕ
decrypt_from offset1 offset2 [] = []
decrypt_from offset1 offset2 (c ∷ buf) =
    bit_xor c (key offset1 offset2)
    ∷ decrypt_from (next_offset 512 offset1) (next_offset 513 offset2) buf

unfoldable pub decrypt_block : List ℕ → ℕ → List ℕ
decrypt_block buf base =
    let (offset1, offset2) = getoffsets base in decrypt_from offset1 offset2 buf

-- The offset at which `main` starts, by its two arguments.
unfoldable pub start_offset : Option ℕ → Option ℕ → ℕ
start_offset none second = 0x800120
start_offset (some first) none = first
start_offset (some first) (some second) = u32 (first + (second + 2 ^ 32 - 0x800120))

-- The loop of `main`, over the pieces that `read` gives; what it writes.
unfoldable pub decrypt_stream : List (List ℕ) → ℕ → List ℕ
decrypt_stream [] offset = []
decrypt_stream (buf ∷ more) offset =
    decrypt_block buf offset ++ decrypt_stream more (u32 (offset + length buf))
