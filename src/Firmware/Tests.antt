-- ===== src/Firmware/Tests.antt =====
-- The cipher at concrete bytes.
use magic_lantern.Common.{
  true, false, replicate, ◌*◌, ◌^◌, ◌-◌, ◌++◌, ℕ, ◌+◌, ◌%◌, ◌≤◌, ◌<◌, ◌≡◌, refl, List, [], ◌∷◌,
  none, some, arith,
}
use magic_lantern.Firmware.Dissect.{header, write_parts, dissect}
use magic_lantern.Firmware.{
  getoffsets, dissect_getoffsets, decrypt_block, decrypt_stream, start_offset,
}
use magic_lantern.Firmware.Pack.{Input, make_image, f_cksum, image_bytes, pack_bytes, table_bytes}
use magic_lantern.Firmware.Pack.Checksum.{make_image-f_cksum}
use magic_lantern.Firmware.Pack.{make_pack_head, copy_from, add_files, add_file, place_recs}
use magic_lantern.Firmware.Pack.Placed.{packed, IsPlaced, make_image-IsPlaced}
use magic_lantern.Firmware.Offsets.{dissect_getoffsets-getoffsets}
use magic_lantern.Firmware.Stream.{decrypt_stream-decrypt_block}

abbrev bytes : List ℕ
bytes = 0x12 ∷ 0x34 ∷ 0xFF ∷ []

start_offset_default : start_offset none none ≡ 0x800120
unfolding start_offset
start_offset_default = refl

start_offset_moved : start_offset (some 0x1000) (some 0x800140) ≡ 0x1020
unfolding start_offset
start_offset_moved = refl

decrypt_stream-decrypt_block_example :
    decrypt_stream (bytes ∷ (0 ∷ []) ∷ bytes ∷ []) 0x8001FE
    ≡ decrypt_block (0x12 ∷ 0x34 ∷ 0xFF ∷ 0 ∷ 0x12 ∷ 0x34 ∷ 0xFF ∷ []) 0x8001FE
decrypt_stream-decrypt_block_example =
    decrypt_stream-decrypt_block (bytes ∷ (0 ∷ []) ∷ bytes ∷ []) 0x8001FE (omega arith)

dissect_getoffsets-getoffsets_example :
    ((dissect_getoffsets 0x800120).1 ≡ (getoffsets 0x800120).1)
    × (0x800120 % 512 < 256 → (dissect_getoffsets 0x800120).0 ≡ (getoffsets 0x800120).0)
    × (256 ≤ 0x800120 % 512 → (dissect_getoffsets 0x800120).0 + 256 ≡ (getoffsets 0x800120).0)
dissect_getoffsets-getoffsets_example = dissect_getoffsets-getoffsets 0x800120

-- A loader, a file of the pack that cannot be opened, and one of two pieces.
make_image-f_cksum_example :
    let i =
      make_image
        (replicate 16 0x31)
        (some (bytes ∷ []))
        ((none, replicate 28 0) ∷ (some (bytes ∷ bytes ∷ []), replicate 28 0x41) ∷ []) in
    (f_cksum (image_bytes (record i { main_head = record i.main_head { cksum = 0 } }))
        + i.main_head.cksum
      ≡ 2 ^ 32 - 1)
    × (f_cksum (pack_bytes (record i.pack_head { cksum = 0 }) ++ table_bytes i.table ++ i.pack)
          + i.pack_head.cksum
        ≡ 2 ^ 32 - 1)
make_image-f_cksum_example =
    make_image-f_cksum (replicate 16 0x31) (some (bytes ∷ []))
      ((none, replicate 28 0) ∷ (some (bytes ∷ bytes ∷ []), replicate 28 0x41) ∷ [])

make_image-IsPlaced_example :
    let files : List Input =
      (some ((7 ∷ 8 ∷ []) ∷ []), replicate 28 0x41)
      ∷ (none, replicate 28 0x43)
      ∷ (some (bytes ∷ []), replicate 28 0x42)
      ∷ [] in
    let i = make_image (replicate 16 0x31) none files in
    IsPlaced (24 + 40 * i.pack_head.rec_num) (packed files) i.table i.pack
unfolding make_image make_pack_head copy_from add_files add_file place_recs
make_image-IsPlaced_example =
    make_image-IsPlaced (replicate 16 0x31) none
      ((some ((7 ∷ 8 ∷ []) ∷ []), replicate 28 0x41)
        ∷ (none, replicate 28 0x43)
        ∷ (some (bytes ∷ []), replicate 28 0x42)
        ∷ [])
      (omega arith) (omega arith)

-- The second file cannot be created: only the header is written.
header_only :
    (dissect (λ p. elim p [ header ↦ true | _ ↦ false ]) 0x120 7 (replicate 0x140 0)).0 ≡ false
unfolding dissect write_parts
header_only = refl
