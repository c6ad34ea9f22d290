-- ===== src/Firmware/Pack/Checksum.antt =====
-- The two checksums of a packed file.
use magic_lantern.Common.{
  ℕ, ◌+◌, ◌-◌, ◌*◌, ◌%◌, ◌^◌, ◌<◌, ◌≡◌, refl, ◌∙◌, List, [], ◌∷◌, ◌++◌, length, Option, none, some,
  arith,
}
use magic_lantern.Common.Word.{u32}
use magic_lantern.Firmware.Pack.{
  FileRec, main_bytes, pack_bytes, rec_bytes, table_bytes, cksum_from, f_cksum, Copied, copy_from,
  f_filecpy, Pack, add_file, Input, add_files, place_recs, Image, image_bytes, make_pack_head,
  loader_of, make_image,
}

-- The sum of the bytes.
unfoldable total : List ℕ → ℕ
total [] = 0
total (c ∷ p) = c + total p

total-append : (xs ys : List ℕ) → total (xs ++ ys) ≡ total xs + total ys
unfolding total
total-append [] ys = omega arith
total-append (x ∷ xs) ys = omega (arith, total-append xs ys)

cksum_from-total : (p : List ℕ) (s : ℕ) → s < 2 ^ 32 → cksum_from s p ≡ (s + total p) % 2 ^ 32
unfolding cksum_from total
cksum_from-total [] s h = omega (arith, h)
cksum_from-total (c ∷ p) s h = cksum_from-total p (u32 (s + c)) (omega arith) ∙ omega arith

f_cksum_lem : (p : List ℕ) → f_cksum p ≡ total p % 2 ^ 32
f_cksum_lem p = cksum_from-total p 0 (omega arith) ∙ omega arith

-- A sum that stands for some bytes written since `base`.
abbrev Counts : ℕ → Copied → Type 0
Counts base c = (base + c.sum) % 2 ^ 32 ≡ total c.out % 2 ^ 32

copy_from-Counts :
    (file : List (List ℕ)) (base : ℕ) (c : Copied) → Counts base c → Counts base (copy_from c file)
unfolding copy_from
copy_from-Counts [] base c h = h
copy_from-Counts (buf ∷ more) base c h =
    copy_from-Counts more base _ (omega (arith, h, f_cksum_lem buf, total-append c.out buf))

f_filecpy_lem :
    (out : List ℕ) (file : List (List ℕ))
    → (total out + (f_filecpy out file).sum) % 2 ^ 32 ≡ total (f_filecpy out file).out % 2 ^ 32
f_filecpy_lem out file =
    copy_from-Counts file (total out) (record { sum = 0; len = 0; out = out }) (omega arith)

abbrev Summed : Pack → Type 0
Summed p = p.cksum ≡ total p.out % 2 ^ 32

add_file-Summed :
    (file : Option (List (List ℕ))) (name : List ℕ) (p : Pack)
    → Summed p
    → Summed (add_file file name p)
unfolding add_file
add_file-Summed none name p h = h
add_file-Summed (some file) name p h = omega (arith, h, f_filecpy_lem p.out file)

add_files-Summed : (fs : List Input) (p : Pack) → Summed p → Summed (add_files fs p)
unfolding add_files
add_files-Summed [] p h = h
add_files-Summed (f ∷ fs) p h =
    add_files-Summed fs (add_file f.0 f.1 p) (add_file-Summed f.0 f.1 p h)

place_recs-total :
    (rs : List FileRec) (offset lenght cksum : ℕ)
    → cksum < 2 ^ 32
    → let (table, (lenght', cksum')) = place_recs offset lenght cksum rs in
      cksum' ≡ (cksum + total (table_bytes table)) % 2 ^ 32
unfolding place_recs table_bytes total
place_recs-total [] offset lenght cksum h = omega (arith, h)
place_recs-total (r ∷ rs) offset lenght cksum h =
    let placed = record r { offset = u32 (lenght + offset) } in
    let ih =
      place_recs-total rs offset (u32 (lenght + r.lenght))
        (u32 (cksum + f_cksum (rec_bytes placed))) (omega arith) in
    let (more, end) =
      place_recs offset (u32 (lenght + r.lenght)) (u32 (cksum + f_cksum (rec_bytes placed))) rs in
    omega (
      arith,
      ih,
      f_cksum_lem (rec_bytes placed),
      total-append (rec_bytes placed) (table_bytes more),
    )

make_pack_head-total :
    (p : Pack)
    → Summed p
    → let (table, head) = make_pack_head p in
      f_cksum (pack_bytes (record head { cksum = 0 }) ++ table_bytes table ++ p.out) + head.cksum
      ≡ 2 ^ 32 - 1
unfolding make_pack_head cksum_from pack_bytes
make_pack_head-total p h =
    let placed = place_recs-total p.recs (length p.recs * 40 + 24) 0 p.cksum (omega (arith, h)) in
    let (table, head) = make_pack_head p in
    let zeroed = pack_bytes (record head { cksum = 0 }) in
    omega (
      arith,
      h,
      placed,
      f_cksum_lem zeroed,
      f_cksum_lem (zeroed ++ table_bytes table ++ p.out),
      total-append (zeroed ++ table_bytes table) p.out,
      total-append zeroed (table_bytes table),
    )

loader_of-total :
    (loader : Option (List (List ℕ)))
    → (loader_of loader).sum % 2 ^ 32 ≡ total (loader_of loader).out % 2 ^ 32
unfolding total
loader_of-total none = refl
loader_of-total (some file) = omega (arith, f_filecpy_lem [] file)

-- The bytes of an image, part by part.
image_bytes-total :
    (i : Image)
    → total (image_bytes i)
      ≡ total (main_bytes i.main_head)
        + (total i.loader
            + (total (pack_bytes i.pack_head) + (total (table_bytes i.table) + total i.pack)))
unfolding image_bytes
image_bytes-total i =
    let heads = main_bytes i.main_head ++ i.loader in
    let packed = heads ++ pack_bytes i.pack_head in
    total-append (packed ++ table_bytes i.table) i.pack
    ∙ omega (
      arith,
      total-append packed (table_bytes i.table),
      total-append heads (pack_bytes i.pack_head),
      total-append (main_bytes i.main_head) i.loader,
    )

make_image_main :
    (version : List ℕ) (loader : Option (List (List ℕ))) (files : List Input)
    → let i = make_image version loader files in
      f_cksum (image_bytes (record i { main_head = record i.main_head { cksum = 0 } }))
        + i.main_head.cksum
      ≡ 2 ^ 32 - 1
unfolding make_image cksum_from total
make_image_main version loader files =
    let i = make_image version loader files in
    let zeroed = record i { main_head = record i.main_head { cksum = 0 } } in
    let p = add_files files (record { cksum = 0; recs = []; out = [] }) in
    omega (
      arith,
      f_cksum_lem (image_bytes zeroed),
      image_bytes-total zeroed,
      loader_of-total loader,
      f_filecpy_lem [] (p.out ∷ []),
      f_cksum_lem (main_bytes zeroed.main_head),
      f_cksum_lem (pack_bytes i.pack_head),
      f_cksum_lem (table_bytes i.table),
    )

-- Whatever files there are, empty ones and ones that cannot be opened included, both checksums are right: with its own
-- field as 0, the bytes of the whole file and its checksum add up to -1 in a word, and so do the bytes from the header of
-- the pack on and the checksum there.
pub make_image-f_cksum :
    (version : List ℕ) (loader : Option (List (List ℕ))) (files : List Input)
    → let i = make_image version loader files in
      (f_cksum (image_bytes (record i { main_head = record i.main_head { cksum = 0 } }))
          + i.main_head.cksum
        ≡ 2 ^ 32 - 1)
      × (f_cksum (pack_bytes (record i.pack_head { cksum = 0 }) ++ table_bytes i.table ++ i.pack)
            + i.pack_head.cksum
          ≡ 2 ^ 32 - 1)
unfolding make_image copy_from total
make_image-f_cksum version loader files =
    let p = add_files files (record { cksum = 0; recs = []; out = [] }) in
    (
      make_image_main version loader files,
      make_pack_head-total p
          (add_files-Summed files (record { cksum = 0; recs = []; out = [] }) nothing),
    )
  where
    nothing : Summed (record { cksum = 0; recs = []; out = [] })
    nothing = refl
